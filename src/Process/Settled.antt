-- ===== src/Process/Settled.antt =====
-- internal/process/process_command.go: what holds of the run loop between two turns.
use llemon_swap.Base.{
  ℕ, ◌≡◌, refl, Bool, true, false, none, some, List, [], ◌∷◌, arith, Bool-cases, Option-cases, inl,
  inr,
}
use llemon_swap.Scheduler.State.{ProcessState, stopped, starting, ready, stopping, shutdown}
use llemon_swap.Process.Types.{reply, StartReq, StopReq, StartResult, ProcessEffect}
use llemon_swap.Process.Start.{
  StartEnv, do_start, do_start-IsClean, is_started, is_refused, is_killed, is_cancelled,
}
use llemon_swap.Process.Loop.{
  ProcessLoop, emit, early_answer, parent_done, cmd_exited, wait_ready, start_request, stop_request,
  set_state, notify_waiters, respond_run, on_parent_done, on_cmd_exited, on_wait_ready, Meanwhile,
  finished, stop_arrived, parent_ended, start_command, on_start, on_stop, ProcessStep, ProcessRuns,
  begin, turn,
}
use llemon_swap.Process.Start

pub record IsIdle (l : ProcessLoop) : Type 0 where
  pub state : l.state ≡ stopped
  pub cmd : l.cmd ≡ none
  pub cmd_done : l.cmd_done ≡ none
  pub cmd_cancel : l.cmd_cancel ≡ none
  pub handler : l.handler ≡ none
  pub run_resp : l.run_resp ≡ none
  pub ended : l.ended ≡ false

pub record IsUp (l : ProcessLoop) : Type 0 where
  pub state : l.state ≡ ready
  pub cmd : (c : ℕ) × (l.cmd ≡ some c)
  pub cmd_done : (c : ℕ) × (l.cmd_done ≡ some c)
  pub cmd_cancel : (c : ℕ) × (l.cmd_cancel ≡ some c)
  pub handler : (h : ℕ) × (l.handler ≡ some h)
  pub ready_waiters : l.ready_waiters ≡ []
  pub ended : l.ended ≡ false

pub record IsOver (l : ProcessLoop) : Type 0 where
  pub state : l.state ≡ shutdown
  pub cmd : l.cmd ≡ none
  pub cmd_done : l.cmd_done ≡ none
  pub cmd_cancel : l.cmd_cancel ≡ none
  pub handler : l.handler ≡ none
  pub ready_waiters : l.ready_waiters ≡ []
  pub run_resp : l.run_resp ≡ none
  pub ended : l.ended ≡ true

-- What the loop is between two turns.
pub data IsSettled (l : ProcessLoop) : Type 0 where
  idle : IsIdle l → IsSettled l
  up : IsUp l → IsSettled l
  over : IsOver l → IsSettled l

on_parent_done-IsOver :
    (b : Bool) (l : ProcessLoop) → IsSettled l → l.ended ≡ false → IsOver (on_parent_done b l)
unfolding on_parent_done set_state notify_waiters respond_run
on_parent_done-IsOver b l (idle i) h = ground arith
on_parent_done-IsOver b l (up i) h = ground arith
on_parent_done-IsOver b l (over i) h = ground arith

on_cmd_exited-IsIdle : (l : ProcessLoop) → l.ended ≡ false → IsIdle (on_cmd_exited l)
unfolding on_cmd_exited set_state notify_waiters respond_run
on_cmd_exited-IsIdle l h = ground arith

on_wait_ready-IsSettled : (ch : ℕ) (l : ProcessLoop) → IsSettled l → IsSettled (on_wait_ready ch l)
unfolding on_wait_ready
on_wait_ready-IsSettled ch l (idle i) = idle (ground arith)
on_wait_ready-IsSettled ch l (up i) = up (ground arith)
on_wait_ready-IsSettled ch l (over i) = over (ground arith)

on_stop-IsIdle :
    (req : StopReq) (b : Bool) (l : ProcessLoop)
    → IsSettled l
    → l.ended ≡ false
    → IsIdle (on_stop req b l)
unfolding on_stop set_state notify_waiters respond_run
on_stop-IsIdle req b l (idle i) h = ground arith
on_stop-IsIdle req b l (up i) h = ground arith
on_stop-IsIdle req b l (over i) h = ground arith

-- What a start leaves, by its result and by what arrived meanwhile.
module _ (unload_after : ℕ) (req : StartReq) (l : ProcessLoop) (i : IsIdle l) where
  started-IsUp :
      (env : StartEnv) → IsUp (start_command unload_after req (Start.started env) [] finished l)
  unfolding start_command set_state notify_waiters
  started-IsUp env = elim (Bool-cases req.block) [
    | inl e ↦ rw e (ground arith)
    | inr e ↦ rw e (ground arith)
  ]

  finished-IsSettled :
      (env : StartEnv) (p : StartResult × List ProcessEffect)
      → Start.IsClean env p
      → IsSettled (start_command unload_after req p.0 p.1 finished l)
  unfolding start_command set_state notify_waiters
  finished-IsSettled env p (is_started e) = rw e (up (started-IsUp env))
  finished-IsSettled env p (is_refused e _ h) = rw h (idle (ground arith))
  finished-IsSettled env p (is_killed e h) = rw h (idle (ground arith))
  finished-IsSettled env p (is_cancelled e h) = rw h (idle (ground arith))

  stop_arrived-IsIdle :
      (res : StartResult) (effects : List ProcessEffect) (stop : StopReq) (in_time : Bool)
      → IsIdle (start_command unload_after req res effects (stop_arrived stop in_time) l)
  unfolding start_command set_state notify_waiters
  stop_arrived-IsIdle res effects stop in_time = ground arith

  parent_ended-IsOver :
      (res : StartResult) (effects : List ProcessEffect) (in_time : Bool)
      → IsOver (start_command unload_after req res effects (parent_ended in_time) l)
  unfolding start_command set_state notify_waiters respond_run
  parent_ended-IsOver res effects in_time = ground arith

  start_command-IsSettled :
      (env : StartEnv) (p : StartResult × List ProcessEffect) (meanwhile : Meanwhile)
      → Start.IsClean env p
      → IsSettled (start_command unload_after req p.0 p.1 meanwhile l)
  start_command-IsSettled env p finished c = finished-IsSettled env p c
  start_command-IsSettled env p (stop_arrived stop b) c = idle (stop_arrived-IsIdle p.0 p.1 stop b)
  start_command-IsSettled env p (parent_ended b) c = over (parent_ended-IsOver p.0 p.1 b)

emit-IsSettled :
    (effects : List ProcessEffect) (l : ProcessLoop) → IsSettled l → IsSettled (emit effects l)
emit-IsSettled effects l (idle i) = idle (ground arith)
emit-IsSettled effects l (up u) = up (ground arith)
emit-IsSettled effects l (over o) = over (ground arith)

-- A start is due in StateStopped only.
pub early_answer-none :
    (block : Bool) (s : ProcessState) → early_answer block s ≡ none → s ≡ stopped
unfolding early_answer
early_answer-none true stopped h = refl
early_answer-none false stopped h = refl
early_answer-none true starting h = cc
early_answer-none false starting h = cc
early_answer-none true ready h = cc
early_answer-none false ready h = cc
early_answer-none true stopping h = cc
early_answer-none false stopping h = cc
early_answer-none true shutdown h = cc
early_answer-none false shutdown h = cc

pub stopped-IsIdle : (l : ProcessLoop) → IsSettled l → l.state ≡ stopped → IsIdle l
stopped-IsIdle l (idle i) h = i
stopped-IsIdle l (up u) h = absurd (ground arith)
stopped-IsIdle l (over o) h = absurd (ground arith)

module _ (unload_after : ℕ) (l : ProcessLoop) (settled : IsSettled l) where
  on_start-IsSettled :
      (req : StartReq) (env : StartEnv) (p : StartResult × List ProcessEffect)
      (meanwhile : Meanwhile)
      → Start.IsClean env p
      → IsSettled (on_start unload_after req p.0 p.1 meanwhile l)
  unfolding on_start
  on_start-IsSettled req env p meanwhile clean =
      elim (Option-cases (early_answer req.block l.state)) [
        | inl e ↦
            rw (e, on_start)
              (start_command-IsSettled unload_after req l
                (stopped-IsIdle l settled (early_answer-none req.block l.state e)) env p meanwhile
                clean)
        | inr (err, e) ↦ rw (e, on_start) (emit-IsSettled (reply req.respond err ∷ []) l settled)
      ]

  Step-IsSettled :
      {asked left : List ℕ} {m : ProcessLoop}
      → l.ended ≡ false
      → ProcessStep unload_after asked left l m
      → IsSettled m
  Step-IsSettled h (parent_done b _ _ e) = rw e (over (on_parent_done-IsOver b l settled h))
  Step-IsSettled h (cmd_exited c _ _ _ e) = rw e (idle (on_cmd_exited-IsIdle l h))
  Step-IsSettled h (wait_ready ch _ _ e) = rw e (on_wait_ready-IsSettled ch l settled)
  Step-IsSettled h (start_request req env fuel res effects meanwhile returned _ _ e) = rw e (
      on_start-IsSettled req env (res, effects) meanwhile
        (do_start-IsClean env fuel (res, effects) returned))
  Step-IsSettled h (stop_request req b _ _ e) = rw e (idle (on_stop-IsIdle req b l settled h))

-- Between two turns the run loop is in one of three conditions: idle, stopped with no command, no
-- handler and no Run caller parked; up, ready with a command, its channel, its context and its
-- handler, and no WaitReady caller parked; or over, shut down and returned, with nothing left and
-- nobody parked.
pub Runs-IsSettled :
    {unload_after : ℕ} {asked left : List ℕ} {l : ProcessLoop}
    → ProcessRuns unload_after asked left l
    → IsSettled l
Runs-IsSettled begin = idle (ground arith)
Runs-IsSettled {unload_after} (turn r h s) = Step-IsSettled unload_after _ (Runs-IsSettled r) h s
