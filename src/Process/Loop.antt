-- ===== src/Process/Loop.antt =====
-- internal/process/process_command.go: the goroutine `run`, a function for each case of its select.
-- The trace keeps, newest first, what the loop does outside. A channel of a request has room for
-- one answer, so a send to it does not wait; that no channel gets two is in Answers.
use llemon_swap.Base.{
  ℕ, ◌≡◌, Bool, true, false, Option, none, some, List, [], ◌∷◌, ◌++◌, ltb, if◌then◌else◌,
}
use llemon_swap.Scheduler.State.{ProcessState, stopped, starting, ready, stopping, shutdown}
use llemon_swap.Process.Types.{
  ProcessError, aborted, shutting_down, exited_unexpectedly, was_stopped, not_startable, StartReq,
  StopReq, StartResult, ProcessEffect, reply, state_change, cancel_context, cancel_start, watch_ttl,
  kill_process,
}
use llemon_swap.Process.Start.{StartEnv, do_start}

pub record ProcessLoop : Type 0 where
  pub state : ProcessState
  pub cmd : Option ℕ
  pub cmd_done : Option ℕ
  pub cmd_cancel : Option ℕ
  pub handler : Option ℕ
  pub ready_waiters : List ℕ
  pub run_resp : Option ℕ
  pub trace : List ProcessEffect
  pub ended : Bool

abbrev pub new_process : ProcessLoop
new_process = record {
  state = stopped;
  cmd = none;
  cmd_done = none;
  cmd_cancel = none;
  handler = none;
  ready_waiters = [];
  run_resp = none;
  trace = [];
  ended = false;
}

abbrev pub emit : List ProcessEffect → ProcessLoop → ProcessLoop
emit effects l = record l { trace = effects ++ l.trace }

abbrev pub same_state : ProcessState → ProcessState → Bool
same_state stopped stopped = true
same_state starting starting = true
same_state ready ready = true
same_state stopping stopping = true
same_state shutdown shutdown = true
same_state _ _ = false

unfoldable pub set_state : ProcessState → ProcessLoop → ProcessLoop
set_state new l = record l {
  state = new;
  trace = if same_state l.state new then l.trace else state_change l.state new ∷ l.trace;
}

unfoldable pub send_all : Option ProcessError → List ℕ → List ProcessEffect → List ProcessEffect
send_all err [] trace = trace
send_all err (w ∷ waiters) trace = send_all err waiters (reply w err ∷ trace)

unfoldable pub notify_waiters : Option ProcessError → ProcessLoop → ProcessLoop
notify_waiters err l = record l { ready_waiters = []; trace = send_all err l.ready_waiters l.trace }

unfoldable pub respond_run : Option ProcessError → ProcessLoop → ProcessLoop
respond_run err l = record l {
  run_resp = none;
  trace = elim l.run_resp [ none ↦ l.trace | some ch ↦ reply ch err ∷ l.trace ];
}

-- Both notifyWaiters and respondRun, each with its error.
abbrev pub release_callers : Option ProcessError → Option ProcessError → ProcessLoop → ProcessLoop
release_callers to_waiters to_run l = respond_run to_run (notify_waiters to_waiters l)

-- `p.handler.Store(nil)`, killProcess and the three resets, where a command runs.
abbrev pub tear_down : Bool → ProcessLoop → ProcessLoop
tear_down in_time l = record l {
  handler = none;
  cmd = none;
  cmd_done = none;
  cmd_cancel = none;
  trace = kill_process l.cmd l.cmd_cancel in_time ++ l.trace;
}

abbrev pub is_some {ℓ} : {A : Type ℓ} → Option A → Bool
is_some none = false
is_some (some a) = true

-- The parent context is done. `in_time` says that the command exits within the grace time.
unfoldable pub on_parent_done : Bool → ProcessLoop → ProcessLoop
unfolding notify_waiters respond_run
on_parent_done in_time l =
    let marked = set_state shutdown l in
    let down = if is_some l.cmd then tear_down in_time marked else marked in
    let released = release_callers (some shutting_down) (some shutting_down) down in
    record released { ended = true }

abbrev pub cancelled : Option ℕ → List ProcessEffect
cancelled none = []
cancelled (some cancel) = cancel_context cancel ∷ []

unfoldable pub clear_exited : ProcessLoop → ProcessLoop
clear_exited l = record l {
  cmd = none;
  cmd_done = none;
  cmd_cancel = none;
  handler = none;
  trace = cancelled l.cmd_cancel ++ l.trace;
}

-- The command exits on its own.
unfoldable pub on_cmd_exited : ProcessLoop → ProcessLoop
unfolding clear_exited notify_waiters respond_run
on_cmd_exited l =
    release_callers (some exited_unexpectedly) (some exited_unexpectedly)
      (set_state stopped (clear_exited l))

unfoldable pub on_wait_ready : ℕ → ProcessLoop → ProcessLoop
on_wait_ready ch l = elim l.state [
  | ready ↦ emit (reply ch none ∷ []) l
  | shutdown ↦ emit (reply ch (some shutting_down) ∷ []) l
  | _ ↦ record l { ready_waiters = l.ready_waiters ++ ch ∷ [] }
]

-- The answer to a start that the state settles: `none` where a start is due.
unfoldable pub early_answer : Bool → ProcessState → Option (Option ProcessError)
early_answer false ready = some none
early_answer false shutdown = some (some shutting_down)
early_answer block stopped = none
early_answer block state = some (some (not_startable state))

-- What the inner select sees: the result, a stop, or the end of the parent context. `in_time` is
-- of the kill of a command that had already come up.
pub data Meanwhile : Type 0 where
  finished : Meanwhile
  stop_arrived : StopReq → Bool → Meanwhile
  parent_ended : Bool → Meanwhile

-- killProcess where the start that was to be aborted has a command.
abbrev pub kill_late : StartResult → Bool → List ProcessEffect
kill_late res in_time = elim res.cmd [
  | none ↦ []
  | some c ↦ kill_process res.cmd res.cancel in_time
]

abbrev pub latch : StartResult → ProcessLoop → ProcessLoop
latch res l = record l {
  cmd = res.cmd;
  cmd_done = res.cmd_done;
  cmd_cancel = res.cancel;
  handler = res.handler;
}

-- Who is answered after a start that came up: Run is parked, EnsureReady is told.
abbrev pub park_or_answer : StartReq → ProcessLoop → ProcessLoop
park_or_answer req l =
    if req.block
    then record l { run_resp = some req.respond }
    else emit (reply req.respond none ∷ []) l

module _ (unload_after : ℕ) where
  -- doStart finished on its own.
  unfoldable pub finish_start : StartReq → StartResult → ProcessLoop → ProcessLoop
  unfolding notify_waiters
  finish_start req res l = elim res.err [
    | none ↦
        let up = park_or_answer req (notify_waiters none (set_state ready (latch res l))) in
        emit (if ltb 0 unload_after then watch_ttl ∷ [] else []) up
    | some e ↦
        emit (reply req.respond (some e) ∷ []) (notify_waiters (some e) (set_state stopped l))
  ]

  -- A start from StateStopped. `res` is what doStart returned, `effects` what it did.
  unfoldable pub start_command :
      StartReq → StartResult → List ProcessEffect → Meanwhile → ProcessLoop → ProcessLoop
  unfolding finish_start notify_waiters respond_run
  start_command req res effects finished l =
      emit (cancel_start ∷ []) (finish_start req res (emit effects (set_state starting l)))
  start_command req res effects (stop_arrived stop in_time) l =
      let begun = emit (effects ++ cancel_start ∷ []) (set_state starting l) in
      let down = set_state stopped (emit (kill_late res in_time) begun) in
      let told = notify_waiters (some aborted) down in
      emit (reply stop.respond none ∷ cancel_start ∷ reply req.respond (some aborted) ∷ []) told
  start_command req res effects (parent_ended in_time) l =
      let begun = set_state shutdown (emit (cancel_start ∷ []) (set_state starting l)) in
      let down = emit (kill_late res in_time ++ effects) begun in
      let released = release_callers (some shutting_down) (some shutting_down) down in
      record released { ended = true }

  unfoldable pub on_start :
      StartReq → StartResult → List ProcessEffect → Meanwhile → ProcessLoop → ProcessLoop
  unfolding start_command
  on_start req res effects meanwhile l = elim (early_answer req.block l.state) [
    | some err ↦ emit (reply req.respond err ∷ []) l
    | none ↦ start_command req res effects meanwhile l
  ]

unfoldable pub on_stop : StopReq → Bool → ProcessLoop → ProcessLoop
unfolding notify_waiters respond_run
on_stop stop in_time l =
    let settled =
      if is_some l.cmd
      then notify_waiters (some was_stopped)
          (set_state stopped (tear_down in_time (set_state stopping l)))
      else set_state stopped l in
    emit (reply stop.respond none ∷ []) (respond_run none settled)

-- The channels of the requests that a start takes, and those of them that it leaves to their
-- callers, who see the end of the parent context themselves.
abbrev pub asks : StartReq → Meanwhile → List ℕ
asks req finished = req.respond ∷ []
asks req (stop_arrived stop in_time) = stop.respond ∷ req.respond ∷ []
asks req (parent_ended in_time) = req.respond ∷ []

abbrev pub leaves : StartReq → Meanwhile → List ℕ
leaves req (parent_ended in_time) = req.respond ∷ []
leaves req _ = []

unfoldable pub start_asks : StartReq → Meanwhile → ProcessLoop → List ℕ
start_asks req meanwhile l = elim (early_answer req.block l.state) [
  | some err ↦ req.respond ∷ []
  | none ↦ asks req meanwhile
]

unfoldable pub start_leaves : StartReq → Meanwhile → ProcessLoop → List ℕ
start_leaves req meanwhile l = elim (early_answer req.block l.state) [
  | some err ↦ []
  | none ↦ leaves req meanwhile
]

-- A turn of the loop: `asked` are the channels of the requests that it takes.
pub data ProcessStep (unload_after : ℕ) (asked left : List ℕ) (l m : ProcessLoop) : Type 0 where
  parent_done :
      (in_time : Bool)
      → asked ≡ []
      → left ≡ []
      → m ≡ on_parent_done in_time l
      → ProcessStep unload_after asked left l m
  cmd_exited :
      (c : ℕ)
      → l.cmd_done ≡ some c
      → asked ≡ []
      → left ≡ []
      → m ≡ on_cmd_exited l
      → ProcessStep unload_after asked left l m
  wait_ready :
      (ch : ℕ)
      → asked ≡ ch ∷ []
      → left ≡ []
      → m ≡ on_wait_ready ch l
      → ProcessStep unload_after asked left l m
  start_request :
      (req : StartReq) (env : StartEnv) (fuel : ℕ) (res : StartResult)
      (effects : List ProcessEffect) (meanwhile : Meanwhile)
      → do_start env fuel ≡ some (res, effects)
      → asked ≡ start_asks req meanwhile l
      → left ≡ start_leaves req meanwhile l
      → m ≡ on_start unload_after req res effects meanwhile l
      → ProcessStep unload_after asked left l m
  stop_request :
      (req : StopReq) (in_time : Bool)
      → asked ≡ req.respond ∷ []
      → left ≡ []
      → m ≡ on_stop req in_time l
      → ProcessStep unload_after asked left l m

-- The turns from the start on: the loop goes on until it has returned.
pub data ProcessRuns (unload_after : ℕ) : List ℕ → List ℕ → ProcessLoop → Type 0 where
  begin : ProcessRuns unload_after [] [] new_process
  turn :
      {asked left new kept : List ℕ} {l m : ProcessLoop}
      → ProcessRuns unload_after asked left l
      → l.ended ≡ false
      → ProcessStep unload_after new kept l m
      → ProcessRuns unload_after (new ++ asked) (kept ++ left) m
