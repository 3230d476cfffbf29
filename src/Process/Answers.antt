-- ===== src/Process/Answers.antt =====
-- internal/process/process_command.go: who is answered by the run loop, and how often.
pub mod Owed
pub mod Starts
use llemon_swap.Base.{
  ℕ, ◌+◌, ◌≡◌, refl, ◌⊎◌, inl, inr, Bool, true, false, Option, none, some, List, [], ◌∷◌, ◌++◌,
  arith, Option-cases, eqb, ltb, ◌∙◌, if◌then◌else◌,
}
use llemon_swap.Scheduler.State.{ProcessState, stopped, starting, ready, stopping, shutdown}
use llemon_swap.Process.Types.{
  ProcessError, was_stopped, shutting_down, aborted, ProcessEffect, reply, cancel_start, watch_ttl,
  kill_process, StartReq, StopReq, StartResult,
}
use llemon_swap.Process.Start.{
  StartEnv, do_start, do_start-IsClean, is_started, is_refused, is_killed, is_cancelled,
}
use llemon_swap.Process.Loop.{
  ProcessLoop, emit, set_state, send_all, notify_waiters, respond_run, tear_down, is_some,
  clear_exited, kill_late, latch, park_or_answer, on_parent_done, on_cmd_exited, on_wait_ready,
  early_answer, Meanwhile, finished, stop_arrived, parent_ended, finish_start, start_command,
  on_start, on_stop, asks, leaves, start_asks, start_leaves, ProcessStep, parent_done, cmd_exited,
  wait_ready, start_request, stop_request, ProcessRuns, begin, turn,
}
use llemon_swap.Process.Settled.{
  IsSettled, IsIdle, IsOver, idle, up, over, early_answer-none, stopped-IsIdle, Runs-IsSettled,
}
use llemon_swap.Process.Answers.Owed.{
  count, count-append, replies, parked, Owes, notify_waiters-Owes, respond_run-Owes, tear_down-Owes,
  set_state-Owes, clear_exited-Owes, return-Owes, subscribe-Owes, answer-Owes, if-Owes,
  release-Owes,
}
use llemon_swap.Process.Answers.Starts.{Settles, on_time, on_start-Settles}

State-cases :
    (s : ProcessState)
    → (s ≡ ready) ⊎ (s ≡ shutdown) ⊎ (s ≡ stopped) ⊎ (s ≡ starting) ⊎ (s ≡ stopping)
State-cases ready = inl refl
State-cases shutdown = inr (inl refl)
State-cases stopped = inr (inr (inl refl))
State-cases starting = inr (inr (inr (inl refl)))
State-cases stopping = inr (inr (inr (inr refl)))

module _ (ch n : ℕ) (l : ProcessLoop) (owes : Owes ch n l) where
  on_parent_done-Owes : (b : Bool) → Owes ch n (on_parent_done b l)
  unfolding on_parent_done
  on_parent_done-Owes b =
      let marked = set_state-Owes ch l owes shutdown in
      return-Owes ch _ (
        release-Owes ch n _ _ _
          (if-Owes ch n (is_some l.cmd) _ _ (tear_down-Owes ch _ marked b) marked))

  on_cmd_exited-Owes : Owes ch n (on_cmd_exited l)
  unfolding on_cmd_exited
  on_cmd_exited-Owes =
      release-Owes ch n _ _ _ (set_state-Owes ch _ (clear_exited-Owes ch l owes) stopped)

  on_wait_ready-Owes : (c : ℕ) → Owes ch (count ch (c ∷ []) + n) (on_wait_ready c l)
  unfolding on_wait_ready
  on_wait_ready-Owes c =
      let put_off = subscribe-Owes ch l owes c in
      elim (State-cases l.state) [
        | inl e ↦ rw (e, on_wait_ready) (answer-Owes ch l owes c none)
        | inr (inl e) ↦ rw (e, on_wait_ready) (answer-Owes ch l owes c (some shutting_down))
        | inr (inr (inl e)) ↦ rw (e, on_wait_ready) put_off
        | inr (inr (inr (inl e))) ↦ rw (e, on_wait_ready) put_off
        | inr (inr (inr (inr e))) ↦ rw (e, on_wait_ready) put_off
      ]

  on_stop-Owes :
      (req : StopReq) (b : Bool) → Owes ch (count ch (req.respond ∷ []) + n) (on_stop req b l)
  unfolding on_stop
  on_stop-Owes req b =
      let down = tear_down-Owes ch _ (set_state-Owes ch l owes stopping) b in
      answer-Owes ch _
        (respond_run-Owes ch _
          (if-Owes ch n (is_some l.cmd) _ _
            (notify_waiters-Owes ch _ (set_state-Owes ch _ down stopped) (some was_stopped))
            (set_state-Owes ch l owes stopped))
          none)
        req.respond none

Step-Settles :
    (ch n unload_after : ℕ) {asked left : List ℕ} (l m : ProcessLoop)
    → Owes ch n l
    → IsSettled l
    → ProcessStep unload_after asked left l m
    → Settles ch n asked left m
unfolding count
Step-Settles ch n u l m o s (parent_done b a f e) =
    rw (a, f, e) (n, on_parent_done-Owes ch n l o b, omega arith)
Step-Settles ch n u l m o s (cmd_exited c _ a f e) =
    rw (a, f, e) (n, on_cmd_exited-Owes ch n l o, omega arith)
Step-Settles ch n u l m o s (wait_ready c a f e) =
    rw (a, f, e) (on_time ch n (c ∷ []) (on_wait_ready-Owes ch n l o c))
Step-Settles ch n u l m o s (start_request req env fuel res effects meanwhile returned a f e) =
    rw (a, f, e)
      (on_start-Settles ch n u req l o env (res, effects) meanwhile
        (do_start-IsClean env fuel (res, effects) returned) s)
Step-Settles ch n u l m o s (stop_request req b a f e) =
    rw (a, f, e) (on_time ch n (req.respond ∷ []) (on_stop-Owes ch n l o req b))

-- In every run of the loop, for every channel: the answers sent to it, the times that it is parked
-- as a subscriber or as the Run caller, and the times that it was left to its caller because the
-- parent context ended during a start, are together as many as the requests that came with it. So a
-- channel of one request never gets a second answer, and none is forgotten.
pub Runs-answers :
    (ch : ℕ) {unload_after : ℕ} {asked left : List ℕ} {l : ProcessLoop}
    → ProcessRuns unload_after asked left l
    → replies ch l.trace + parked ch l + count ch left ≡ count ch asked
unfolding count replies parked
Runs-answers ch begin = omega arith
Runs-answers ch {unload_after} (turn {asked} {left} {new} {kept} {l} {m} r h s) =
    let k = replies ch l.trace + parked ch l in
    let owed = Step-Settles ch k unload_after l m (record { total = refl }) (Runs-IsSettled r) s in
    omega (
      arith,
      owed.1.total,
      owed.2,
      Runs-answers ch r,
      count-append ch new asked,
      count-append ch kept left,
    )

nothing_parked : (ch : ℕ) (l : ProcessLoop) → IsOver l → parked ch l ≡ 0
unfolding parked count
nothing_parked ch l o = ground arith

-- Once the loop has returned, every request has had its answer, except the start that the end of
-- the parent context interrupted, which is left to its caller.
pub over-answers :
    (ch : ℕ) {unload_after : ℕ} {asked left : List ℕ} {l : ProcessLoop}
    → ProcessRuns unload_after asked left l
    → l.ended ≡ true
    → replies ch l.trace + count ch left ≡ count ch asked
unfolding parked count
over-answers ch {l} r h = elim (Runs-IsSettled r) [
  | idle i ↦ absurd (ground arith)
  | up u ↦ absurd (ground arith)
  | over o ↦ omega (arith, Runs-answers ch r, nothing_parked ch l o)
]
