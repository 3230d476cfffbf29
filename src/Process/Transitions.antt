-- ===== src/Process/Transitions.antt =====
-- internal/process/process_command.go: the state changes that the run loop announces.
pub mod Path
pub mod Starts
use llemon_swap.Base.{
  ℕ, ◌≡◌, refl, inl, inr, Bool, true, false, Option, none, some, List, [], ◌∷◌, ◌++◌, arith, All,
  All-append, Bool-cases, Option-cases, subst, sym, ltb, if◌then◌else◌,
}
use llemon_swap.Scheduler.State.{ProcessState, stopped, starting, ready, stopping, shutdown}
use llemon_swap.Process.Types.{
  ProcessError, was_stopped, aborted, ProcessEffect, reply, state_change, stop_signal, kill_tree,
  cancel_context, cancel_start, watch_ttl, kill_process, StartReq, StopReq, StartResult,
}
use llemon_swap.Process.Start.{
  StartEnv, do_start, do_start-IsClean, is_started, is_refused, is_killed, is_cancelled,
}
use llemon_swap.Process.Loop.{
  ProcessLoop, emit, set_state, send_all, notify_waiters, respond_run, tear_down, is_some,
  cancelled, clear_exited, kill_late, latch, park_or_answer, on_parent_done, on_cmd_exited,
  on_wait_ready, early_answer, Meanwhile, finished, stop_arrived, parent_ended, finish_start,
  start_command, on_start, on_stop, ProcessStep, parent_done, cmd_exited, wait_ready, start_request,
  stop_request, ProcessRuns, begin, turn,
}
use llemon_swap.Process.Settled.{IsSettled, idle, up, over, early_answer-none, Runs-IsSettled}
use llemon_swap.Process.Transitions.Path.{
  Edge, exit_alone, begin_stop, end_stop, shut_idle, shut_up, Follows, IsOnPath, emit-IsOnPath,
  notify_waiters-IsOnPath, cancelled-Follows, respond_run-IsOnPath, tear_down-IsOnPath,
  set_state-IsOnPath, keep_state-IsOnPath, if-IsOnPath, return-IsOnPath, release-IsOnPath,
}
use llemon_swap.Process.Transitions.Starts.{clean-IsQuiet, on_start-IsOnPath}

module _ (l : ProcessLoop) (path : IsOnPath l) where
  shut_down-IsOnPath :
      (b : Bool) (old : ProcessState)
      → l.state ≡ old
      → Edge old shutdown
      → IsOnPath (on_parent_done b l)
  unfolding on_parent_done
  shut_down-IsOnPath b old e edge =
      let marked = set_state-IsOnPath l path old shutdown e edge in
      return-IsOnPath _ (
        release-IsOnPath _ _ _
          (if-IsOnPath (is_some l.cmd) _ _ (λ _. tear_down-IsOnPath _ marked b) (λ _. marked)))

  on_parent_done-IsOnPath :
      (b : Bool) → IsSettled l → l.ended ≡ false → IsOnPath (on_parent_done b l)
  on_parent_done-IsOnPath b (idle i) h = shut_down-IsOnPath b stopped i.state shut_idle
  on_parent_done-IsOnPath b (up u) h = shut_down-IsOnPath b ready u.state shut_up
  on_parent_done-IsOnPath b (over o) h = absurd (ground arith)

  clear_exited-IsOnPath : IsOnPath (clear_exited l)
  unfolding IsOnPath clear_exited
  clear_exited-IsOnPath = cancelled-Follows l path l.cmd_cancel

  on_cmd_exited-IsOnPath : (c : ℕ) → IsSettled l → l.cmd_done ≡ some c → IsOnPath (on_cmd_exited l)
  unfolding on_cmd_exited
  on_cmd_exited-IsOnPath c (idle i) h = absurd (ground arith)
  on_cmd_exited-IsOnPath c (up u) h =
      release-IsOnPath _ _ _
        (set_state-IsOnPath (clear_exited l) clear_exited-IsOnPath ready stopped u.state exit_alone)
  on_cmd_exited-IsOnPath c (over o) h = absurd (ground arith)

  on_wait_ready-IsOnPath : (ch : ℕ) → IsSettled l → IsOnPath (on_wait_ready ch l)
  unfolding on_wait_ready IsOnPath
  on_wait_ready-IsOnPath ch (idle i) = rw (i.state, on_wait_ready) path
  on_wait_ready-IsOnPath ch (up u) = rw (u.state, on_wait_ready) path
  on_wait_ready-IsOnPath ch (over o) = rw (o.state, on_wait_ready) path

  on_stop-IsOnPath :
      (req : StopReq) (b : Bool) → IsSettled l → l.ended ≡ false → IsOnPath (on_stop req b l)
  unfolding on_stop set_state
  on_stop-IsOnPath req b (idle i) h =
      emit-IsOnPath _
        (respond_run-IsOnPath _
          (if-IsOnPath (is_some l.cmd) _ _ (λ e. absurd (ground arith))
            (λ _. keep_state-IsOnPath l path stopped i.state))
          none)
        (reply req.respond none ∷ []) (tt, tt)
  on_stop-IsOnPath req b (up u) h =
      let stopping_now = set_state-IsOnPath l path ready stopping u.state begin_stop in
      let down = tear_down-IsOnPath (set_state stopping l) stopping_now b in
      let settled =
        set_state-IsOnPath (tear_down b (set_state stopping l)) down stopping stopped refl
          end_stop in
      emit-IsOnPath _
        (respond_run-IsOnPath _
          (if-IsOnPath (is_some l.cmd) _ _
            (λ _. notify_waiters-IsOnPath _ settled (some was_stopped))
            (λ e. absurd (ground arith)))
          none)
        (reply req.respond none ∷ []) (tt, tt)
  on_stop-IsOnPath req b (over o) h = absurd (ground arith)

Step-IsOnPath :
    (unload_after : ℕ) {asked left : List ℕ} {l m : ProcessLoop}
    → IsSettled l
    → IsOnPath l
    → l.ended ≡ false
    → ProcessStep unload_after asked left l m
    → IsOnPath m
Step-IsOnPath n s f h (parent_done b _ _ e) = rw e (on_parent_done-IsOnPath _ f b s h)
Step-IsOnPath n s f h (cmd_exited c g _ _ e) = rw e (on_cmd_exited-IsOnPath _ f c s g)
Step-IsOnPath n s f h (wait_ready ch _ _ e) = rw e (on_wait_ready-IsOnPath _ f ch s)
Step-IsOnPath n {l} s f h (start_request req env fuel res effects meanwhile returned _ _ e) = rw e (
    on_start-IsOnPath n req l f (res, effects) meanwhile
      (clean-IsQuiet env (res, effects) (do_start-IsClean env fuel (res, effects) returned)))
Step-IsOnPath n s f h (stop_request req b _ _ e) = rw e (on_stop-IsOnPath _ f req b s h)

runs-IsOnPath :
    {unload_after : ℕ} {asked left : List ℕ} {l : ProcessLoop}
    → ProcessRuns unload_after asked left l
    → IsOnPath l
unfolding IsOnPath
runs-IsOnPath begin = refl
runs-IsOnPath {unload_after} (turn r h s) =
    Step-IsOnPath unload_after (Runs-IsSettled r) (runs-IsOnPath r) h s

-- In every run of the loop, the state changes that it announced, in their order, are a path in the
-- state machine that starts at StateStopped and ends in the state: each change is along one of
-- the nine edges and names as the old state the new state of the change before it.
pub Runs-Follows :
    {unload_after : ℕ} {asked left : List ℕ} {l : ProcessLoop}
    → ProcessRuns unload_after asked left l
    → Follows l.trace l.state
unfolding IsOnPath
Runs-Follows r = runs-IsOnPath r
