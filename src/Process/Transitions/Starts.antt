-- ===== src/Process/Transitions/Starts.antt =====
-- process_command.go: a start stays on a path of the state machine.
use llemon_swap.Base.{
  ℕ, ◌≡◌, refl, inl, inr, Bool, none, some, List, [], ◌∷◌, ◌++◌, All, All-append, Bool-cases,
  Option-cases, ltb, if◌then◌else◌,
}
use llemon_swap.Scheduler.State.{stopped, starting, ready, shutdown}
use llemon_swap.Process.Types.{
  aborted, ProcessEffect, reply, cancel_start, watch_ttl, StartReq, StartResult,
}
use llemon_swap.Process.Start.{
  StartEnv, do_start, do_start-IsClean, is_started, is_refused, is_killed, is_cancelled,
}
use llemon_swap.Process.Start
use llemon_swap.Process.Loop.{
  ProcessLoop, set_state, kill_late, latch, park_or_answer, early_answer, Meanwhile, finished,
  stop_arrived, parent_ended, finish_start, start_command, on_start,
}
use llemon_swap.Process.Settled.{early_answer-none}
use llemon_swap.Process.Transitions.Path.{
  begin_start, come_up, fail_start, shut_start, IsQuiet, kill_process-IsQuiet, IsOnPath,
  emit-IsOnPath, notify_waiters-IsOnPath, set_state-IsOnPath, return-IsOnPath, release-IsOnPath,
}

pub clean-IsQuiet :
    (env : StartEnv) (p : StartResult × List ProcessEffect) → Start.IsClean env p → All IsQuiet p.1
clean-IsQuiet env p (is_started e) = rw e tt
clean-IsQuiet env p (is_refused e _ h) = rw h tt
clean-IsQuiet env p (is_killed e h) =
    rw h (kill_process-IsQuiet (some env.cmd) (some env.cancel) env.dies_in_time)
clean-IsQuiet env p (is_cancelled e h) = rw h (tt, tt)

kill_late-IsQuiet : (res : StartResult) (b : Bool) → All IsQuiet (kill_late res b)
kill_late-IsQuiet res b = elim (Option-cases res.cmd) [
  | inl e ↦ rw e tt
  | inr (c, e) ↦ rw e (kill_process-IsQuiet (some c) res.cancel b)
]

latch-IsOnPath : (l : ProcessLoop) (res : StartResult) → IsOnPath l → IsOnPath (latch res l)
unfolding IsOnPath
latch-IsOnPath l res h = h

park_or_answer-IsOnPath :
    (l : ProcessLoop) (req : StartReq) → IsOnPath l → IsOnPath (park_or_answer req l)
unfolding IsOnPath
park_or_answer-IsOnPath l req h = elim (Bool-cases req.block) [ inl e ↦ rw e h | inr e ↦ rw e h ]

watch-IsQuiet : (n : ℕ) → All IsQuiet (if ltb 0 n then watch_ttl ∷ [] else [])
watch-IsQuiet n = elim (Bool-cases (ltb 0 n)) [ inl e ↦ rw e (tt, tt) | inr e ↦ rw e tt ]

module _ (unload_after : ℕ) (req : StartReq) (l : ProcessLoop) (path : IsOnPath l) where
  finish_start-IsOnPath :
      (res : StartResult) → l.state ≡ starting → IsOnPath (finish_start unload_after req res l)
  unfolding finish_start
  finish_start-IsOnPath res e = elim (Option-cases res.err) [
    | inl none_err ↦
        rw (none_err, finish_start)
          (emit-IsOnPath _
            (park_or_answer-IsOnPath _ req (
              notify_waiters-IsOnPath _
                (set_state-IsOnPath (latch res l) (latch-IsOnPath l res path) starting ready e
                  come_up)
                none))
            _ (watch-IsQuiet unload_after))
    | inr (err, some_err) ↦
        rw (some_err, finish_start)
          (emit-IsOnPath _
            (notify_waiters-IsOnPath _ (set_state-IsOnPath l path starting stopped e fail_start)
              (some err))
            (reply req.respond (some err) ∷ []) (tt, tt))
  ]

module _ (unload_after : ℕ) (req : StartReq) (l : ProcessLoop) (path : IsOnPath l) where
  start_command-IsOnPath :
      (res : StartResult) (effects : List ProcessEffect) (meanwhile : Meanwhile)
      → All IsQuiet effects
      → l.state ≡ stopped
      → IsOnPath (start_command unload_after req res effects meanwhile l)
  unfolding start_command set_state
  start_command-IsOnPath res effects finished q e =
      let begun = set_state-IsOnPath l path stopped starting e begin_start in
      emit-IsOnPath _
        (finish_start-IsOnPath unload_after req _ (emit-IsOnPath _ begun effects q) res refl)
        (cancel_start ∷ []) (tt, tt)
  start_command-IsOnPath res effects (stop_arrived stop b) q e =
      let begun = set_state-IsOnPath l path stopped starting e begin_start in
      let aborting =
        emit-IsOnPath _ begun (effects ++ cancel_start ∷ [])
          (All-append IsQuiet effects (cancel_start ∷ []) q (tt, tt)) in
      let killed = emit-IsOnPath _ aborting (kill_late res b) (kill_late-IsQuiet res b) in
      let down = set_state-IsOnPath _ killed starting stopped refl fail_start in
      emit-IsOnPath _ (notify_waiters-IsOnPath _ down (some aborted))
        (reply stop.respond none ∷ cancel_start ∷ reply req.respond (some aborted) ∷ [])
        (tt, (tt, (tt, tt)))
  start_command-IsOnPath res effects (parent_ended b) q e =
      let begun = set_state-IsOnPath l path stopped starting e begin_start in
      let aborting = emit-IsOnPath _ begun (cancel_start ∷ []) (tt, tt) in
      let marked = set_state-IsOnPath _ aborting starting shutdown refl shut_start in
      let down =
        emit-IsOnPath _ marked (kill_late res b ++ effects)
          (All-append IsQuiet (kill_late res b) effects (kill_late-IsQuiet res b) q) in
      return-IsOnPath _ (release-IsOnPath _ _ _ down)

  pub on_start-IsOnPath :
      (p : StartResult × List ProcessEffect) (meanwhile : Meanwhile)
      → All IsQuiet p.1
      → IsOnPath (on_start unload_after req p.0 p.1 meanwhile l)
  unfolding on_start
  on_start-IsOnPath p meanwhile q = elim (Option-cases (early_answer req.block l.state)) [
    | inl e ↦
        rw (e, on_start)
          (start_command-IsOnPath p.0 p.1 meanwhile q (early_answer-none req.block l.state e))
    | inr (err, e) ↦ rw (e, on_start) (emit-IsOnPath l path (reply req.respond err ∷ []) (tt, tt))
  ]
