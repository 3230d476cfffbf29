-- ===== src/Process/Answers/Starts.antt =====
-- process_command.go: what a start owes to a channel.
use llemon_swap.Base.{
  ℕ, ◌+◌, ◌≡◌, refl, inl, inr, Bool, none, some, List, [], ◌∷◌, ◌++◌, arith, Option-cases, ltb, ◌∙◌,
  if◌then◌else◌,
}
use llemon_swap.Scheduler.State.{stopped, starting, ready, shutdown}
use llemon_swap.Process.Types.{
  aborted, ProcessEffect, cancel_start, watch_ttl, StartReq, StopReq, StartResult,
}
use llemon_swap.Process.Start.{
  StartEnv, do_start, do_start-IsClean, is_started, is_refused, is_killed, is_cancelled,
}
use llemon_swap.Process.Start
use llemon_swap.Process.Loop.{
  ProcessLoop, set_state, notify_waiters, kill_late, early_answer, Meanwhile, finished,
  stop_arrived, parent_ended, finish_start, start_command, on_start, asks, leaves, start_asks,
  start_leaves,
}
use llemon_swap.Process.Settled.{IsSettled, IsIdle, early_answer-none, stopped-IsIdle}
use llemon_swap.Process.Answers.Owed.{
  count, replies, replies-append, Owes, kill_process-replies, as_much, quiet-Owes,
  notify_waiters-Owes, set_state-Owes, return-Owes, latch-Owes, park_or_answer-Owes, answer-Owes,
  release-Owes,
}

clean-replies :
    (ch : ℕ) (env : StartEnv) (p : StartResult × List ProcessEffect)
    → Start.IsClean env p
    → replies ch p.1 ≡ 0
unfolding replies
clean-replies ch env p (is_started e) = rw e refl
clean-replies ch env p (is_refused e _ h) = rw h refl
clean-replies ch env p (is_killed e h) =
    rw h (kill_process-replies ch (some env.cmd) (some env.cancel) env.dies_in_time)
clean-replies ch env p (is_cancelled e h) = rw h refl

kill_late-replies : (ch : ℕ) (res : StartResult) (b : Bool) → replies ch (kill_late res b) ≡ 0
unfolding replies
kill_late-replies ch res b = elim (Option-cases res.cmd) [
  | inl e ↦ rw e refl
  | inr (c, e) ↦ rw e (kill_process-replies ch (some c) res.cancel b)
]

watch-replies : (ch n : ℕ) → replies ch (if ltb 0 n then watch_ttl ∷ [] else []) ≡ 0
unfolding replies
watch-replies ch n = ground arith

module _ (ch n unload_after : ℕ) (req : StartReq) (l : ProcessLoop) (owes : Owes ch n l) where
  finish_start-Owes :
      (res : StartResult)
      → l.run_resp ≡ none
      → Owes ch (count ch (req.respond ∷ []) + n) (finish_start unload_after req res l)
  unfolding finish_start set_state notify_waiters
  finish_start-Owes res h = elim (Option-cases res.err) [
    | inl none_err ↦
        rw (none_err, finish_start)
          (quiet-Owes ch _
            (park_or_answer-Owes ch _
              (notify_waiters-Owes ch _ (set_state-Owes ch _ (latch-Owes ch l owes res) ready) none)
              req h)
            _ (watch-replies ch unload_after))
    | inr (err, some_err) ↦
        rw (some_err, finish_start)
          (answer-Owes ch _ (notify_waiters-Owes ch _ (set_state-Owes ch l owes stopped) (some err))
            req.respond (some err))
  ]

-- What is owed when `asked` came in and `left` is left to its callers.
abbrev pub Settles : ℕ → ℕ → List ℕ → List ℕ → ProcessLoop → Type 0
Settles ch n asked left l = (k : ℕ) × Owes ch k l × (k + count ch left ≡ count ch asked + n)

pub on_time :
    (ch n : ℕ) (asked : List ℕ) {l : ProcessLoop}
    → Owes ch (count ch asked + n) l
    → Settles ch n asked [] l
unfolding count
on_time ch n asked h = (count ch asked + n, h, omega arith)

module _ (ch n unload_after : ℕ) (req : StartReq) (l : ProcessLoop) (owes : Owes ch n l) where
  finished-Settles :
      (res : StartResult) (effects : List ProcessEffect)
      → replies ch effects ≡ 0
      → l.run_resp ≡ none
      → Owes ch
          (count ch (req.respond ∷ []) + n)
          (start_command unload_after req res effects finished l)
  unfolding start_command set_state replies
  finished-Settles res effects q h =
      quiet-Owes ch _
        (finish_start-Owes ch n unload_after req _
          (quiet-Owes ch _ (set_state-Owes ch l owes starting) effects q) res h)
        (cancel_start ∷ []) refl

  stop_arrived-Owes :
      (res : StartResult) (effects : List ProcessEffect) (stop : StopReq) (b : Bool)
      → replies ch effects ≡ 0
      → Owes ch
          (count ch (stop.respond ∷ req.respond ∷ []) + n)
          (start_command unload_after req res effects (stop_arrived stop b) l)
  unfolding start_command replies count
  stop_arrived-Owes res effects stop b q =
      let begun =
        quiet-Owes ch _ (set_state-Owes ch l owes starting) (effects ++ cancel_start ∷ [])
          (replies-append ch effects (cancel_start ∷ []) ∙ omega arith) in
      let killed = quiet-Owes ch _ begun (kill_late res b) (kill_late-replies ch res b) in
      let told = notify_waiters-Owes ch _ (set_state-Owes ch _ killed stopped) (some aborted) in
      let answered = answer-Owes ch _ told req.respond (some aborted) in
      let released = quiet-Owes ch _ answered (cancel_start ∷ []) refl in
      as_much ch _ (answer-Owes ch _ released stop.respond none) (omega arith)

  parent_ended-Owes :
      (res : StartResult) (effects : List ProcessEffect) (b : Bool)
      → replies ch effects ≡ 0
      → Owes ch n (start_command unload_after req res effects (parent_ended b) l)
  unfolding start_command replies
  parent_ended-Owes res effects b q =
      let begun = quiet-Owes ch _ (set_state-Owes ch l owes starting) (cancel_start ∷ []) refl in
      let down =
        quiet-Owes ch _ (set_state-Owes ch _ begun shutdown) (kill_late res b ++ effects) (
          replies-append ch (kill_late res b) effects
          ∙ omega (arith, kill_late-replies ch res b)) in
      return-Owes ch _ (release-Owes ch n _ _ _ down)

  start_command-Settles :
      (env : StartEnv) (p : StartResult × List ProcessEffect) (meanwhile : Meanwhile)
      → Start.IsClean env p
      → IsIdle l
      → Settles ch n
          (asks req meanwhile)
          (leaves req meanwhile)
          (start_command unload_after req p.0 p.1 meanwhile l)
  start_command-Settles env p finished c i =
      on_time ch n (req.respond ∷ [])
        (finished-Settles p.0 p.1 (clean-replies ch env p c) i.run_resp)
  start_command-Settles env p (stop_arrived stop b) c i =
      on_time ch n (stop.respond ∷ req.respond ∷ [])
        (stop_arrived-Owes p.0 p.1 stop b (clean-replies ch env p c))
  start_command-Settles env p (parent_ended b) c i =
      (n, parent_ended-Owes p.0 p.1 b (clean-replies ch env p c), omega arith)

  pub on_start-Settles :
      (env : StartEnv) (p : StartResult × List ProcessEffect) (meanwhile : Meanwhile)
      → Start.IsClean env p
      → IsSettled l
      → Settles ch n
          (start_asks req meanwhile l)
          (start_leaves req meanwhile l)
          (on_start unload_after req p.0 p.1 meanwhile l)
  unfolding on_start start_asks start_leaves
  on_start-Settles env p meanwhile c s = elim (Option-cases (early_answer req.block l.state)) [
    | inl e ↦
        rw (e, on_start, start_asks, start_leaves)
          (start_command-Settles env p meanwhile c
            (stopped-IsIdle l s (early_answer-none req.block l.state e)))
    | inr (err, e) ↦
        rw (e, on_start, start_asks, start_leaves)
          (on_time ch n (req.respond ∷ []) (answer-Owes ch l owes req.respond err))
  ]
