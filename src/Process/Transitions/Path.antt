-- ===== src/Process/Transitions/Path.antt =====
-- process_command.go: the state machine, and the parts of the loop that stay on its paths.
use llemon_swap.Base.{
  ℕ, ◌≡◌, refl, inl, inr, Bool, true, false, Option, none, some, List, [], ◌∷◌, ◌++◌, All,
  Option-cases, subst, sym, if◌then◌else◌,
}
use llemon_swap.Scheduler.State.{ProcessState, stopped, starting, ready, stopping, shutdown}
use llemon_swap.Process.Types.{
  ProcessError, ProcessEffect, reply, state_change, stop_signal, kill_tree, cancel_context,
  cancel_start, watch_ttl, kill_process,
}
use llemon_swap.Process.Loop.{
  ProcessLoop, emit, set_state, send_all, notify_waiters, respond_run, tear_down, cancelled,
}

-- The transitions of the state machine.
pub data Edge : ProcessState → ProcessState → Type 0 where
  begin_start : Edge stopped starting
  come_up : Edge starting ready
  fail_start : Edge starting stopped
  exit_alone : Edge ready stopped
  begin_stop : Edge ready stopping
  end_stop : Edge stopping stopped
  shut_idle : Edge stopped shutdown
  shut_start : Edge starting shutdown
  shut_up : Edge ready shutdown

-- The announced changes, newest first, are a path from StateStopped to the state.
abbrev pub Follows : List ProcessEffect → ProcessState → Type 0
Follows [] s = s ≡ stopped
Follows (state_change a b ∷ older) s = (b ≡ s) × Edge a b × Follows older a
Follows (_ ∷ older) s = Follows older s

abbrev pub IsQuiet : ProcessEffect → Type 0
IsQuiet (state_change a b) = ⊥
IsQuiet _ = Unit

append-Follows :
    (effects older : List ProcessEffect) (s : ProcessState)
    → All IsQuiet effects
    → Follows older s
    → Follows (effects ++ older) s
append-Follows [] older s q f = f
append-Follows (state_change a b ∷ es) older s q f = absurd q.0
append-Follows (reply _ _ ∷ es) older s q f = append-Follows es older s q.1 f
append-Follows (stop_signal _ ∷ es) older s q f = append-Follows es older s q.1 f
append-Follows (kill_tree _ ∷ es) older s q f = append-Follows es older s q.1 f
append-Follows (cancel_context _ ∷ es) older s q f = append-Follows es older s q.1 f
append-Follows (cancel_start ∷ es) older s q f = append-Follows es older s q.1 f
append-Follows (watch_ttl ∷ es) older s q f = append-Follows es older s q.1 f

pub kill_process-IsQuiet : (c d : Option ℕ) (b : Bool) → All IsQuiet (kill_process c d b)
unfolding kill_process
kill_process-IsQuiet c none b = tt
kill_process-IsQuiet none (some d) b = (tt, tt)
kill_process-IsQuiet (some c) (some d) true = (tt, (tt, tt))
kill_process-IsQuiet (some c) (some d) false = (tt, (tt, (tt, tt)))

send_all-Follows :
    (err : Option ProcessError) (ws : List ℕ) (trace : List ProcessEffect) (s : ProcessState)
    → Follows trace s
    → Follows (send_all err ws trace) s
unfolding send_all
send_all-Follows err [] trace s f = f
send_all-Follows err (w ∷ ws) trace s f = send_all-Follows err ws (reply w err ∷ trace) s f

unfoldable pub IsOnPath : ProcessLoop → Type 0
IsOnPath l = Follows l.trace l.state

module _ (l : ProcessLoop) (path : IsOnPath l) where
  pub emit-IsOnPath : (es : List ProcessEffect) → All IsQuiet es → IsOnPath (emit es l)
  unfolding IsOnPath
  emit-IsOnPath es q = append-Follows es l.trace l.state q path

  pub notify_waiters-IsOnPath : (err : Option ProcessError) → IsOnPath (notify_waiters err l)
  unfolding IsOnPath notify_waiters
  notify_waiters-IsOnPath err = send_all-Follows err l.ready_waiters l.trace l.state path

  pub cancelled-Follows : (cancel : Option ℕ) → Follows (cancelled cancel ++ l.trace) l.state
  unfolding IsOnPath
  cancelled-Follows none = path
  cancelled-Follows (some c) = path

  pub respond_run-IsOnPath : (err : Option ProcessError) → IsOnPath (respond_run err l)
  unfolding IsOnPath respond_run
  respond_run-IsOnPath err = elim (Option-cases l.run_resp) [
    | inl e ↦ rw e path
    | inr (ch, e) ↦ rw e path
  ]

  pub tear_down-IsOnPath : (b : Bool) → IsOnPath (tear_down b l)
  unfolding IsOnPath
  tear_down-IsOnPath b =
      append-Follows (kill_process l.cmd l.cmd_cancel b) l.trace l.state
        (kill_process-IsQuiet l.cmd l.cmd_cancel b) path

  new_trace :
      (old new : ProcessState)
      → l.state ≡ old
      → Edge old new
      → (set_state new l).trace ≡ state_change old new ∷ l.trace
  unfolding set_state
  new_trace _ _ e begin_start = rw e refl
  new_trace _ _ e come_up = rw e refl
  new_trace _ _ e fail_start = rw e refl
  new_trace _ _ e exit_alone = rw e refl
  new_trace _ _ e begin_stop = rw e refl
  new_trace _ _ e end_stop = rw e refl
  new_trace _ _ e shut_idle = rw e refl
  new_trace _ _ e shut_start = rw e refl
  new_trace _ _ e shut_up = rw e refl

  pub set_state-IsOnPath :
      (old new : ProcessState) → l.state ≡ old → Edge old new → IsOnPath (set_state new l)
  unfolding IsOnPath set_state
  set_state-IsOnPath old new e edge =
      subst (λ t. Follows t new) (sym (new_trace old new e edge))
        (refl, edge, subst (Follows l.trace) e path)

  -- A state is the same as itself.
  keep_trace : (s : ProcessState) → l.state ≡ s → (set_state s l).trace ≡ l.trace
  unfolding set_state
  keep_trace stopped e = rw e refl
  keep_trace starting e = rw e refl
  keep_trace ready e = rw e refl
  keep_trace stopping e = rw e refl
  keep_trace shutdown e = rw e refl

  pub keep_state-IsOnPath : (s : ProcessState) → l.state ≡ s → IsOnPath (set_state s l)
  unfolding IsOnPath set_state
  keep_state-IsOnPath s e =
      subst (λ t. Follows t s) (sym (keep_trace s e)) (subst (Follows l.trace) e path)

pub if-IsOnPath :
    (b : Bool) (l m : ProcessLoop)
    → (b ≡ true → IsOnPath l)
    → (b ≡ false → IsOnPath m)
    → IsOnPath (if b then l else m)
if-IsOnPath true l m h k = h refl
if-IsOnPath false l m h k = k refl

pub return-IsOnPath : (l : ProcessLoop) → IsOnPath l → IsOnPath (record l { ended = true })
unfolding IsOnPath
return-IsOnPath l h = h

pub release-IsOnPath :
    (l : ProcessLoop) (a b : Option ProcessError)
    → IsOnPath l
    → IsOnPath (respond_run b (notify_waiters a l))
release-IsOnPath l a b h = respond_run-IsOnPath _ (notify_waiters-IsOnPath l h a) b
