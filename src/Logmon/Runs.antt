-- ===== src/Logmon/Runs.antt =====
-- internal/logmon/logging.go: the history of a monitor after any calls.
use mathlib.Core.List.{append-nil}
use llemon_swap.Base.{
  ℕ, ◌-◌, ◌<◌, ◌≡◌, refl, sym, ap, ◌∙◌, subst, Option, none, some, List, [], ◌∷◌, ◌++◌, drop, last,
  arith,
}
use llemon_swap.Logmon.{
  CircularBuffer, new_circular_buffer, write, LogCall, put, clear_log, log_step, log_history,
  log_run,
}
use llemon_swap.Logmon.History.{same_count}
use llemon_swap.Logmon.Kept.{Kept, Kept-history, write-Kept, new-Kept}

-- The bytes written since the last Clear.
unfoldable pub written : List LogCall → List ℕ → List ℕ
written [] w = w
written (clear_log ∷ calls) w = written calls []
written (put p ∷ calls) w = written calls (w ++ p)

Holds : ℕ → List ℕ → Option CircularBuffer → Type 0
Holds cap w none = w ≡ []
Holds cap w (some cb) = Kept cap w cb

log_step-Holds :
    (cap : ℕ)
    → 0 < cap
    → (call : LogCall) (w : List ℕ) (b : Option CircularBuffer) → Holds cap w b
    → Holds cap (written (call ∷ []) w) (log_step cap call b)
unfolding log_step written Holds
log_step-Holds cap c clear_log w b h = refl
log_step-Holds cap c (put []) w b h = subst (λ v. Holds cap v b) (sym (append-nil w)) h
log_step-Holds cap c (put (x ∷ p)) w none h =
    subst (λ v. Kept cap (v ++ x ∷ p) (write (x ∷ p) (new_circular_buffer cap))) (sym h)
      (write-Kept cap [] (x ∷ p) (new_circular_buffer cap) c (new-Kept cap c) refl)
log_step-Holds cap c (put (x ∷ p)) w (some cb) h = write-Kept cap w (x ∷ p) cb c h refl

written-step :
    (call : LogCall) (calls : List LogCall) (w : List ℕ)
    → written (call ∷ calls) w ≡ written calls (written (call ∷ []) w)
unfolding written
written-step clear_log calls w = refl
written-step (put p) calls w = refl

log_run-Holds :
    (cap : ℕ)
    → 0 < cap
    → (calls : List LogCall) (w : List ℕ) (b : Option CircularBuffer) → Holds cap w b
    → Holds cap (written calls w) (log_run cap calls b)
unfolding log_run written
log_run-Holds cap c [] w b h = h
log_run-Holds cap c (call ∷ calls) w b h =
    subst (λ v. Holds cap v (log_run cap calls (log_step cap call b)))
      (sym (written-step call calls w))
      (log_run-Holds cap c calls (written (call ∷ []) w) (log_step cap call b)
        (log_step-Holds cap c call w b h))

Holds-history :
    (cap : ℕ) (w : List ℕ) (b : Option CircularBuffer) → Holds cap w b → log_history b ≡ last cap w
unfolding Holds log_history
Holds-history cap w none h =
    same_count (λ k. drop k []) {m = 0} {n = 0 - cap} (omega arith) ∙ ap (last cap) (sym h)
Holds-history cap w (some cb) h = Kept-history cap w cb h

-- After any writes and clears of a monitor whose buffer has a capacity above zero, its history is
-- the last bytes written since the last clear, in order: all of them while they fit, and else as many
-- as the capacity.
pub log_history-log_run :
    (cap : ℕ)
    → 0 < cap
    → (calls : List LogCall) → log_history (log_run cap calls none) ≡ last cap (written calls [])
unfolding Holds
log_history-log_run cap c calls =
    Holds-history cap (written calls []) (log_run cap calls none)
      (log_run-Holds cap c calls [] none refl)
