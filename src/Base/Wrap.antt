-- ===== src/Base/Wrap.antt =====
-- A position in a ring, after a step of at most its length.
use Prim.Native.Nat.{ℕ, ◌+◌, ◌-◌, ◌%◌, ◌≤◌, ◌<◌}
use mathlib.Core.Path.{◌≡◌, ◌∙◌}
use mathlib.Core.Logic.{inl, inr}
use native.Mathlib.Nat.{mod-eq_of_lt, mod-eq-sub-mod}
use native.Mathlib.Omega.{arith}
use llemon_swap.Base.Tests.{ltb, Bool-cases, if◌then◌else◌}

-- A ring index is reduced once.
pub mod_wrap :
    (a b cap : ℕ)
    → a < cap
    → b ≤ cap
    → (a + b) % cap ≡ (if ltb (a + b) cap then a + b else a + b - cap)
mod_wrap a b cap h k = elim (Bool-cases (ltb (a + b) cap)) [
  | inl e ↦ rw e (mod-eq_of_lt (ground arith))
  | inr e ↦ rw e (mod-eq-sub-mod {n = a + b} {m = cap} (ground arith) ∙ mod-eq_of_lt (ground arith))
]
