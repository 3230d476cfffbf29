-- ===== src/Config/Selectors/Coexist.antt =====
-- internal/config/selectors.go: the local targets of an accepted spillover selector run together.
use llemon_swap.Base.{
  String, ◌≡◌, ◌≢◌, refl, Bool, true, false, List, [], ◌∷◌, ◌⊎◌, inl, inr, contains, if◌then◌else◌,
}
use llemon_swap.Planner.Group.{GroupConfig}
use llemon_swap.Planner.Lifecycle.{Lifecycle}
use llemon_swap.Config.Selectors.{SelectorError, set_groups, group_name, swap_of}

-- A group that the configuration has, with the member.
abbrev Lists : List (String × GroupConfig) → String → String → Type 0
Lists [] x h = ⊥
Lists ((g, cfg) ∷ rest) x h = ((h ≡ g) × (contains cfg.members x ≡ true)) ⊎ Lists rest x h

-- The test of a check that passed.
pub passed_else :
    {A : Type 0} (b : Bool) (x : SelectorError) (y : SelectorError ⊎ A) {v : A}
    → (if b then inl x else y) ≡ inr v
    → (b ≡ false) × (y ≡ inr v)
passed_else true x y e = cc
passed_else false x y e = (refl, e)

pub passed_then :
    {A : Type 0} (b : Bool) (x : SelectorError) (y : SelectorError ⊎ A) {v : A}
    → (if b then y else inl x) ≡ inr v
    → (b ≡ true) × (y ≡ inr v)
passed_then true x y e = (refl, e)
passed_then false x y e = cc

-- All the targets have one group, which does not swap.
record OneGroup (cfgs : List (String × GroupConfig)) (ts : List String) (g : String) : Type 0 where
  named : g ≢ ""
  stays : swap_of cfgs g ≡ false
  each : (u : String) → contains ts u ≡ true → group_name (set_groups cfgs []) u ≡ g
