-- ===== src/Config/Selectors/Accepted.antt =====
-- internal/config/selectors.go: which selectors the validation accepts.
pub mod Targets
use llemon_swap.Base.{
  String, ◌≡◌, ◌↔◌, refl, ap, ◌∙◌, subst, Bool, false, not, Option, none, some, List, [], ◌∷◌, ◌==◌,
  eq_iff, ◌⊎◌, inl, inr, contains, lookup, is_empty, if◌then◌else◌, arith, Bool-cases, All,
}
use llemon_swap.Scheduler.State.{pos, ltb_ℤ}
use llemon_swap.Config.Names.{ModelNames, real_model_name, resolve_base_model}
use llemon_swap.Config.Selectors.{
  SelectorConfig, SelectorError, and_then, RouterUse, validate_spillover_coexistence, check_known,
  check_local, check_target, check_targets, local_targets, resolved_targets, check_distinct,
  check_strategy, no_alias, check_spillover, validate_selector, chained, duplicate_target,
  empty_name, model_conflict, no_targets, bad_spillover,
}
use llemon_swap.Config.Selectors.Coexist.{passed_else}
use llemon_swap.Config.Selectors.Accepted.Targets.{
  and_then-inr, AreDistinct, Unseen, check_distinct-AreDistinct, AreDistinct-check_distinct,
  IsTarget, check_targets-IsTarget, IsTarget-check_targets,
}

abbrev pub IsStrategy : String → Type 0
IsStrategy s = (s ≡ "pin") ⊎ (s ≡ "warm") ⊎ (s ≡ "spillover")

check_strategy-IsStrategy : (s : String) → check_strategy s ≡ inr tt → IsStrategy s
check_strategy-IsStrategy s e = elim (Bool-cases (s == "pin")) [
  | inl f ↦ inl ((eq_iff s "pin").0 f)
  | inr f ↦ elim (Bool-cases (s == "warm")) [
    | inl g ↦ inr (inl ((eq_iff s "warm").0 g))
    | inr g ↦ elim (Bool-cases (s == "spillover")) [
      | inl h ↦ inr (inr ((eq_iff s "spillover").0 h))
      | inr h ↦ absurd (ground arith)
    ]
  ]
]

IsStrategy-check_strategy : (s : String) → IsStrategy s → check_strategy s ≡ inr tt
IsStrategy-check_strategy s (inl e) = rw e refl
IsStrategy-check_strategy s (inr (inl e)) = rw e refl
IsStrategy-check_strategy s (inr (inr e)) = rw e refl

-- What the spillover strategy asks for on top.
pub record IsSpillover (router : RouterUse) (s : SelectorConfig) (resolved local : List String)
    : Type 0 where
  pub limit : ltb_ℤ s.spillover (pos 1) ≡ false
  pub distinct : AreDistinct resolved
  pub coexist : validate_spillover_coexistence router local ≡ inr tt

check_spillover-IsSpillover :
    (router : RouterUse) (s : SelectorConfig) (resolved local : List String)
    → check_spillover router s resolved local ≡ inr tt
    → s.strategy ≡ "spillover"
    → IsSpillover router s resolved local
unfolding check_spillover
check_spillover-IsSpillover router s resolved local e spill =
    let p =
      subst
        (λ (b : Bool).
          (if not b
            then inr tt
            else if ltb_ℤ s.spillover (pos 1)
            then inl bad_spillover
            else and_then (check_distinct [] resolved)
                (λ _. validate_spillover_coexistence router local))
          ≡ inr tt)
        ((eq_iff s.strategy "spillover").1 spill) e in
    let q =
      passed_else (ltb_ℤ s.spillover (pos 1)) bad_spillover
        (and_then (check_distinct [] resolved) (λ _. validate_spillover_coexistence router local))
        p in
    let (_, distinct, coexist) = and_then-inr (check_distinct [] resolved) _ q.1 in
    record {
      limit = q.0;
      distinct = (check_distinct-AreDistinct [] resolved distinct).0;
      coexist = coexist;
    }

nothing_seen : (xs : List String) → Unseen [] xs
unfolding contains
nothing_seen [] = tt
nothing_seen (x ∷ xs) = (refl, nothing_seen xs)

IsSpillover-check_spillover :
    (router : RouterUse) (s : SelectorConfig) (resolved local : List String)
    → (s.strategy ≡ "spillover" → IsSpillover router s resolved local)
    → check_spillover router s resolved local ≡ inr tt
unfolding check_spillover
IsSpillover-check_spillover router s resolved local h =
    elim (Bool-cases (s.strategy == "spillover")) [
      | inl e ↦
          let k = h ((eq_iff s.strategy "spillover").0 e) in
          rw e (
            rw k.limit (
              ap (λ r. and_then r (λ _. validate_spillover_coexistence router local))
                (AreDistinct-check_distinct [] resolved k.distinct (nothing_seen resolved))
              ∙ k.coexist))
      | inr e ↦ rw e refl
    ]

no_alias-inr :
    (o : Option String) (more : SelectorError ⊎ Unit {0}) {v : Unit {0}}
    → no_alias o more ≡ inr v
    → (o ≡ none) × (more ≡ inr v)
no_alias-inr none more e = (refl, e)
no_alias-inr (some name) more e = cc

module _ (names : ModelNames) (selectors : List String) (router : RouterUse) (blank : Bool)
    (id : String) (s : SelectorConfig) where
  -- An accepted selector.
  pub record IsAccepted : Type 0 where
    pub named : blank ≡ false
    pub no_model : contains names.models id ≡ false
    pub no_alias : lookup id names.aliases ≡ none
    pub strategy : IsStrategy s.strategy
    pub has_targets : is_empty s.targets ≡ false
    pub targets : All (IsTarget names selectors s.strategy) s.targets
    pub spills :
        s.strategy ≡ "spillover"
        → IsSpillover router s (resolved_targets names s.targets) (local_targets names s.targets)

  abbrev last_check : SelectorError ⊎ Unit {0}
  last_check =
      check_spillover router s (resolved_targets names s.targets) (local_targets names s.targets)

  abbrev targets_and_more : SelectorError ⊎ Unit {0}
  targets_and_more = and_then (check_targets names selectors s.strategy s.targets) (λ _. last_check)

  abbrev rest : SelectorError ⊎ Unit {0}
  rest =
      and_then (check_strategy s.strategy)
        (λ _. if is_empty s.targets then inl no_targets else targets_and_more)

  accepted : validate_selector names selectors router blank id s ≡ inr tt → IsAccepted
  unfolding validate_selector
  accepted e =
      let p = passed_else blank empty_name _ e in
      let q =
        passed_else (contains names.models id) model_conflict
          (no_alias (lookup id names.aliases) rest) p.1 in
      let r = no_alias-inr (lookup id names.aliases) rest q.1 in
      let (_, known, more) = and_then-inr (check_strategy s.strategy) _ r.1 in
      let t = passed_else (is_empty s.targets) no_targets targets_and_more more in
      let (_, each, last) =
        and_then-inr (check_targets names selectors s.strategy s.targets) _ t.1 in
      record {
        named = p.0;
        no_model = q.0;
        no_alias = r.0;
        strategy = check_strategy-IsStrategy s.strategy known;
        has_targets = t.0;
        targets = check_targets-IsTarget names selectors s.strategy s.targets each;
        spills =
            check_spillover-IsSpillover router s (resolved_targets names s.targets)
              (local_targets names s.targets) last;
      }

  -- The validation accepts a selector exactly where its name is not blank and names no model and no
  -- alias; its strategy is one of the three; it has a target; every target is a known model and no
  -- selector, and a local model for the warm strategy; and, for the spillover strategy, the limit is at
  -- least one, no two targets resolve to the same model, and the check of the router accepts the local ones.
  pub validate_selector_iff :
      (validate_selector names selectors router blank id s ≡ inr tt) ↔ IsAccepted
  unfolding validate_selector
  validate_selector_iff = (
    λ e. accepted e,
    λ a. rw a.named (
        rw a.no_model (
          ap (λ o. no_alias o rest) a.no_alias
          ∙ ap
              (λ r.
                and_then r (λ _. if is_empty s.targets then inl no_targets else targets_and_more))
              (IsStrategy-check_strategy s.strategy a.strategy)
          ∙ rw a.has_targets (
              ap (λ r. and_then r (λ _. last_check))
                (IsTarget-check_targets names selectors s.strategy s.targets a.targets)
              ∙ IsSpillover-check_spillover router s (resolved_targets names s.targets)
                  (local_targets names s.targets) a.spills))),
  )
