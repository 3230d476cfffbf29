-- ===== src/Config/Selectors.antt =====
-- internal/config/selectors.go: the validation of a selector.
pub mod Coexist
pub mod Accepted
pub mod Tests
use llemon_swap.Base.{
  ℕ, String, Bool, true, false, not, ◌&&◌, ◌||◌, Option, none, some, List, [], ◌∷◌, ◌==◌, ◌⊎◌, inl,
  inr, contains, lookup, insert, is_empty, if◌then◌else◌,
}
use llemon_swap.Scheduler.State.{ℤ, pos, negsuc, ltb_ℤ}
use llemon_swap.Planner.Group.{GroupConfig}
use llemon_swap.Config.Names.{
  ModelNames, real_model_name, peer_model_fqn, resolve_peer_model, resolve_base_model,
}

pub record SelectorConfig : Type 0 where
  pub strategy : String
  pub targets : List String
  pub spillover : ℤ

pub data SelectorError : Type 0 where
  empty_name model_conflict alias_conflict no_strategy unknown_strategy no_targets : SelectorError
  chained unknown_target not_local duplicate_target : String → SelectorError
  bad_spillover not_one_set no_group swaps other_group : SelectorError

abbrev pub and_then :
    {A B : Type 0} → SelectorError ⊎ A → (A → SelectorError ⊎ B) → SelectorError ⊎ B
and_then (inl e) f = inl e
and_then (inr a) f = f a

-- The routers: CanContainAll of the compiled matrix, if there is one, or the groups.
pub data RouterUse : Type 0 where
  matrix : Option (List String → Bool) → RouterUse
  groups : List (String × GroupConfig) → RouterUse

-- The group of each member, as the loops over the groups leave it.
unfoldable pub set_members : String → List String → List (String × String) → List (String × String)
unfolding insert
set_members g [] known = known
set_members g (m ∷ ms) known = set_members g ms (insert m g known)

unfoldable pub set_groups :
    List (String × GroupConfig) → List (String × String) → List (String × String)
unfolding set_members
set_groups [] known = known
set_groups ((g, cfg) ∷ rest) known = set_groups rest (set_members g cfg.members known)

abbrev pub group_name : List (String × String) → String → String
group_name known m = elim (lookup m known) [ some g ↦ g | none ↦ "" ]

abbrev pub swap_of : List (String × GroupConfig) → String → Bool
swap_of cfgs g = elim (lookup g cfgs) [ some cfg ↦ cfg.swap | none ↦ false ]

unfoldable pub share_group :
    List (String × String) → String → List String → SelectorError ⊎ Unit {0}
unfolding lookup
share_group known g [] = inr tt
share_group known g (t ∷ ts) =
    if group_name known t == g then share_group known g ts else inl other_group

unfoldable pub validate_groups :
    List (String × GroupConfig) → List String → SelectorError ⊎ Unit {0}
unfolding set_groups share_group
validate_groups cfgs [] = inr tt
validate_groups cfgs (t ∷ ts) =
    let known = set_groups cfgs [] in
    let g = group_name known t in
    if g == "" then inl no_group else if swap_of cfgs g then inl swaps else share_group known g ts

unfoldable pub validate_spillover_coexistence : RouterUse → List String → SelectorError ⊎ Unit {0}
unfolding validate_groups
validate_spillover_coexistence router [] = inr tt
validate_spillover_coexistence router (t ∷ []) = inr tt
validate_spillover_coexistence (matrix none) (t ∷ u ∷ ts) = inl not_one_set
validate_spillover_coexistence (matrix (some can_contain_all)) (t ∷ u ∷ ts) =
    if can_contain_all (t ∷ u ∷ ts) then inr tt else inl not_one_set
validate_spillover_coexistence (groups cfgs) (t ∷ u ∷ ts) = validate_groups cfgs (t ∷ u ∷ ts)

module _ (names : ModelNames) where
  -- The name that a target of a spillover selector is counted by.
  abbrev pub resolved_name : String → String
  resolved_name t = elim (real_model_name names t) [
    | some name ↦ name
    | none ↦ elim (resolve_peer_model names t) [
      | some (peer, model) ↦ peer_model_fqn peer model
      | none ↦ peer_model_fqn "" ""
    ]
  ]

  unfoldable pub local_targets : List String → List String
  local_targets [] = []
  local_targets (t ∷ ts) =
      let others = local_targets ts in
      elim (real_model_name names t) [ some name ↦ name ∷ others | none ↦ others ]

  unfoldable pub resolved_targets : List String → List String
  resolved_targets [] = []
  resolved_targets (t ∷ ts) = resolved_name t ∷ resolved_targets ts

abbrev pub check_known :
    String → Option String → SelectorError ⊎ Unit {0} → SelectorError ⊎ Unit {0}
check_known t none more = inl (unknown_target t)
check_known t (some base) more = more

abbrev pub check_local : String → String → Option String → SelectorError ⊎ Unit {0}
check_local strategy t (some name) = inr tt
check_local strategy t none = if strategy == "warm" then inl (not_local t) else inr tt

module _ (names : ModelNames) (selectors : List String) where
  -- The checks of one target.
  unfoldable pub check_target : String → String → SelectorError ⊎ Unit {0}
  check_target strategy t =
      if contains selectors t
      then inl (chained t)
      else check_known t (resolve_base_model names t)
          (check_local strategy t (real_model_name names t))

  unfoldable pub check_targets : String → List String → SelectorError ⊎ Unit {0}
  unfolding check_target
  check_targets strategy [] = inr tt
  check_targets strategy (t ∷ ts) =
      and_then (check_target strategy t) (λ _. check_targets strategy ts)

unfoldable pub check_distinct : List String → List String → SelectorError ⊎ Unit {0}
unfolding contains
check_distinct seen [] = inr tt
check_distinct seen (t ∷ ts) =
    if contains seen t then inl (duplicate_target t) else check_distinct (t ∷ seen) ts

abbrev pub check_strategy : String → SelectorError ⊎ Unit {0}
check_strategy s =
    if s == "pin" || s == "warm" || s == "spillover"
    then inr tt
    else if s == ""
    then inl no_strategy
    else inl unknown_strategy

abbrev pub no_alias : Option String → SelectorError ⊎ Unit {0} → SelectorError ⊎ Unit {0}
no_alias none more = more
no_alias (some name) more = inl alias_conflict

-- The checks of the spillover strategy, on the resolved targets and the local ones.
unfoldable pub check_spillover :
    RouterUse → SelectorConfig → List String → List String → SelectorError ⊎ Unit {0}
unfolding check_distinct validate_spillover_coexistence
check_spillover router s resolved local =
    if not (s.strategy == "spillover")
    then inr tt
    else if ltb_ℤ s.spillover (pos 1)
    then inl bad_spillover
    else and_then (check_distinct [] resolved) (λ _. validate_spillover_coexistence router local)

-- One round of the loop of validateSelectors. `blank` says that the name is empty when trimmed.
unfoldable pub validate_selector :
    ModelNames → List String → RouterUse → Bool → String → SelectorConfig → SelectorError ⊎ Unit {0}
unfolding check_targets local_targets resolved_targets check_spillover contains lookup
validate_selector names selectors router blank id s =
    if blank
    then inl empty_name
    else if contains names.models id
    then inl model_conflict
    else no_alias (lookup id names.aliases) (
        and_then (check_strategy s.strategy) (λ _.
          if is_empty s.targets
          then inl no_targets
          else and_then (check_targets names selectors s.strategy s.targets) (λ _.
            check_spillover router s (resolved_targets names s.targets)
              (local_targets names s.targets))))
