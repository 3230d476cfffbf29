-- ===== src/Planner/Group.antt =====
-- internal/router/group.go: evictions from the static configuration of groups.
use llemon_swap.Base.{
  String, ◌≡◌, ◌≢◌, refl, ap, Bool, true, false, not, ◌&&◌, ◌||◌, none, some, List, [], ◌∷◌, ◌++◌,
  ◌⊎◌, inl, inr, ◌==◌, eq_iff, arith, lookup, insert, lookup-insert, All, contains, contains-append,
  Bool-cases, Option-cases, if◌then◌else◌,
}
use llemon_swap.Scheduler.State.{Swapper}

pub record GroupConfig : Type 0 where
  pub swap : Bool
  pub exclusive : Bool
  pub persistent : Bool
  pub members : List String

pub record GroupSwapper : Type 0 where
  pub groups : List (String × GroupConfig)
  pub model_to_group : List (String × String)

-- Reads of the two maps, with the zero value for a missing key.
abbrev pub group_of : GroupSwapper → String → String
group_of p m = elim (lookup m p.model_to_group) [ some g ↦ g | none ↦ "" ]

abbrev pub config_of : GroupSwapper → String → GroupConfig
config_of p g = elim (lookup g p.groups) [
  | some cfg ↦ cfg
  | none ↦ record { swap = false; exclusive = false; persistent = false; members = [] }
]

-- The error of a model in two groups: the model, its group so far and the other one.
abbrev pub Refusal : Type 0
Refusal = String × String × String

-- The two loops of NewGroup that give each model its group.
unfoldable pub add_members :
    String → List String → List (String × String) → Refusal ⊎ List (String × String)
unfolding lookup insert
add_members g [] groups = inr groups
add_members g (m ∷ members) groups = elim (lookup m groups) [
  | some other ↦ inl (m, other, g)
  | none ↦ add_members g members (insert m g groups)
]

unfoldable pub assign_groups :
    List (String × GroupConfig) → List (String × String) → Refusal ⊎ List (String × String)
unfolding add_members
assign_groups [] known = inr known
assign_groups ((g, cfg) ∷ groups) known = elim (add_members g cfg.members known) [
  | inl refusal ↦ inl refusal
  | inr known' ↦ assign_groups groups known'
]

module _ (p : GroupSwapper) (target : String) where
  -- The closure `consider`; `seen` holds what the result holds.
  unfoldable pub consider : List String → String → List String
  unfolding lookup contains
  consider result m =
      if m == target
      then result
      else if contains result m
      then result
      else if group_of p m == group_of p target && (config_of p (group_of p target)).swap
      then result ++ m ∷ []
      else if not (group_of p m == group_of p target) && (config_of p (group_of p target)).exclusive
      then (if not (config_of p (group_of p m)).persistent then result ++ m ∷ [] else result)
      else result

  unfoldable pub consider_all : List String → List String → List String
  unfolding consider
  consider_all result [] = result
  consider_all result (m ∷ running) = consider_all (consider result m) running

  unfoldable pub eviction_for_group : List String → List String
  unfolding consider_all
  eviction_for_group = consider_all []

  -- A sibling is stopped in a group that swaps, another group's model by an exclusive group unless
  -- its own group is persistent.
  abbrev pub must_stop : String → Bool
  must_stop m =
      not (m == target)
      && (if group_of p m == group_of p target
          then (config_of p (group_of p target)).swap
          else (config_of p (group_of p target)).exclusive
            && not (config_of p (group_of p m)).persistent)

  contains-consider :
      (result : List String) (m x : String)
      → contains (consider result m) x ≡ (contains result x || (m == x && must_stop m))
  unfolding consider contains
  contains-consider result m x =
      ground
        (arith, eq_iff m x, contains-append result (m ∷ []) x, ap (contains result) {x = m} {y = x})

  contains-consider_all :
      (result running : List String) (x : String)
      → contains (consider_all result running) x
        ≡ (contains result x || (contains running x && must_stop x))
  unfolding consider_all contains
  contains-consider_all result [] x = ground arith
  contains-consider_all result (m ∷ running) x = elim (Bool-cases (m == x)) [
    | inl e ↦ rw ((eq_iff m x).0 e) (
        ground (
          arith,
          eq_iff x x,
          contains-consider result x x,
          contains-consider_all (consider result x) running x,
        ))
    | inr e ↦
        ground
          (arith, contains-consider result m x, contains-consider_all (consider result m) running x)
  ]

  -- EvictionFor stops exactly the running models that the groups' flags name: a sibling in a group
  -- that swaps, and a model of another group that is not persistent when the target's is exclusive.
  pub contains-eviction_for_group :
      (running : List String) (x : String)
      → contains (eviction_for_group running) x ≡ (contains running x && must_stop x)
  unfolding eviction_for_group contains
  contains-eviction_for_group running x = contains-consider_all [] running x

-- As a policy of the scheduler.
abbrev pub group_planner : GroupSwapper → Swapper
group_planner p = record { eviction_for = eviction_for_group p }

not_inr : {a : Refusal} {k : List (String × String)} → inl a ≢ inr k
not_inr e = ground (arith, e)

Refusal-cases :
    (r : Refusal ⊎ List (String × String))
    → ((a : Refusal) × (r ≡ inl a)) ⊎ ((k : List (String × String)) × (r ≡ inr k))
Refusal-cases (inl a) = inl (a, refl)
Refusal-cases (inr k) = inr (k, refl)

-- What was known stays known.
add_members-keeps :
    (g : String) (members : List String) (known known' : List (String × String)) (x h : String)
    → add_members g members known ≡ inr known'
    → lookup x known ≡ some h
    → lookup x known' ≡ some h
unfolding add_members
add_members-keeps g [] known known' x h e k = ground arith
add_members-keeps g (m ∷ members) known known' x h e k = elim (Option-cases (lookup m known)) [
  | inl o ↦
      add_members-keeps g members (insert m g known) known' x h (rw (o, add_members) at e)
        (ground (arith, lookup-insert m x g known, eq_iff m x))
  | inr (other, o) ↦ absurd (not_inr (rw (o, add_members) at e))
]

add_members-adds :
    (g : String) (members : List String) (known known' : List (String × String)) (x : String)
    → add_members g members known ≡ inr known'
    → contains members x ≡ true
    → lookup x known' ≡ some g
unfolding add_members contains
add_members-adds g [] known known' x e h = cc
add_members-adds g (m ∷ members) known known' x e h = elim (Option-cases (lookup m known)) [
  | inl o ↦ elim (Bool-cases (m == x)) [
    | inl q ↦
        add_members-keeps g members (insert m g known) known' x g (rw (o, add_members) at e)
          (ground (arith, lookup-insert m x g known, eq_iff m x))
    | inr q ↦
        add_members-adds g members (insert m g known) known' x (rw (o, add_members) at e)
          (ground arith)
  ]
  | inr (other, o) ↦ absurd (not_inr (rw (o, add_members) at e))
]

assign_groups-keeps :
    (groups : List (String × GroupConfig)) (known known' : List (String × String)) (x g : String)
    → assign_groups groups known ≡ inr known'
    → lookup x known ≡ some g
    → lookup x known' ≡ some g
unfolding assign_groups
assign_groups-keeps [] known known' x g e h = ground arith
assign_groups-keeps ((g', cfg) ∷ groups) known known' x g e h =
    elim (Refusal-cases (add_members g' cfg.members known)) [
      | inl (r, o) ↦ absurd (not_inr (rw (o, assign_groups) at e))
      | inr (known'', o) ↦
          assign_groups-keeps groups known'' known' x g (rw (o, assign_groups) at e)
            (add_members-keeps g' cfg.members known known'' x g o h)
    ]

-- The members of a group have that group in the map.
abbrev pub Assigned : List (String × String) → String × GroupConfig → Type 0
Assigned known (g, cfg) = (x : String) → contains cfg.members x ≡ true → lookup x known ≡ some g

-- Where NewGroup accepts the groups, each member of a group is routed to that group, so no model is in
-- two groups of different names.
pub assign_groups-Assigned :
    (groups : List (String × GroupConfig)) (known known' : List (String × String))
    → assign_groups groups known ≡ inr known'
    → All (Assigned known') groups
unfolding assign_groups
assign_groups-Assigned [] known known' e = tt
assign_groups-Assigned ((g, cfg) ∷ groups) known known' e =
    elim (Refusal-cases (add_members g cfg.members known)) [
      | inl (r, o) ↦ absurd (not_inr (rw (o, assign_groups) at e))
      | inr (known'', o) ↦ (
        λ x h.
            assign_groups-keeps groups known'' known' x g (rw (o, assign_groups) at e)
              (add_members-adds g cfg.members known known'' x o h),
        assign_groups-Assigned groups known'' known' (rw (o, assign_groups) at e),
      )
    ]
