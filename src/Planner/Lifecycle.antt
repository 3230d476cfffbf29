-- ===== src/Planner/Lifecycle.antt =====
-- internal/router/provider.go: the planner that makes room in the pool of a provider.
use llemon_swap.Base.{
  ℕ, zero, suc, ◌+◌, ◌-◌, String, Bool, not, ◌||◌, none, some, List, [], ◌∷◌, ◌++◌, ◌==◌, length,
  lookup, contains, ltb, str_le, if◌then◌else◌,
}
use llemon_swap.Scheduler.State.{ℤ, pos, ltb_ℤ, eqb_ℤ, Swapper}
use llemon_swap.Planner.Group.{GroupConfig, group_planner}

-- config.ModelConfig: the fields that the planner reads.
pub record ProviderModel : Type 0 where
  pub provider : String
  pub lifecycle_pool : String
  pub residency : String
  pub residency_priority : ℤ

-- What a decision reads of a provider.Manager: ResidentAliases, OccupiedLLM and ResidentLLMAliases.
pub record Manager : Type 0 where
  pub resident_aliases : String → List String
  pub occupied_llm : ℕ
  pub resident_llm_aliases : String → List String

-- The configuration, with the manager of each model. The capacity of a pool is at least 1; that of
-- a pool which is not there reads as 0.
pub record Lifecycle : Type 0 where
  pub has_providers : Bool
  pub models : List (String × ProviderModel)
  pub capacities : List (String × ℕ)
  pub managers : List (String × Manager)

unfoldable pub model_of : Lifecycle → String → ProviderModel
unfolding lookup
model_of cfg id = elim (lookup id cfg.models) [
  | some m ↦ m
  | none ↦ record { provider = ""; lifecycle_pool = ""; residency = ""; residency_priority = pos 0 }
]

unfoldable pub capacity_of : Lifecycle → String → ℕ
unfolding lookup
capacity_of cfg pool = elim (lookup pool cfg.capacities) [ some n ↦ n | none ↦ 0 ]

pub record Candidate : Type 0 where
  pub id : String
  pub residency : String
  pub priority : ℤ

-- How many of the resident models the policy stops already.
unfoldable pub stopped_among : List String → List String → ℕ
unfolding contains
stopped_among policy [] = 0
stopped_among policy (id ∷ ids) =
    let rest = stopped_among policy ids in if contains policy id then suc rest else rest

unfoldable pub candidates : Lifecycle → List String → List String → List Candidate
unfolding contains model_of
candidates cfg policy [] = []
candidates cfg policy (id ∷ ids) =
    let rest = candidates cfg policy ids in
    let m = model_of cfg id in
    if contains policy id
    then rest
    else if m.residency == "hard-pinned" || m.residency == "external"
    then rest
    else record { id = id; residency = m.residency; priority = m.residency_priority } ∷ rest

-- The order of sort.Slice: the candidate that goes first.
abbrev pub goes_before : Candidate → Candidate → Bool
goes_before a b =
    if not (a.residency == b.residency)
    then a.residency == "transient"
    else if not (eqb_ℤ a.priority b.priority)
    then ltb_ℤ b.priority a.priority
    else not (str_le a.id b.id)

unfoldable pub insert_candidate : Candidate → List Candidate → List Candidate
insert_candidate c [] = c ∷ []
insert_candidate c (d ∷ ds) = if goes_before d c then d ∷ insert_candidate c ds else c ∷ d ∷ ds

unfoldable pub sort_candidates : List Candidate → List Candidate
unfolding insert_candidate
sort_candidates [] = []
sort_candidates (c ∷ cs) = insert_candidate c (sort_candidates cs)

-- The ids of the first `n` candidates.
unfoldable pub first_ids : ℕ → List Candidate → List String
first_ids zero cs = []
first_ids (suc n) [] = []
first_ids (suc n) (c ∷ cs) = c.id ∷ first_ids n cs

-- What is added to the evictions of the policy, for a model of a provider.
unfoldable pub make_room : Lifecycle → Manager → String → String → List String → List String
unfolding contains capacity_of stopped_among candidates sort_candidates first_ids
make_room cfg manager target pool policy =
    let llms = manager.resident_llm_aliases pool in
    let taken = capacity_of cfg pool + stopped_among policy llms in
    let found = candidates cfg policy llms in
    let need = manager.occupied_llm - taken + 1 in
    if contains (manager.resident_aliases pool) target
    then []
    else if ltb manager.occupied_llm taken
    then []
    else if ltb (length found) need
    then []
    else first_ids need (sort_candidates found)

-- `lookup` finds no manager for a model that is not of a provider's.
unfoldable pub room_for : Lifecycle → String → List String → List String
unfolding lookup model_of make_room
room_for cfg target policy =
    let m = model_of cfg target in
    if m.provider == "" then [] else elim (lookup target cfg.managers) [
      | none ↦ []
      | some manager ↦ make_room cfg manager target m.lifecycle_pool policy
    ]

unfoldable pub eviction_for_lifecycle : Lifecycle → Swapper → String → List String → List String
unfolding room_for
eviction_for_lifecycle cfg fallback target running =
    let policy = fallback.eviction_for target running in policy ++ room_for cfg target policy

-- What NewGroup and NewMatrix wrap around their planner.
unfoldable pub wrap_lifecycle : Lifecycle → Swapper → Swapper
unfolding eviction_for_lifecycle
wrap_lifecycle cfg fallback =
    if cfg.has_providers
    then record { eviction_for = eviction_for_lifecycle cfg fallback }
    else fallback

-- The planner of the group router.
abbrev pub planner_of_groups :
    Lifecycle → List (String × GroupConfig) → List (String × String) → Swapper
planner_of_groups cfg groups known =
    wrap_lifecycle cfg (group_planner (record { groups = groups; model_to_group = known }))
