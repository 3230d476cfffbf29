-- ===== src/Planner/Room.antt =====
-- internal/router/provider.go: what is stopped to make room is a resident model of the target's pool.
use llemon_swap.Base.{
  ℕ, zero, suc, ◌+◌, ◌-◌, String, ◌≡◌, refl, ◌∙◌, Bool, true, false, not, ◌||◌, none, some, List,
  [], ◌∷◌, ◌==◌, arith, length, lookup, contains, contains-append, ltb, Bool-cases, Option-cases,
  inl, inr, if◌then◌else◌,
}
use llemon_swap.Scheduler.State.{Swapper}
use llemon_swap.Planner.Lifecycle.{
  Manager, Lifecycle, model_of, capacity_of, Candidate, stopped_among, candidates, goes_before,
  insert_candidate, sort_candidates, first_ids, make_room, room_for, eviction_for_lifecycle,
  wrap_lifecycle,
}

-- The models that may have to make room for the target: the LLMs that are resident in its pool.
unfoldable pub pool_mates : Lifecycle → String → List String
unfolding model_of lookup
pool_mates cfg target =
    if not cfg.has_providers || (model_of cfg target).provider == ""
    then []
    else elim (lookup target cfg.managers) [
      | none ↦ []
      | some manager ↦ manager.resident_llm_aliases (model_of cfg target).lifecycle_pool
    ]

has_id : List Candidate → String → Bool
has_id [] v = false
has_id (c ∷ cs) v = c.id == v || has_id cs v

has_id-candidates :
    (cfg : Lifecycle) (policy ids : List String) (v : String)
    → contains ids v ≡ false
    → has_id (candidates cfg policy ids) v ≡ false
unfolding has_id candidates contains
has_id-candidates cfg policy [] v h = refl
has_id-candidates cfg policy (id ∷ ids) v h = ground (arith, has_id-candidates cfg policy ids v)

has_id-insert_candidate :
    (c : Candidate) (cs : List Candidate) (v : String)
    → has_id (insert_candidate c cs) v ≡ (c.id == v || has_id cs v)
unfolding has_id insert_candidate
has_id-insert_candidate c [] v = refl
has_id-insert_candidate c (d ∷ ds) v = elim (Bool-cases (goes_before d c)) [
  | inl e ↦ rw e (ground (arith, has_id-insert_candidate c ds v))
  | inr e ↦ rw e refl
]

has_id-sort_candidates :
    (cs : List Candidate) (v : String) → has_id (sort_candidates cs) v ≡ has_id cs v
unfolding has_id sort_candidates
has_id-sort_candidates [] v = refl
has_id-sort_candidates (c ∷ cs) v =
    ground (arith, has_id-insert_candidate c (sort_candidates cs) v, has_id-sort_candidates cs v)

contains-first_ids :
    (n : ℕ) (cs : List Candidate) (v : String)
    → has_id cs v ≡ false
    → contains (first_ids n cs) v ≡ false
unfolding has_id first_ids contains
contains-first_ids zero cs v h = refl
contains-first_ids (suc n) [] v h = refl
contains-first_ids (suc n) (c ∷ cs) v h = ground (arith, contains-first_ids n cs v)

-- Three tests that each give up.
contains-unless :
    (a b c : Bool) (xs : List String) (v : String)
    → contains xs v ≡ false
    → contains (if a then [] else if b then [] else if c then [] else xs) v ≡ false
unfolding contains
contains-unless true b c xs v h = refl
contains-unless false true c xs v h = refl
contains-unless false false true xs v h = refl
contains-unless false false false xs v h = h

make_room-outside :
    (cfg : Lifecycle) (manager : Manager) (target pool : String) (policy : List String) (v : String)
    → contains (manager.resident_llm_aliases pool) v ≡ false
    → contains (make_room cfg manager target pool policy) v ≡ false
unfolding make_room
make_room-outside cfg manager target pool policy v h =
    let llms = manager.resident_llm_aliases pool in
    let found = candidates cfg policy llms in
    let taken = capacity_of cfg pool + stopped_among policy llms in
    let need = manager.occupied_llm - taken + 1 in
    contains-unless (contains (manager.resident_aliases pool) target)
      (ltb manager.occupied_llm taken) (ltb (length found) need)
      (first_ids need (sort_candidates found)) v
      (contains-first_ids need (sort_candidates found) v
        (has_id-sort_candidates found v ∙ has_id-candidates cfg policy llms v h))

room_for-outside :
    (cfg : Lifecycle) (target : String) (policy : List String) (v : String)
    → cfg.has_providers ≡ true
    → contains (pool_mates cfg target) v ≡ false
    → contains (room_for cfg target policy) v ≡ false
unfolding room_for pool_mates contains
room_for-outside cfg target policy v p h =
    elim (Bool-cases ((model_of cfg target).provider == "")) [
      | inl e ↦ rw (e, room_for) refl
      | inr e ↦ elim (Option-cases (lookup target cfg.managers)) [
        | inl f ↦ rw (e, f, room_for) refl
        | inr (manager, f) ↦
            rw (e, f, room_for)
              (make_room-outside cfg manager target (model_of cfg target).lifecycle_pool policy v
                (rw (p, e, f, pool_mates) at h))
      ]
    ]

eviction_for-if :
    (b : Bool) (p q : Swapper) (target v : String) (running : List String)
    → (b ≡ true → contains (p.eviction_for target running) v ≡ false)
    → (b ≡ false → contains (q.eviction_for target running) v ≡ false)
    → contains ((if b then p else q).eviction_for target running) v ≡ false
eviction_for-if true p q target v running h k = h refl
eviction_for-if false p q target v running h k = k refl

-- What the policy does not stop is stopped only to make room in the target's pool.
pub wrap_lifecycle-outside :
    (cfg : Lifecycle) (fallback : Swapper) (target v : String) (running : List String)
    → contains (fallback.eviction_for target running) v ≡ false
    → contains (pool_mates cfg target) v ≡ false
    → contains ((wrap_lifecycle cfg fallback).eviction_for target running) v ≡ false
unfolding wrap_lifecycle eviction_for_lifecycle
wrap_lifecycle-outside cfg fallback target v running h k =
    let policy = fallback.eviction_for target running in
    eviction_for-if cfg.has_providers
      (record { eviction_for = eviction_for_lifecycle cfg fallback }) fallback target v running
      (λ p.
        contains-append policy (room_for cfg target policy) v
        ∙ ground (arith, h, room_for-outside cfg target policy v p k))
      (λ p. h)
