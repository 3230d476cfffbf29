-- ===== src/Router/Unload/Divides.antt =====
-- base.go: the unload requests divide the targets by their timeouts.
use mathlib.Core.List.{append_assoc, append-nil}
use llemon_swap.Base.{
  String, ◌≡◌, refl, ap, sym, ◌∙◌, Bool, true, false, Option, none, some, List, [], ◌∷◌, ◌++◌,
  arith, Bool-cases, inl, inr, if◌then◌else◌,
}
use llemon_swap.Scheduler.State.{ℤ, eqb_ℤ, pos, ltb_ℤ}
use llemon_swap.Router.Unload.{
  UnloadConfig, unload_timeout, Buckets, bucket, append_to, fill, timeouts_of, sort_durations,
  or_empty, send_each, targets_of, requests_for, unload,
}
use llemon_swap.Router.Unload.Order.{
  eqb-eq, eqb_refl, has, IsIncreasing, IsDistinct, has-sort_durations, sort_durations-IsIncreasing,
}

-- The targets with the timeout, in their order.
abbrev pub having : (String → ℤ) → ℤ → List String → List String
having timeout t [] = []
having timeout t (id ∷ ids) =
    let rest = having timeout t ids in if eqb_ℤ (timeout id) t then id ∷ rest else rest

-- What a bucket holds after more targets.
abbrev joined : Option (List String) → List String → Option (List String)
joined (some ys) xs = some (ys ++ xs)
joined none [] = none
joined none (x ∷ xs) = some (x ∷ xs)

joined-nil : (o : Option (List String)) → joined o [] ≡ o
joined-nil none = refl
joined-nil (some ys) = ap some (append-nil ys)

joined-snoc :
    (o : Option (List String)) (id : String) (xs : List String)
    → joined (some (or_empty o ++ id ∷ [])) xs ≡ joined o (id ∷ xs)
joined-snoc none id xs = refl
joined-snoc (some ys) id xs = ap some (append_assoc ys (id ∷ []) xs)

bucket-append_to :
    (t u : ℤ) (id : String) (buckets : Buckets)
    → bucket u (append_to t id buckets)
      ≡ (if eqb_ℤ t u then some (or_empty (bucket u buckets) ++ id ∷ []) else bucket u buckets)
unfolding bucket append_to
bucket-append_to t u id [] = refl
bucket-append_to t u id ((v, ids) ∷ rest) = ground (
  arith,
  eqb-eq v t,
  eqb-eq v u,
  eqb-eq t u,
  eqb_refl t,
  eqb_refl u,
  bucket-append_to t u id rest,
)

bucket-fill :
    (timeout : String → ℤ) (t : ℤ) (ids : List String) (buckets : Buckets)
    → bucket t (fill timeout ids buckets) ≡ joined (bucket t buckets) (having timeout t ids)
unfolding fill
bucket-fill timeout t [] buckets = sym (joined-nil (bucket t buckets))
bucket-fill timeout t (id ∷ ids) buckets =
    bucket-fill timeout t ids (append_to (timeout id) id buckets)
    ∙ elim (Bool-cases (eqb_ℤ (timeout id) t)) [
      | inl e ↦
          rw (bucket-append_to (timeout id) t id buckets, e)
            (joined-snoc (bucket t buckets) id (having timeout t ids))
      | inr e ↦ rw (bucket-append_to (timeout id) t id buckets, e) refl
    ]

is_some : Option (List String) → Bool
is_some none = false
is_some (some ids) = true

has-timeouts_of :
    (t : ℤ) (buckets : Buckets) → has (timeouts_of buckets) t ≡ is_some (bucket t buckets)
unfolding bucket is_some
has-timeouts_of t [] = refl
has-timeouts_of t ((u, ids) ∷ rest) = ground (arith, has-timeouts_of t rest)

append_to-IsDistinct :
    (t : ℤ) (id : String) (buckets : Buckets)
    → IsDistinct (timeouts_of buckets)
    → IsDistinct (timeouts_of (append_to t id buckets))
unfolding append_to
append_to-IsDistinct t id [] d = (refl, tt)
append_to-IsDistinct t id ((u, ids) ∷ rest) d = elim (Bool-cases (eqb_ℤ u t)) [
  | inl e ↦ rw e d
  | inr e ↦ rw e (
    ground (
      arith,
      d.0,
      has-timeouts_of u (append_to t id rest),
      has-timeouts_of u rest,
      bucket-append_to t u id rest,
      eqb-eq t u,
      eqb_refl u,
    ),
    append_to-IsDistinct t id rest d.1,
  )
]

fill-IsDistinct :
    (timeout : String → ℤ) (ids : List String) (buckets : Buckets)
    → IsDistinct (timeouts_of buckets)
    → IsDistinct (timeouts_of (fill timeout ids buckets))
unfolding fill
fill-IsDistinct timeout [] buckets d = d
fill-IsDistinct timeout (id ∷ ids) buckets d =
    fill-IsDistinct timeout ids (append_to (timeout id) id buckets)
      (append_to-IsDistinct (timeout id) id buckets d)

bucket-send_each :
    (t : ℤ) (ts : List ℤ) (buckets : Buckets)
    → bucket t (send_each ts buckets)
      ≡ (if has ts t then some (or_empty (bucket t buckets)) else none)
unfolding bucket send_each
bucket-send_each t [] buckets = refl
bucket-send_each t (u ∷ ts) buckets = elim (Bool-cases (eqb_ℤ u t)) [
  | inl e ↦ rw e (ap (λ (v : ℤ). some (or_empty (bucket v buckets))) (eqb-eq u t e))
  | inr e ↦ rw e (bucket-send_each t ts buckets)
]

timeouts_of-send_each : (ts : List ℤ) (buckets : Buckets) → timeouts_of (send_each ts buckets) ≡ ts
unfolding send_each
timeouts_of-send_each [] buckets = refl
timeouts_of-send_each (t ∷ ts) buckets = ap (◌∷◌ t) (timeouts_of-send_each ts buckets)

abbrev pub unless_empty : List String → Option (List String)
unless_empty [] = none
unless_empty (id ∷ ids) = some (id ∷ ids)

-- The requests in the order of their timeouts, and what each one holds.
pub record Divides (timeout : String → ℤ) (targets : List String) (requests : Buckets)
    : Type 0 where
  pub sorted : IsIncreasing (timeouts_of requests)
  pub exact : (t : ℤ) → bucket t requests ≡ unless_empty (having timeout t targets)

-- A positive timeout stands above the configured ones.
abbrev pub timeout_for : UnloadConfig → ℤ → String → ℤ
timeout_for cfg timeout = if ltb_ℤ (pos 0) timeout then (λ id. timeout) else unload_timeout cfg

found : (o : Option (List String)) → (if is_some o then some (or_empty o) else none) ≡ o
unfolding is_some
found none = refl
found (some ids) = refl

joined-none : (t : ℤ) (xs : List String) → joined (bucket t []) xs ≡ unless_empty xs
unfolding bucket
joined-none t [] = refl
joined-none t (x ∷ xs) = refl

buckets-Divides :
    (timeout : String → ℤ) (targets : List String)
    → let buckets = fill timeout targets [] in
      Divides timeout targets (send_each (sort_durations (timeouts_of buckets)) buckets)
buckets-Divides timeout targets =
    let buckets = fill timeout targets [] in
    let times = timeouts_of buckets in
    record {
      sorted =
          rw (timeouts_of-send_each (sort_durations times) buckets)
            (sort_durations-IsIncreasing times (fill-IsDistinct timeout targets [] tt));
      exact = λ t.
          bucket-send_each t (sort_durations times) buckets
          ∙ rw (has-sort_durations times t, has-timeouts_of t buckets) (found (bucket t buckets))
          ∙ bucket-fill timeout t targets []
          ∙ joined-none t (having timeout t targets);
    }

one_request-Divides :
    (t : ℤ) (timeout : String → ℤ) (id : String) (ids : List String)
    → ((i : String) → timeout i ≡ t)
    → Divides timeout (id ∷ ids) ((t, id ∷ ids) ∷ [])
unfolding bucket
one_request-Divides t timeout id ids h = record {
  sorted = (tt, tt);
  exact = λ u. elim (Bool-cases (eqb_ℤ t u)) [
    | inl e ↦ rw e (sym (ap unless_empty (all_in u e (id ∷ ids))))
    | inr e ↦ rw e (sym (ap unless_empty (all_out u e (id ∷ ids))))
  ];
}
  where
    all_in : (u : ℤ) → eqb_ℤ t u ≡ true → (xs : List String) → having timeout u xs ≡ xs
    all_in u e [] = refl
    all_in u e (x ∷ xs) = rw (h x, e) (ap (◌∷◌ x) (all_in u e xs))

    all_out : (u : ℤ) → eqb_ℤ t u ≡ false → (xs : List String) → having timeout u xs ≡ []
    all_out u e [] = refl
    all_out u e (x ∷ xs) = rw (h x, e) (all_out u e xs)

nothing-Divides : (timeout : String → ℤ) → Divides timeout [] []
unfolding bucket
nothing-Divides timeout = record { sorted = tt; exact = λ t. refl }

requests_for-Divides :
    (cfg : UnloadConfig) (timeout : ℤ) (targets : List String)
    → Divides (timeout_for cfg timeout) targets (requests_for cfg timeout targets)
unfolding requests_for
requests_for-Divides cfg timeout [] = nothing-Divides (timeout_for cfg timeout)
requests_for-Divides cfg timeout (id ∷ ids) = elim (Bool-cases (ltb_ℤ (pos 0) timeout)) [
  | inl e ↦ rw e (one_request-Divides timeout (λ i. timeout) id ids (λ i. refl))
  | inr e ↦ rw e (buckets-Divides (unload_timeout cfg) (id ∷ ids))
]

-- Unload sends each target in exactly one request: the requests stand in the order of their
-- timeouts, no two with the same one, and each holds exactly the targets with its timeout, in their
-- order. That is the given timeout, if it is positive, and the configured one of the model otherwise.
pub unload-Divides :
    (cfg : UnloadConfig) (processes : List String) (timeout : ℤ) (models : List String)
    → Divides
        (timeout_for cfg timeout)
        (targets_of processes models)
        (unload cfg processes timeout models)
unfolding unload
unload-Divides cfg processes timeout models =
    requests_for-Divides cfg timeout (targets_of processes models)
