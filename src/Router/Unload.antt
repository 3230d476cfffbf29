-- ===== src/Router/Unload.antt =====
-- internal/router/base.go: Unload, which sends the models to the run loop by their timeouts.
pub mod Order
pub mod Divides
use llemon_swap.Base.{
  ℕ, ◌+◌, ◌-◌, ◌*◌, ◌%◌, ◌^◌, String, Bool, true, false, Option, none, some, List, [], ◌∷◌, ◌++◌,
  map, ltb, eqb, lookup, is_empty, if◌then◌else◌,
}
use llemon_swap.Scheduler.State.{ℤ, pos, negsuc, ltb_ℤ, eqb_ℤ}

-- An int64 from its bits.
abbrev pub to_int64 : ℕ → ℤ
to_int64 n = let r = n % 2 ^ 64 in if ltb r (2 ^ 63) then pos r else negsuc (2 ^ 64 - 1 - r)

-- A time.Duration of so many seconds. A timeout of the configuration is not negative.
unfoldable pub seconds : ℕ → ℤ
seconds n = to_int64 (n * 1000000000)

-- The timeouts of the configuration, in seconds.
pub record UnloadConfig : Type 0 where
  pub model_timeouts : List (String × ℕ)
  pub default_timeout : ℕ

unfoldable pub unload_timeout : UnloadConfig → String → ℤ
unfolding lookup seconds
unload_timeout cfg id = elim (lookup id cfg.model_timeouts) [
  | some t ↦ seconds t
  | none ↦ seconds cfg.default_timeout
]

-- One request of the run loop: its targets under its timeout.
abbrev pub Buckets : Type 0
Buckets = List (ℤ × List String)

unfoldable pub bucket : ℤ → Buckets → Option (List String)
bucket t [] = none
bucket t ((u, ids) ∷ rest) = if eqb_ℤ u t then some ids else bucket t rest

-- `buckets[t] = append(buckets[t], id)`
unfoldable pub append_to : ℤ → String → Buckets → Buckets
append_to t id [] = (t, id ∷ []) ∷ []
append_to t id ((u, ids) ∷ rest) =
    if eqb_ℤ u t then (u, ids ++ id ∷ []) ∷ rest else (u, ids) ∷ append_to t id rest

unfoldable pub fill : (String → ℤ) → List String → Buckets → Buckets
unfolding append_to
fill timeout [] buckets = buckets
fill timeout (id ∷ ids) buckets = fill timeout ids (append_to (timeout id) id buckets)

abbrev pub timeouts_of : Buckets → List ℤ
timeouts_of [] = []
timeouts_of ((t, ids) ∷ rest) = t ∷ timeouts_of rest

unfoldable pub insert_duration : ℤ → List ℤ → List ℤ
insert_duration t [] = t ∷ []
insert_duration t (u ∷ us) = if ltb_ℤ u t then u ∷ insert_duration t us else t ∷ u ∷ us

unfoldable pub sort_durations : List ℤ → List ℤ
unfolding insert_duration
sort_durations [] = []
sort_durations (t ∷ ts) = insert_duration t (sort_durations ts)

abbrev pub or_empty : Option (List String) → List String
or_empty none = []
or_empty (some ids) = ids

unfoldable pub send_each : List ℤ → Buckets → Buckets
unfolding bucket
send_each [] buckets = []
send_each (t ∷ ts) buckets = (t, or_empty (bucket t buckets)) ∷ send_each ts buckets

abbrev pub targets_of : List String → List String → List String
targets_of processes [] = processes
targets_of processes (id ∷ ids) = id ∷ ids

-- The requests for the targets.
unfoldable pub requests_for : UnloadConfig → ℤ → List String → Buckets
unfolding unload_timeout fill sort_durations send_each
requests_for cfg timeout targets =
    if is_empty targets
    then []
    else if ltb_ℤ (pos 0) timeout
    then (timeout, targets) ∷ []
    else (let buckets = fill (unload_timeout cfg) targets [] in
        send_each (sort_durations (timeouts_of buckets)) buckets)

-- The requests that are sent, in their order, given the ids of all processes.
unfoldable pub unload : UnloadConfig → List String → ℤ → List String → Buckets
unfolding requests_for
unload cfg processes timeout models = requests_for cfg timeout (targets_of processes models)
