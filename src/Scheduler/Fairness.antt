-- ===== src/Scheduler/Fairness.antt =====
-- fifo.go: the running set that the planner sees, and the order of service within a lifecycle pool.
use llemon_swap.Base.{
  ℕ, ◌+◌, String, Bool, true, false, not, ◌&&◌, ◌||◌, Option, none, some, List, [], ◌∷◌, ◌++◌, ◌==◌,
  ltb, leb, update, lookup, keys, contains, is_empty, sort_strings, if◌then◌else◌,
}
use llemon_swap.Scheduler.State.{
  HandlerReq, Effects, Swapper, resident_admission, fairness_promotion, LifecyclePool, ActiveSwap,
  Config, Fifo, is_ready, emit,
}
use llemon_swap.Scheduler.Queue.{waited}

unfoldable pub active_targets : List (String × ActiveSwap) → String → List String
active_targets [] exclude = []
active_targets ((id, sw) ∷ active) exclude =
    let rest = active_targets active exclude in if id == exclude then rest else id ∷ rest

-- The closure `add` of runningSet, over a list of ids.
unfoldable pub add_unseen : List String → List String → List String
add_unseen out [] = out
add_unseen out (id ∷ ids) = add_unseen (if contains out id then out else out ++ id ∷ []) ids

unfoldable pub pool_for : Config → String → String
unfolding lookup
pool_for cfg m = elim (lookup m cfg.models) [ some mc ↦ mc.lifecycle_pool | none ↦ "" ]

-- QueuedAt as a time: the zero time lies before every other.
abbrev queued_at : HandlerReq → ℕ
queued_at req = elim req.queued_at [ none ↦ 0 | some t ↦ t ]

-- The requests of `out` that belong to the pool replaced, in turn, by those of `ordered`.
unfoldable pub write_back : Config → String → List HandlerReq → List HandlerReq → List HandlerReq
write_back cfg pool [] ordered = []
write_back cfg pool (req ∷ out) [] = req ∷ out
write_back cfg pool (req ∷ out) (o ∷ ordered) =
    if pool_for cfg req.model == pool
    then o ∷ write_back cfg pool out ordered
    else req ∷ write_back cfg pool out (o ∷ ordered)

-- `append([]HandlerReq{cold[0]}, resident..., cold[1:]...)` when promoting.
unfoldable pub arrange : Bool → List HandlerReq → List HandlerReq → List HandlerReq
arrange promote resident [] = resident
arrange promote resident (c ∷ cold) =
    if promote then c ∷ (resident ++ cold) else resident ++ c ∷ cold

abbrev pub promotion : Bool → List HandlerReq → Fifo → Fifo
promotion promote [] s = s
promotion promote (c ∷ cold) s = if promote then emit (fairness_promotion c.model) s else s

module _ (eff : Effects) (planner : Swapper) (cfg : Config) where
  unfoldable pub running_set : String → Fifo → List String
  unfolding add_unseen active_targets sort_strings contains
  running_set exclude s =
      sort_strings
        (add_unseen (add_unseen [] (eff.running_models s.trace)) (active_targets s.active exclude))

  unfoldable pub eviction_for : String → Fifo → List String
  unfolding running_set
  eviction_for m s = planner.eviction_for m (running_set m s)

  unfoldable pub is_cold : Fifo → String → Bool
  unfolding eviction_for
  is_cold s m = elim (eff.model_state s.trace m) [
    | none ↦ true
    | some state ↦ if is_ready state then not (is_empty (eviction_for m s)) else true
  ]

  abbrev earlier : HandlerReq → Option HandlerReq → HandlerReq
  earlier req none = req
  earlier req (some oldest) = if ltb (queued_at req) (queued_at oldest) then req else oldest

  -- The loop of oldestCold, with the oldest so far.
  unfoldable pub oldest_cold_from :
      Fifo → String → List HandlerReq → Option HandlerReq → Option HandlerReq
  unfolding is_cold pool_for
  oldest_cold_from s pool [] oldest = oldest
  oldest_cold_from s pool (req ∷ queued) oldest = oldest_cold_from s pool queued (
      if not (pool_for cfg req.model == pool) || not (is_cold s req.model)
      then oldest
      else some (earlier req oldest))

  unfoldable pub oldest_cold : Fifo → String → Option HandlerReq
  unfolding oldest_cold_from
  oldest_cold s pool = oldest_cold_from s pool s.queued none

  -- The two fairness bounds, given the oldest cold request of the pool.
  unfoldable pub must_promote : Fifo → String → LifecyclePool → HandlerReq → Bool
  must_promote s pool policy oldest =
      (ltb 0 policy.max_resident_burst && leb policy.max_resident_burst (s.resident_bursts pool))
      || (ltb 0 policy.max_resident_wait
          && leb policy.max_resident_wait (waited eff s (queued_at oldest)))

  unfoldable pub should_yield_to_cold : Fifo → String → Bool
  unfolding oldest_cold must_promote lookup
  should_yield_to_cold s m =
      let pool = pool_for cfg m in
      elim (lookup pool cfg.pools) [
        | none ↦ false
        | some policy ↦ if not policy.resident_first then false else elim (oldest_cold s pool) [
          | none ↦ false
          | some oldest ↦ must_promote s pool policy oldest
        ]
      ]

  unfoldable pub record_resident_admission : String → Fifo → Fifo
  unfolding oldest_cold
  record_resident_admission m s =
      let pool = pool_for cfg m in
      if pool == "" then s else elim (oldest_cold s pool) [
        | none ↦ s
        | some oldest ↦ emit (resident_admission m) (record s {
          resident_bursts = update s.resident_bursts pool (s.resident_bursts pool + 1);
        })
      ]

  -- The requests of the pool that are cold, or that are not, in their order.
  unfoldable pub select_class : Fifo → String → Bool → List HandlerReq → List HandlerReq
  unfolding is_cold
  select_class s pool cold [] = []
  select_class s pool cold (req ∷ out) =
      let rest = select_class s pool cold out in
      if (pool_for cfg req.model == pool)
        && (if cold then is_cold s req.model else not (is_cold s req.model))
      then req ∷ rest
      else rest

  -- One round of fairOrder's loop: the new order, and the state after the promotion is reported.
  unfoldable pub order_pool :
      String → LifecyclePool → List HandlerReq × Fifo → List HandlerReq × Fifo
  unfolding oldest_cold must_promote select_class arrange write_back
  order_pool pool policy (out, s) =
      if not policy.resident_first then (out, s) else elim (oldest_cold s pool) [
        | none ↦ (out, s)
        | some oldest ↦
            let promote = must_promote s pool policy oldest in
            let cold = select_class s pool true out in
            let resident = select_class s pool false out in
            (write_back cfg pool out (arrange promote resident cold), promotion promote cold s)
      ]

  -- The pools in the order of their names.
  unfoldable pub order_pools : List String → List HandlerReq × Fifo → List HandlerReq × Fifo
  unfolding order_pool lookup
  order_pools [] state = state
  order_pools (pool ∷ pools) state =
      order_pools pools
        (elim (lookup pool cfg.pools) [ none ↦ state | some policy ↦ order_pool pool policy state ])

  unfoldable pub fair_order : List HandlerReq → Fifo → List HandlerReq × Fifo
  unfolding order_pools sort_strings
  fair_order [] s = ([], s)
  fair_order (req ∷ []) s = (req ∷ [], s)
  fair_order (req ∷ req' ∷ pending) s =
      order_pools (sort_strings (keys cfg.pools)) (req ∷ req' ∷ pending, s)
