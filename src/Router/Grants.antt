-- ===== src/Router/Grants.antt =====
-- base.go, GrantServe: the handlers that were handed out, as the trace tells them, and what the parts
-- of the scheduler do to their number.
use llemon_swap.Base.{
  Whenever, Whenever-bind, Whenever-if, ℕ, suc, ◌+◌, String, ◌≡◌, refl, Bool, true, false, Option,
  none, some, List, [], ◌∷◌, ◌++◌, arith, ◌==◌, eq_iff, leb, Bool-cases, Option-cases, inl, inr,
  lookup, keys, sort_strings, if◌then◌else◌,
}
use llemon_swap.Scheduler.State.{
  Error, HandlerReq, Effects, Swapper, Effect, grant_serve, LifecyclePool, concurrency_limit,
  queue_delta, pos, limit, Config, Fifo, emit,
}
use llemon_swap.Scheduler.Grant.{
  release, reserve, send_admission, reject_admission, admit, grant_handler, grant_failure,
}
use llemon_swap.Scheduler.Queue.{
  insert_by_priority, stamp, positions, broadcast_queue_positions, enqueue, queue_done,
}
use llemon_swap.Scheduler.Fairness.{
  record_resident_admission, oldest_cold, must_promote, select_class, promotion, order_pool,
  order_pools, fair_order,
}

-- How many callers have received a handler of the model.
abbrev pub grants : String → List Effect → ℕ
grants m [] = 0
grants m (grant_serve respond n true ∷ trace) =
    let rest = grants m trace in if n == m then suc rest else rest
grants m (e ∷ trace) = grants m trace

grants-append :
    (m : String) (es trace : List Effect) → grants m (es ++ trace) ≡ grants m es + grants m trace
grants-append m [] trace = omega arith
grants-append m (grant_serve r n true ∷ es) trace = ground (arith, grants-append m es trace)
grants-append m (e ∷ es) trace = grants-append m es trace

-- The count of requests in flight grows by the handlers that are handed out.
pub record Flow (s s' : Fifo) : Type 0 where
  pub flow : (m : String) → s'.in_flight m + grants m s.trace ≡ s.in_flight m + grants m s'.trace

pub Flow-refl : (s : Fifo) → Flow s s
Flow-refl s = record { flow = λ m. refl }

pub Flow-trans : {s s' s'' : Fifo} → Flow s s' → Flow s' s'' → Flow s s''
Flow-trans p q = record { flow = λ m. omega (arith, p.flow m, q.flow m) }

pub release-Flow : (m : String) (s : Fifo) → Whenever (release m s) (Flow s)
unfolding release
release-Flow m s = Whenever-if (Flow s) (leb (s.reserved m) 0) _ _ tt (record { flow = λ j. refl })

grants-positions : (m : String) (i : ℕ) (reqs : List HandlerReq) → grants m (positions i reqs) ≡ 0
unfolding positions
grants-positions m i [] = refl
grants-positions m i (req ∷ reqs) =
    omega (arith, grants-append m (positions (suc i) reqs) _, grants-positions m (suc i) reqs)

pub broadcast-Flow : (reqs : List HandlerReq) (s : Fifo) → Flow s (broadcast_queue_positions reqs s)
unfolding broadcast_queue_positions
broadcast-Flow reqs s = record {
  flow = λ m. omega (arith, grants-append m (positions 0 reqs) s.trace, grants-positions m 0 reqs);
}

module _ (eff : Effects) where
  send_admission-Flow :
      (req : HandlerReq) (err : Option Error) (s : Fifo) → Flow s (send_admission eff req err s).1
  unfolding send_admission
  send_admission-Flow req err s = record { flow = λ m. ground arith }

  pub reject_admission-Flow :
      (req : HandlerReq) (err : Error) (s : Fifo) → Flow s (reject_admission eff req err s)
  unfolding reject_admission
  reject_admission-Flow req err s = send_admission-Flow req (some err) s

  reserve-Flow : (m : String) (s : Fifo) (r : Bool × Fifo) → Flow s r.1 → Flow s (reserve m r).1
  reserve-Flow m s (true, t) h = record { flow = h.flow }
  reserve-Flow m s (false, t) h = h

  if-Flow :
      (b : Bool) (s : Fifo) (r r' : Bool × Fifo)
      → Flow s r.1
      → Flow s r'.1
      → Flow s (if b then r else r').1
  if-Flow true s r r' h k = h
  if-Flow false s r r' h k = k

  pub admit-Flow : (cfg : Config) (req : HandlerReq) (s : Fifo) → Flow s (admit eff cfg req s).1
  unfolding admit
  admit-Flow cfg req s =
      if-Flow (leb (limit cfg req.model) (s.reserved req.model)) s _ _
        (reject_admission-Flow req concurrency_limit s)
        (reserve-Flow req.model s _ (send_admission-Flow req none s))

  pub grant_handler-Flow :
      (req : HandlerReq) (m : String) (s : Fifo) → Whenever (grant_handler eff req m s) (Flow s)
  unfolding grant_handler
  grant_handler-Flow req m s = elim (Bool-cases (eff.takes_grant s.trace req m)) [
    | inl e ↦ rw e (record { flow = λ j. ground (arith, eq_iff m j) })
    | inr e ↦
        rw e (Whenever-if (Flow s) (leb (s.reserved m) 0) _ _ tt (record { flow = λ j. refl }))
  ]

  pub grant_failure-Flow :
      (req : HandlerReq) (err : Error) (s : Fifo) → Whenever (grant_failure eff req err s) (Flow s)
  unfolding grant_failure
  grant_failure-Flow req err s =
      Whenever-bind (Flow s) (Flow s) _ _ (release-Flow req.model s)
        (λ s' h. record { flow = h.flow })

  pub queue_done-Flow : (req : HandlerReq) (s : Fifo) → Flow s (queue_done eff req s)
  unfolding queue_done
  queue_done-Flow req s = record { flow = λ m. ground arith }

  pub enqueue-Flow : (cfg : Config) (req : HandlerReq) (s : Fifo) → Flow s (enqueue eff cfg req s)
  unfolding enqueue
  enqueue-Flow cfg req s =
      let queued = insert_by_priority cfg (stamp (eff.now s.trace) req) s.queued in
      let s' = emit (queue_delta req.model (pos 1)) (record s { queued = queued }) in
      Flow-trans {s = s} {s' = s'} (record { flow = λ m. refl }) (broadcast-Flow queued s')

  module _ (planner : Swapper) (cfg : Config) where
    pub record_resident_admission-Flow :
        (m : String) (s : Fifo) → Flow s (record_resident_admission eff planner cfg m s)
    unfolding record_resident_admission
    record_resident_admission-Flow m s = record { flow = λ j. ground arith }

    promotion-Flow :
        (promote : Bool) (cold : List HandlerReq) (s : Fifo) → Flow s (promotion promote cold s)
    promotion-Flow true [] s = Flow-refl s
    promotion-Flow true (c ∷ cold) s = record { flow = λ m. refl }
    promotion-Flow false [] s = Flow-refl s
    promotion-Flow false (c ∷ cold) s = Flow-refl s

    order_pool-Flow :
        (pool : String) (policy : LifecyclePool) (out : List HandlerReq) (s : Fifo)
        → Flow s (order_pool eff planner cfg pool policy (out, s)).1
    unfolding order_pool
    order_pool-Flow pool policy out s = elim (Bool-cases policy.resident_first) [
      | inr p ↦ rw p (Flow-refl s)
      | inl p ↦ elim (Option-cases (oldest_cold eff planner cfg s pool)) [
        | inl e ↦ rw (p, e, order_pool) (Flow-refl s)
        | inr (oldest, e) ↦
            rw (p, e, order_pool)
              (promotion-Flow (must_promote eff planner cfg s pool policy oldest)
                (select_class eff planner cfg s pool true out) s)
      ]
    ]

    order_pools-Flow :
        (pools : List String) (out : List HandlerReq) (s : Fifo)
        → Flow s (order_pools eff planner cfg pools (out, s)).1
    unfolding order_pools
    order_pools-Flow [] out s = Flow-refl s
    order_pools-Flow (pool ∷ pools) out s = elim (Option-cases (lookup pool cfg.pools)) [
      | inl e ↦ rw (e, order_pools) (order_pools-Flow pools out s)
      | inr (policy, e) ↦
          rw (e, order_pools)
            (Flow-trans (order_pool-Flow pool policy out s) (order_pools-Flow pools _ _))
    ]

    pub fair_order-Flow :
        (pending : List HandlerReq) (s : Fifo) → Flow s (fair_order eff planner cfg pending s).1
    unfolding fair_order
    fair_order-Flow [] s = Flow-refl s
    fair_order-Flow (req ∷ []) s = Flow-refl s
    fair_order-Flow (req ∷ req' ∷ pending) s =
        order_pools-Flow (sort_strings (keys cfg.pools)) (req ∷ req' ∷ pending) s
