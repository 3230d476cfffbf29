-- ===== src/Scheduler/Ledger/Order.antt =====
-- fifo.go: the order that fairOrder gives the queue.
use llemon_swap.Base.{
  ℕ, suc, sym, ◌++◌, ◌+◌, String, ◌≡◌, refl, ◌∙◌, Bool, true, false, List, [], ◌∷◌, arith, ◌==◌,
  Bool-cases, Option-cases, inl, inr, if◌then◌else◌, length, lookup, keys, sort_strings,
  length-append,
}
use llemon_swap.Scheduler.State.{HandlerReq, Effects, Swapper, LifecyclePool, Config, Fifo}
use llemon_swap.Scheduler.Fairness.{
  pool_for, oldest_cold, must_promote, select_class, arrange, write_back, order_pool, order_pools,
  fair_order, promotion,
}
use llemon_swap.Scheduler.Ledger.{count, Same}

-- How many requests pass a test.
abbrev pub count_if : (HandlerReq → Bool) → List HandlerReq → ℕ
count_if p [] = 0
count_if p (req ∷ reqs) = let rest = count_if p reqs in if p req then suc rest else rest

count_if-append :
    (p : HandlerReq → Bool) (xs ys : List HandlerReq)
    → count_if p (xs ++ ys) ≡ count_if p xs + count_if p ys
count_if-append p [] ys = omega arith
count_if-append p (x ∷ xs) ys = ground (arith, count_if-append p xs ys)

count-count_if :
    (m : String) (reqs : List HandlerReq) → count_if (λ req. req.model == m) reqs ≡ count m reqs
count-count_if m [] = refl
count-count_if m (req ∷ reqs) = ground (arith, count-count_if m reqs)

-- The requests of a pool, which the loop takes out and writes back.
in_pool : Config → String → List HandlerReq → List HandlerReq
in_pool cfg pool [] = []
in_pool cfg pool (req ∷ out) =
    let rest = in_pool cfg pool out in if pool_for cfg req.model == pool then req ∷ rest else rest

count-nil : (p : HandlerReq → Bool) (reqs : List HandlerReq) → length reqs ≡ 0 → count_if p reqs ≡ 0
count-nil p [] h = refl
count-nil p (req ∷ reqs) h = absurd (omega arith)

count-write_back :
    (cfg : Config) (pool : String) (p : HandlerReq → Bool) (out ordered : List HandlerReq)
    → length ordered ≡ length (in_pool cfg pool out)
    → count_if p (write_back cfg pool out ordered) + count_if p (in_pool cfg pool out)
      ≡ count_if p out + count_if p ordered
unfolding write_back in_pool
count-write_back cfg pool p [] [] h = refl
count-write_back cfg pool p [] (o ∷ ordered) h = absurd (omega arith)
count-write_back cfg pool p (req ∷ out) [] h =
    omega (arith, count-nil p (in_pool cfg pool (req ∷ out)) (omega arith))
count-write_back cfg pool p (req ∷ out) (o ∷ ordered) h =
    ground (
      arith,
      count-write_back cfg pool p out ordered,
      count-write_back cfg pool p out (o ∷ ordered),
    )

count-arrange :
    (p : HandlerReq → Bool) (promote : Bool) (resident cold : List HandlerReq)
    → count_if p (arrange promote resident cold) ≡ count_if p resident + count_if p cold
unfolding arrange
count-arrange p promote resident [] = omega arith
count-arrange p true resident (c ∷ cold) = ground (arith, count_if-append p resident cold)
count-arrange p false resident (c ∷ cold) = omega (arith, count_if-append p resident (c ∷ cold))

length-arrange :
    (promote : Bool) (resident cold : List HandlerReq)
    → length (arrange promote resident cold) ≡ length resident + length cold
unfolding arrange
length-arrange promote resident [] = omega arith
length-arrange true resident (c ∷ cold) = omega (arith, length-append resident cold)
length-arrange false resident (c ∷ cold) = omega (arith, length-append resident (c ∷ cold))

-- The new order holds the same requests, each as often, and the rest of the state is as it was.
pub record Reorders (out : List HandlerReq) (s : Fifo) (result : List HandlerReq × Fifo)
    : Type 0 where
  pub counts : (p : HandlerReq → Bool) → count_if p out ≡ count_if p result.0
  pub same : Same s result.1
  pub same_bursts : result.1.resident_bursts ≡ s.resident_bursts

pub Reorders-count :
    {out : List HandlerReq} {s : Fifo} {result : List HandlerReq × Fifo}
    → Reorders out s result
    → (m : String) → count m out ≡ count m result.0
Reorders-count {out} {s} {result} re m =
    sym (count-count_if m out) ∙ re.counts (λ req. req.model == m) ∙ count-count_if m result.0

Same-refl : (s : Fifo) → Same s s
Same-refl s = record { reserved = refl; in_flight = refl; active = refl; queued = refl }

Reorders-refl : (out : List HandlerReq) (s : Fifo) → Reorders out s (out, s)
Reorders-refl out s = record { counts = λ p. refl; same = Same-refl s; same_bursts = refl }

Reorders-trans :
    {out out' : List HandlerReq} {s s' : Fifo} {r : List HandlerReq × Fifo}
    → Reorders out s (out', s')
    → Reorders out' s' r
    → Reorders out s r
Reorders-trans p q = record {
  counts = λ t. p.counts t ∙ q.counts t;
  same = record {
    reserved = q.same.reserved ∙ p.same.reserved;
    in_flight = q.same.in_flight ∙ p.same.in_flight;
    active = q.same.active ∙ p.same.active;
    queued = q.same.queued ∙ p.same.queued;
  };
  same_bursts = q.same_bursts ∙ p.same_bursts;
}

promotion-Same :
    (promote : Bool) (cold : List HandlerReq) (s : Fifo)
    → Same s (promotion promote cold s)
      × ((promotion promote cold s).resident_bursts ≡ s.resident_bursts)
promotion-Same true [] s = (Same-refl s, refl)
promotion-Same true (c ∷ cold) s =
    (record { reserved = refl; in_flight = refl; active = refl; queued = refl }, refl)
promotion-Same false [] s = (Same-refl s, refl)
promotion-Same false (c ∷ cold) s = (Same-refl s, refl)

module _ (eff : Effects) (planner : Swapper) (cfg : Config) where
  count-select_class :
      (p : HandlerReq → Bool) (pool : String) (s : Fifo) (out : List HandlerReq)
      → count_if p (select_class eff planner cfg s pool false out)
          + count_if p (select_class eff planner cfg s pool true out)
        ≡ count_if p (in_pool cfg pool out)
  unfolding select_class in_pool
  count-select_class p pool s [] = refl
  count-select_class p pool s (req ∷ out) = ground (arith, count-select_class p pool s out)

  length-select_class :
      (pool : String) (s : Fifo) (out : List HandlerReq)
      → length (select_class eff planner cfg s pool false out)
          + length (select_class eff planner cfg s pool true out)
        ≡ length (in_pool cfg pool out)
  unfolding select_class in_pool
  length-select_class pool s [] = refl
  length-select_class pool s (req ∷ out) = ground (arith, length-select_class pool s out)

  count-order_pool :
      (p : HandlerReq → Bool) (pool : String) (s : Fifo) (out : List HandlerReq) (promote : Bool)
      → let cold = select_class eff planner cfg s pool true out in
        let resident = select_class eff planner cfg s pool false out in
        count_if p out ≡ count_if p (write_back cfg pool out (arrange promote resident cold))
  count-order_pool p pool s out promote =
      let cold = select_class eff planner cfg s pool true out in
      let resident = select_class eff planner cfg s pool false out in
      omega (
        arith,
        count-write_back cfg pool p out (arrange promote resident cold)
            (length-arrange promote resident cold ∙ length-select_class pool s out),
        count-arrange p promote resident cold,
        count-select_class p pool s out,
      )

  order_pool-Reorders :
      (pool : String) (policy : LifecyclePool) (out : List HandlerReq) (s : Fifo)
      → Reorders out s (order_pool eff planner cfg pool policy (out, s))
  unfolding order_pool
  order_pool-Reorders pool policy out s = elim (Bool-cases policy.resident_first) [
    | inr p ↦ rw p (Reorders-refl out s)
    | inl p ↦ elim (Option-cases (oldest_cold eff planner cfg s pool)) [
      | inl e ↦ rw (p, e, order_pool) (Reorders-refl out s)
      | inr (oldest, e) ↦
          rw (p, e, order_pool)
            (record {
              counts = λ t.
                  count-order_pool t pool s out (must_promote eff planner cfg s pool policy oldest);
              same =
                  (promotion-Same (must_promote eff planner cfg s pool policy oldest)
                    (select_class eff planner cfg s pool true out) s).0;
              same_bursts =
                  (promotion-Same (must_promote eff planner cfg s pool policy oldest)
                    (select_class eff planner cfg s pool true out) s).1;
            })
    ]
  ]

  order_pools-Reorders :
      (pools : List String) (out : List HandlerReq) (s : Fifo)
      → Reorders out s (order_pools eff planner cfg pools (out, s))
  unfolding order_pools
  order_pools-Reorders [] out s = Reorders-refl out s
  order_pools-Reorders (pool ∷ pools) out s = elim (Option-cases (lookup pool cfg.pools)) [
    | inl e ↦ rw (e, order_pools) (order_pools-Reorders pools out s)
    | inr (policy, e) ↦
        rw (e, order_pools)
          (Reorders-trans (order_pool-Reorders pool policy out s) (order_pools-Reorders pools _ _))
  ]

  -- fairOrder only reorders: for each test the new order has as many requests that pass it as the old
  -- one, and no part of the state changes but the trace.
  pub fair_order-Reorders :
      (pending : List HandlerReq) (s : Fifo)
      → Reorders pending s (fair_order eff planner cfg pending s)
  unfolding fair_order
  fair_order-Reorders [] s = Reorders-refl [] s
  fair_order-Reorders (req ∷ []) s = Reorders-refl (req ∷ []) s
  fair_order-Reorders (req ∷ req' ∷ pending) s =
      order_pools-Reorders (sort_strings (keys cfg.pools)) (req ∷ req' ∷ pending) s
