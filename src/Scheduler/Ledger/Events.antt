-- ===== src/Scheduler/Ledger/Events.antt =====
-- fifo.go: OnRequest, OnSwapDone, OnServeDone and OnUnload keep the invariant and do not panic.
use llemon_swap.Base.{
  ℕ, ◌-◌, ◌<◌, String, ◌≡◌, refl, ◌∙◌, Bool, true, false, not, ◌&&◌, Option, none, some, List, [],
  ◌∷◌, ◌++◌, arith, eq_iff, lookup, lookup-remove-some, remove, contains, is_empty, update, All,
  Bool-cases, Option-cases, inl, inr, leb, Returns, Returns-bind, Returns-map, Returns-if,
}
use llemon_swap.Scheduler.State.{
  Error, model_not_found, HandlerReq, SwapDone, Effects, Swapper, ActiveSwap, Config, Fifo,
  is_ready,
}
use llemon_swap.Scheduler.Collision.{collides_with, conflicts_with_in_flight}
use llemon_swap.Scheduler.Grant.{release, reject_admission, admit}
use llemon_swap.Scheduler.Queue.{enqueue, stamp, insert_by_priority}
use llemon_swap.Scheduler.Fairness.{running_set, should_yield_to_cold, record_resident_admission}
use llemon_swap.Scheduler.Handlers.{
  each, decide_request, place_request, if_admitted, on_request, answer, on_swap_done, on_serve_done,
}
use llemon_swap.Scheduler.Ledger.{IsFor, Inv, Step, Holds, IsConsistent, Same}
use llemon_swap.Scheduler.Ledger.Grants.{Inv-held, Inv-remove}
use llemon_swap.Scheduler.Ledger.Steps.{
  grant_failure-Step, grant_handler-Step, Admitted, admit-Admitted, count-insert_by_priority,
}
use llemon_swap.Scheduler.Ledger.Drain.{
  Holds-Same, record_resident_admission-Same, join-Holds, start_swap_for-Holds, fast_path-Holds,
  drain_queue-IsConsistent,
}

module _ (cfg : Config) (active : List (String × ActiveSwap)) (P : HandlerReq → Type 0) where
  -- A loop over held requests, whose body lets one go.
  pub each-Step :
      (body : HandlerReq → Fifo → Option Fifo)
      → ((w : HandlerReq) (held : List HandlerReq) (s : Fifo)
          → P w
          → Inv cfg (w ∷ held) active s.reserved s.in_flight
          → Returns (body w s) (Step cfg held active s))
      → (ws held : List HandlerReq) (s : Fifo) → All P ws
      → Inv cfg (ws ++ held) active s.reserved s.in_flight
      → Returns (each body ws s) (Step cfg held active s)
  unfolding each
  each-Step body one [] held s h v = record { inv = v; same_active = refl; same_queue = refl }
  each-Step body one (w ∷ ws) held s h v =
      Returns-bind (Step cfg (ws ++ held) active s) (Step cfg held active s) _ _
        (one w (ws ++ held) s h.0 v)
        (λ s' st.
          Returns-map (Step cfg held active s') _ _ (each-Step body one ws held s' h.1 st.inv)
            (λ s'' st'. record {
              inv = st'.inv;
              same_active = st'.same_active ∙ st.same_active;
              same_queue = st'.same_queue ∙ st.same_queue;
            }))

module _ (eff : Effects) (planner : Swapper) (cfg : Config) where
  enqueue-IsConsistent :
      (req : HandlerReq) (s : Fifo)
      → Holds cfg (req ∷ s.queued) s
      → IsConsistent cfg (enqueue eff cfg req s)
  unfolding enqueue
  enqueue-IsConsistent req s v =
      Inv-held cfg (stamped ∷ s.queued) (insert_by_priority cfg stamped s.queued) s.active
        s.reserved s.in_flight (λ m. count-insert_by_priority cfg [] s.active m stamped s.queued) v'
    where
      stamped : HandlerReq
      stamped = stamp (eff.now s.trace) req

      v' : Holds cfg (stamped ∷ s.queued) s
      v' =
          Inv-held cfg (req ∷ s.queued) (stamped ∷ s.queued) s.active s.reserved s.in_flight
            (λ m. refl) v

  decide_request-IsConsistent :
      (ready : Bool) (req : HandlerReq) (s : Fifo)
      → lookup req.model s.active ≡ none
      → Holds cfg (req ∷ s.queued) s
      → Returns (decide_request eff planner cfg ready req s) (IsConsistent cfg)
  unfolding decide_request
  decide_request-IsConsistent ready req s e v =
      Returns-if (IsConsistent cfg) (ready && is_empty evict && not collides) _ _
        (λ fast.
          Returns-if (IsConsistent cfg) (should_yield_to_cold eff planner cfg s req.model) _ _
            (λ _. queued)
            (λ _.
              Returns-map (Step cfg s.queued t.active t) (IsConsistent cfg) _
                (fast_path-Holds eff planner cfg req s.queued evict t (rw same.active e)
                  (rw same.active (ground arith)) (Holds-Same cfg (req ∷ s.queued) s t same v))
                (λ s' st. rw (st.same_active, st.same_queue, same.queued) st.inv)))
        (λ _.
          Returns-if (IsConsistent cfg) collides _ _ (λ _. queued)
            (λ c.
              Returns-if (IsConsistent cfg) (conflicts_with_in_flight evict s.in_flight) _ _
                (λ _. queued)
                (λ q. start_swap_for-Holds eff planner cfg req s.queued evict running s e c q v)))
    where
      running : List String
      running = running_set eff planner cfg req.model s

      evict : List String
      evict = planner.eviction_for req.model running

      collides : Bool
      collides = collides_with req.model evict s.active

      queued : IsConsistent cfg (enqueue eff cfg req s)
      queued = enqueue-IsConsistent req s v

      t : Fifo
      t = record_resident_admission eff planner cfg req.model s

      same : Same s t
      same = record_resident_admission-Same eff planner cfg req.model s

  place_request-IsConsistent :
      (ready : Bool) (req : HandlerReq) (s : Fifo)
      → Holds cfg (req ∷ s.queued) s
      → Returns (place_request eff planner cfg ready req s) (IsConsistent cfg)
  unfolding place_request
  place_request-IsConsistent ready req s v = elim (Option-cases (lookup req.model s.active)) [
    | inl e ↦ rw (e, place_request) (decide_request-IsConsistent ready req s e v)
    | inr (sw, e) ↦ rw (e, place_request) (join-Holds eff planner cfg req s.queued sw s e v)
  ]

  reject_admission-Same :
      (req : HandlerReq) (err : Error) (s : Fifo) → Same s (reject_admission eff req err s)
  unfolding reject_admission
  reject_admission-Same req err s = record {
    reserved = ground arith;
    in_flight = ground arith;
    active = ground arith;
    queued = ground arith;
  }

  if_admitted-IsConsistent :
      (ready : Bool) (req : HandlerReq) (s : Fifo) (r : Bool × Fifo)
      → Admitted cfg s.queued s.active eff req s r
      → Returns (if_admitted eff planner cfg ready req r) (IsConsistent cfg)
  if_admitted-IsConsistent ready req s (true, t) st =
      place_request-IsConsistent ready req t (rw (st.same_active, st.same_queue) st.inv)
  if_admitted-IsConsistent ready req s (false, t) st = rw (st.same_active, st.same_queue) st.inv

  Same-IsConsistent : (s s' : Fifo) → Same s s' → IsConsistent cfg s → IsConsistent cfg s'
  Same-IsConsistent s s' e v = rw (e.queued, e.active, e.reserved, e.in_flight) v

  -- A step over the swaps of its own state keeps the invariant of the queue.
  pub Step-IsConsistent : (s s' : Fifo) → Step cfg s.queued s.active s s' → IsConsistent cfg s'
  Step-IsConsistent s s' st = rw (st.same_queue, st.same_active) st.inv

  -- OnRequest does not panic, and keeps the invariant.
  pub on_request-IsConsistent :
      (req : HandlerReq) (s : Fifo)
      → IsConsistent cfg s
      → Returns (on_request eff planner cfg req s) (IsConsistent cfg)
  unfolding on_request
  on_request-IsConsistent req s v = elim (Option-cases (eff.model_state s.trace req.model)) [
    | inl e ↦
        rw (e, on_request) (Same-IsConsistent s _ (reject_admission-Same req model_not_found s) v)
    | inr (state, e) ↦
        rw (e, on_request)
          (if_admitted-IsConsistent (is_ready state) req s (admit eff cfg req s)
            (admit-Admitted cfg s.queued s.active eff req s v))
  ]

  answer-Step :
      (ev : SwapDone) (active : List (String × ActiveSwap))
      → ((i : String) (a : ActiveSwap)
          → lookup i active ≡ some a
          → contains a.evict ev.model_id ≡ false)
      → (w : HandlerReq) (held : List HandlerReq) (s : Fifo) → IsFor ev.model_id w
      → Inv cfg (w ∷ held) active s.reserved s.in_flight
      → Returns (answer eff planner cfg ev w s) (Step cfg held active s)
  answer-Step ev active free w held s own v = elim (Option-cases ev.err) [
    | inl e ↦
        rw (e, ← own) (grant_handler-Step cfg held active eff w s (λ i a h. rw own (free i a h)) v)
    | inr (err, e) ↦ rw e (grant_failure-Step cfg held active eff w err s v)
  ]

  -- OnSwapDone does not panic, and keeps the invariant.
  pub on_swap_done-IsConsistent :
      (ev : SwapDone) (s : Fifo)
      → IsConsistent cfg s
      → Returns (on_swap_done eff planner cfg ev s) (IsConsistent cfg)
  unfolding on_swap_done
  on_swap_done-IsConsistent ev s v = elim (Option-cases (lookup ev.model_id s.active)) [
    | inl e ↦ rw (e, on_swap_done) v
    | inr (sw, e) ↦
        rw (e, on_swap_done)
          (Returns-bind (Step cfg s.queued dropped t) (IsConsistent cfg) _ _
            (each-Step cfg dropped (IsFor ev.model_id) (answer eff planner cfg ev)
              (answer-Step ev dropped (λ i a h.
                let (ne, held) = lookup-remove-some ev.model_id i a s.active h in
                (v.apart i ev.model_id a sw held e ne).0))
              sw.waiters s.queued t (v.owned ev.model_id sw e)
              (Inv-remove cfg ev.model_id s.queued s.active s.reserved s.in_flight sw e v))
            (λ s' st. drain_queue-IsConsistent eff planner cfg s' (Step-IsConsistent t s' st)))
  ]
    where
      dropped : List (String × ActiveSwap)
      dropped = remove ev.model_id s.active

      t : Fifo
      t = record s { active = dropped }

  Inv-served :
      (m : String) (held : List HandlerReq) (active : List (String × ActiveSwap)) (r f : String → ℕ)
      → 0 < f m
      → Inv cfg held active r f
      → Inv cfg held active (update r m (r m - 1)) (update f m (f m - 1))
  Inv-served m held active r f h v = record {
    unique = v.unique;
    books = λ j. ground (arith, v.books j, eq_iff m j);
    within = λ j. ground (arith, v.within j, eq_iff m j);
    owned = v.owned;
    apart = v.apart;
    idle = λ i j a k l. ground (arith, v.idle i j a k l, eq_iff m j);
  }

  -- OnServeDone for a model that serves a request does not panic, and keeps the invariant.
  pub on_serve_done-IsConsistent :
      (m : String) (s : Fifo)
      → 0 < s.in_flight m
      → IsConsistent cfg s
      → Returns (on_serve_done eff planner cfg m s) (IsConsistent cfg)
  unfolding on_serve_done release
  on_serve_done-IsConsistent m s h v = elim (Bool-cases (leb (s.reserved m) 0)) [
    | inl p ↦ absurd (ground (arith, v.books m))
    | inr p ↦ rw p (
        Returns-if (IsConsistent cfg) (leb (update s.in_flight m (s.in_flight m - 1) m) 0) _ _
          (λ _. drain_queue-IsConsistent eff planner cfg _ served) (λ _. served))
  ]
    where
      served :
          Inv cfg s.queued s.active
            (update s.reserved m (s.reserved m - 1))
            (update s.in_flight m (s.in_flight m - 1))
      served = Inv-served m s.queued s.active s.reserved s.in_flight h v
