-- ===== src/Router/Flow/Queue.antt =====
-- fifo.go: OnRequest and the walk of the queue add to the requests in flight exactly the handlers
-- that they hand out.
use llemon_swap.Base.{
  String, Bool, true, false, not, ◌&&◌, List, [], ◌∷◌, lookup, is_empty, Option-cases, inl, inr,
  refl,
}
use llemon_swap.Scheduler.State.{
  model_not_found, HandlerReq, Effects, Swapper, ActiveSwap, Config, Fifo, is_ready,
}
use llemon_swap.Scheduler.Collision.{collides_with, conflicts_with_in_flight}
use llemon_swap.Scheduler.Grant.{admit}
use llemon_swap.Scheduler.Queue.{queue_done}
use llemon_swap.Scheduler.Fairness.{running_set, should_yield_to_cold, fair_order}
use llemon_swap.Scheduler.Handlers.{
  start_swap_for, join, decide_request, place_request, if_admitted, on_request, drain_idle,
  drain_step, drain_loop, drain_queue,
}
use llemon_swap.Router.Grants.{
  Flow, Flow-refl, Flow-trans, broadcast-Flow, reject_admission-Flow, admit-Flow,
  grant_handler-Flow, grant_failure-Flow, queue_done-Flow, enqueue-Flow,
  record_resident_admission-Flow, fair_order-Flow,
}
use llemon_swap.Base.{Whenever, Whenever-bind, Whenever-if}
use llemon_swap.Router.Flow.{after-Flow}

module _ (eff : Effects) (planner : Swapper) (cfg : Config) where
  start_swap_for-Flow :
      (req : HandlerReq) (evict running : List String) (s : Fifo)
      → Flow s (start_swap_for eff planner cfg req evict running s)
  unfolding start_swap_for
  start_swap_for-Flow req evict running s = record { flow = λ m. refl }

  join-Flow :
      (req : HandlerReq) (sw : ActiveSwap) (s : Fifo) → Flow s (join eff planner cfg req sw s)
  join-Flow req sw s = record { flow = λ m. refl }

  decide_request-Flow :
      (ready : Bool) (req : HandlerReq) (s : Fifo)
      → Whenever (decide_request eff planner cfg ready req s) (Flow s)
  unfolding decide_request
  decide_request-Flow ready req s =
      Whenever-if (Flow s) (ready && is_empty evict && not collides) _ _
        (Whenever-if (Flow s) (should_yield_to_cold eff planner cfg s req.model) _ _
          (enqueue-Flow eff cfg req s)
          (after-Flow (λ t. t) _ (record_resident_admission-Flow eff planner cfg req.model s)
            (grant_handler-Flow eff req req.model _)))
        (Whenever-if (Flow s) collides _ _ (enqueue-Flow eff cfg req s) (
          Whenever-if (Flow s) (conflicts_with_in_flight evict s.in_flight) _ _
            (enqueue-Flow eff cfg req s) (start_swap_for-Flow req evict running s)))
    where
      running : List String
      running = running_set eff planner cfg req.model s

      evict : List String
      evict = planner.eviction_for req.model running

      collides : Bool
      collides = collides_with req.model evict s.active

  place_request-Flow :
      (ready : Bool) (req : HandlerReq) (s : Fifo)
      → Whenever (place_request eff planner cfg ready req s) (Flow s)
  unfolding place_request
  place_request-Flow ready req s = elim (Option-cases (lookup req.model s.active)) [
    | inl e ↦ rw (e, place_request) (decide_request-Flow ready req s)
    | inr (sw, e) ↦ rw (e, place_request) (join-Flow req sw s)
  ]

  if_admitted-Flow :
      (ready : Bool) (req : HandlerReq) (s : Fifo) (r : Bool × Fifo)
      → Flow s r.1
      → Whenever (if_admitted eff planner cfg ready req r) (Flow s)
  if_admitted-Flow ready req s (true, t) h =
      after-Flow (λ u. u) _ h (place_request-Flow ready req t)
  if_admitted-Flow ready req s (false, t) h = h

  pub on_request-Flow :
      (req : HandlerReq) (s : Fifo) → Whenever (on_request eff planner cfg req s) (Flow s)
  unfolding on_request
  on_request-Flow req s = elim (Option-cases (eff.model_state s.trace req.model)) [
    | inl e ↦ rw (e, on_request) (reject_admission-Flow eff req model_not_found s)
    | inr (state, e) ↦
        rw (e, on_request)
          (if_admitted-Flow (is_ready state) req s (admit eff cfg req s) (admit-Flow eff cfg req s))
  ]

  drain_idle-Flow :
      (ready : Bool) (req : HandlerReq) (s : Fifo)
      → Whenever (drain_idle eff planner cfg ready req s) (λ r. Flow s r.1)
  unfolding drain_idle
  drain_idle-Flow ready req s =
      Whenever-if (λ r. Flow s r.1) (ready && is_empty evict && not collides) _ _
        (Whenever-bind (Flow s) (λ r. Flow s r.1) _ _
          (after-Flow (λ u. u) _
            (Flow-trans (queue_done-Flow eff req s)
              (record_resident_admission-Flow eff planner cfg req.model (queue_done eff req s)))
            (grant_handler-Flow eff req req.model _))
          (λ t h. h))
        (Whenever-if (λ r. Flow s r.1) collides _ _ (Flow-refl s)
          (Whenever-if (λ r. Flow s r.1) (conflicts_with_in_flight evict s.in_flight) _ _
            (Flow-refl s)
            (Flow-trans (queue_done-Flow eff req s)
              (start_swap_for-Flow req evict running (queue_done eff req s)))))
    where
      running : List String
      running = running_set eff planner cfg req.model s

      evict : List String
      evict = planner.eviction_for req.model running

      collides : Bool
      collides = collides_with req.model evict s.active

  drain_step-Flow :
      (req : HandlerReq) (s : Fifo) → Whenever (drain_step eff planner cfg req s) (λ r. Flow s r.1)
  unfolding drain_step
  drain_step-Flow req s = elim (Option-cases (eff.model_state s.trace req.model)) [
    | inl e ↦
        rw (e, drain_step)
          (Whenever-bind (Flow s) (λ r. Flow s r.1) _ _
            (after-Flow (λ u. u) _ (queue_done-Flow eff req s)
              (grant_failure-Flow eff req model_not_found (queue_done eff req s)))
            (λ t h. h))
    | inr (state, e) ↦ elim (Option-cases (lookup req.model s.active)) [
      | inl e' ↦ rw (e, e', drain_step) (drain_idle-Flow (is_ready state) req s)
      | inr (sw, e') ↦
          rw (e, e', drain_step)
            (Flow-trans (queue_done-Flow eff req s) (join-Flow req sw (queue_done eff req s)))
    ]
  ]

  drain_loop-Flow :
      (pending : List HandlerReq) (s : Fifo)
      → Whenever (drain_loop eff planner cfg pending s) (λ r. Flow s r.1)
  unfolding drain_loop
  drain_loop-Flow [] s = Flow-refl s
  drain_loop-Flow (req ∷ pending) s =
      Whenever-bind (λ r. Flow s r.1) (λ r. Flow s r.1) _ _ (drain_step-Flow req s)
        (λ (blocked, t) h.
          Whenever-bind (λ r. Flow t r.1) (λ r. Flow s r.1) _ _ (drain_loop-Flow pending t)
            (λ r k. Flow-trans h k))

  pub drain_queue-Flow : (s : Fifo) → Whenever (drain_queue eff planner cfg s) (Flow s)
  unfolding drain_queue
  drain_queue-Flow s = Whenever-if (Flow s) (is_empty s.queued) _ _ (Flow-refl s) (
      Whenever-bind (λ r. Flow ordered.1 r.1) (Flow s) _ _ (drain_loop-Flow ordered.0 ordered.1)
        (λ (remaining, t) h. Flow-trans (fair_order-Flow eff planner cfg s.queued s) (
          Flow-trans h
            (record { flow = (broadcast-Flow remaining (record t { queued = remaining })).flow }))))
    where
      ordered : List HandlerReq × Fifo
      ordered = fair_order eff planner cfg s.queued s
