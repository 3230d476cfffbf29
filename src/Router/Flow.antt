-- ===== src/Router/Flow.antt =====
-- fifo.go: each loop adds to the requests in flight exactly the handlers that it hands out.
pub mod Queue
pub mod Handlers
use llemon_swap.Base.{
  ℕ, ◌-◌, String, Bool, true, false, not, ◌&&◌, none, some, List, [], ◌∷◌, ◌==◌, eqb, lookup, keys,
  remove, contains, is_empty, leb, update, Option, Option-cases, Bool-cases, inl, inr, ◌>>=◌,
  if◌then◌else◌,
}
use llemon_swap.Scheduler.State.{
  Error, model_not_found, model_unloaded, HandlerReq, SwapDone, Effects, Swapper, ActiveSwap,
  Config, Fifo, is_ready,
}
use llemon_swap.Scheduler.Collision.{collides_with, conflicts_with_in_flight}
use llemon_swap.Scheduler.Grant.{release, admit, grant_handler, grant_failure}
use llemon_swap.Scheduler.Queue.{queue_done, broadcast_queue_positions}
use llemon_swap.Scheduler.Fairness.{
  running_set, should_yield_to_cold, record_resident_admission, fair_order,
}
use llemon_swap.Scheduler.Handlers.{
  each, prune, cancel_swap, cancel_swaps, start_swap_for, join, decide_request, place_request,
  if_admitted, on_request, drain_idle, drain_step, drain_loop, drain_queue, on_cancel, answer,
  on_swap_done, on_serve_done, unload_swap, unload_queue, on_unload,
}
use llemon_swap.Router.Grants.{
  Flow, Flow-refl, Flow-trans, release-Flow, broadcast-Flow, reject_admission-Flow, admit-Flow,
  grant_handler-Flow, grant_failure-Flow, queue_done-Flow, enqueue-Flow,
  record_resident_admission-Flow, fair_order-Flow,
}
use llemon_swap.Base.{Whenever, Whenever-bind, Whenever-if, Whenever-map}

-- A step that follows another one.
pub after-Flow {ℓ} :
    {A : Type ℓ} (to : A → Fifo) {s t : Fifo} (m : Option A)
    → Flow s t
    → Whenever m (λ a. Flow t (to a))
    → Whenever m (λ a. Flow s (to a))
after-Flow to m h k = Whenever-map _ _ m k (λ a k'. Flow-trans h k')

pub bind-Flow {ℓ} :
    {A : Type ℓ} (to : A → Fifo) (s : Fifo) (m : Option Fifo) (f : Fifo → Option A)
    → Whenever m (Flow s)
    → ((t : Fifo) → Whenever (f t) (λ a. Flow t (to a)))
    → Whenever (m >>= f) (λ a. Flow s (to a))
bind-Flow to s m f h k =
    Whenever-bind (Flow s) (λ a. Flow s (to a)) m f h (λ t h'. after-Flow to (f t) h' (k t))

pub each-Flow {ℓ} :
    {A : Type ℓ} (body : A → Fifo → Option Fifo)
    → ((a : A) (s : Fifo) → Whenever (body a s) (Flow s))
    → (xs : List A) (s : Fifo) → Whenever (each body xs s) (Flow s)
unfolding each
each-Flow body h [] s = Flow-refl s
each-Flow body h (x ∷ xs) s = bind-Flow (λ t. t) s (body x s) _ (h x s) (λ t. each-Flow body h xs t)

pub prune-Flow :
    (observe : HandlerReq → Fifo → Fifo)
    → ((w : HandlerReq) (s : Fifo) → Flow s (observe w s))
    → (respond : ℕ) (reqs : List HandlerReq) (s : Fifo)
    → Whenever (prune observe respond reqs s) (λ r. Flow s r.2)
unfolding prune
prune-Flow observe h respond [] s = Flow-refl s
prune-Flow observe h respond (q ∷ qs) s =
    bind-Flow (λ (r : List HandlerReq × Bool × Fifo). r.2) s _ _
      (Whenever-if (Flow s) (eqb q.respond respond) _ _
        (after-Flow (λ t. t) _ (h q s) (release-Flow q.model (observe q s))) (Flow-refl s))
      (λ t.
        Whenever-bind (λ r. Flow t r.2) (λ r. Flow t r.2) _ _ (prune-Flow observe h respond qs t)
          (λ r k. k))

cancel_swap-Flow :
    (respond : ℕ) (id : String) (removed : Bool) (s : Fifo)
    → Whenever (cancel_swap respond id (removed, s)) (λ r. Flow s r.1)
unfolding cancel_swap
cancel_swap-Flow respond id removed s = elim (Option-cases (lookup id s.active)) [
  | inl e ↦ rw (e, cancel_swap) (Flow-refl s)
  | inr (sw, e) ↦
      rw (e, cancel_swap)
        (Whenever-bind (λ r. Flow s r.2) (λ r. Flow s r.1) _ _
          (prune-Flow (λ w t. t) (λ w t. Flow-refl t) respond sw.waiters s)
          (λ r k. record { flow = k.flow }))
]

pub cancel_swaps-Flow :
    (respond : ℕ) (ids : List String) (removed : Bool) (s : Fifo)
    → Whenever (cancel_swaps respond ids (removed, s)) (λ r. Flow s r.1)
unfolding cancel_swaps
cancel_swaps-Flow respond [] removed s = Flow-refl s
cancel_swaps-Flow respond (id ∷ ids) removed s =
    Whenever-bind (λ r. Flow s r.1) (λ r. Flow s r.1) _ _ (cancel_swap-Flow respond id removed s)
      (λ r k. after-Flow (λ r. r.1) _ k (cancel_swaps-Flow respond ids r.0 r.1))
