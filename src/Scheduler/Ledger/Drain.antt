-- ===== src/Scheduler/Ledger/Drain.antt =====
-- fifo.go: the walk of the queue keeps the invariant.
use mathlib.Core.List.{append-nil}
use llemon_swap.Base.{
  String, ◌≡◌, refl, sym, ◌∙◌, Bool, true, false, not, ◌&&◌, none, some, List, [], ◌∷◌, ◌++◌, arith,
  lookup, contains, is_empty, All-append, Option-cases, inl, inr, if◌then◌else◌, Returns,
  Returns-bind, Returns-map, Returns-if, ◌>>=◌,
}
use llemon_swap.Scheduler.State.{
  model_not_found, HandlerReq, Effects, Swapper, ActiveSwap, Config, Fifo, is_ready,
}
use llemon_swap.Scheduler.Collision.{collides_with_swap, collides_with, conflicts_with_in_flight}
use llemon_swap.Scheduler.Grant.{grant_handler, grant_failure}
use llemon_swap.Scheduler.Queue.{queue_done, broadcast_queue_positions}
use llemon_swap.Scheduler.Fairness.{running_set, record_resident_admission, fair_order}
use llemon_swap.Scheduler.Handlers.{
  start_swap_for, join, drain_idle, drain_step, drain_loop, drain_queue,
}
use llemon_swap.Scheduler.Ledger.{IsFor, Step, Holds, IsConsistent, Same}
use llemon_swap.Scheduler.Ledger.Parts.{count-append, count-swap_in, collides_with-lookup}
use llemon_swap.Scheduler.Ledger.Grants.{Inv-held, Inv-rewait, Inv-start}
use llemon_swap.Scheduler.Ledger.Steps.{grant_failure-Step, grant_handler-Step}
use llemon_swap.Scheduler.Ledger.Order.{Reorders, Reorders-count, fair_order-Reorders}

pub Holds-Same :
    (cfg : Config) (held : List HandlerReq) (s s' : Fifo)
    → Same s s'
    → Holds cfg held s
    → Holds cfg held s'
Holds-Same cfg held s s' e v = rw (e.active, e.reserved, e.in_flight) v

-- A model that a new swap would not collide over is stopped by no swap in flight.
pub collides_with-free :
    (m : String) (evict : List String) (active : List (String × ActiveSwap))
    → collides_with m evict active ≡ false
    → lookup m active ≡ none
    → (i : String) (a : ActiveSwap) → lookup i active ≡ some a
    → contains a.evict m ≡ false
unfolding collides_with_swap
collides_with-free m evict active c e i a h =
    ground (arith, collides_with-lookup m i evict a active c h (λ p. cc (p, e, h)))

module _ (eff : Effects) (planner : Swapper) (cfg : Config) where
  pub queue_done-Same : (req : HandlerReq) (s : Fifo) → Same s (queue_done eff req s)
  unfolding queue_done
  queue_done-Same req s = record {
    reserved = ground arith;
    in_flight = ground arith;
    active = ground arith;
    queued = ground arith;
  }

  pub record_resident_admission-Same :
      (m : String) (s : Fifo) → Same s (record_resident_admission eff planner cfg m s)
  unfolding record_resident_admission
  record_resident_admission-Same m s = record {
    reserved = ground arith;
    in_flight = ground arith;
    active = ground arith;
    queued = ground arith;
  }

  pub Same-trans : {s s' s'' : Fifo} → Same s s' → Same s' s'' → Same s s''
  Same-trans p q = record {
    reserved = q.reserved ∙ p.reserved;
    in_flight = q.in_flight ∙ p.in_flight;
    active = q.active ∙ p.active;
    queued = q.queued ∙ p.queued;
  }

  -- What a request that waited outside of the swaps does to what is held.
  pub join-Holds :
      (req : HandlerReq) (held : List HandlerReq) (sw : ActiveSwap) (s : Fifo)
      → lookup req.model s.active ≡ some sw
      → Holds cfg (req ∷ held) s
      → Holds cfg held (join eff planner cfg req sw s)
  join-Holds req held sw s e v =
      Inv-rewait cfg req.model (req ∷ held) held s.active s.reserved s.in_flight sw
        (sw.waiters ++ req ∷ []) e
        (All-append (IsFor req.model) sw.waiters (req ∷ []) (v.owned req.model sw e) (refl, tt))
        (λ m. ground (arith, count-append m sw.waiters (req ∷ []))) v

  pub start_swap_for-Holds :
      (req : HandlerReq) (held : List HandlerReq) (evict running : List String) (s : Fifo)
      → lookup req.model s.active ≡ none
      → collides_with req.model evict s.active ≡ false
      → conflicts_with_in_flight evict s.in_flight ≡ false
      → Holds cfg (req ∷ held) s
      → Holds cfg held (start_swap_for eff planner cfg req evict running s)
  unfolding start_swap_for
  start_swap_for-Holds req held evict running s e c q v =
      Inv-start cfg req held s.active s.reserved s.in_flight evict e c q v

  pub fast_path-Holds :
      (req : HandlerReq) (held : List HandlerReq) (evict : List String) (s : Fifo)
      → lookup req.model s.active ≡ none
      → collides_with req.model evict s.active ≡ false
      → Holds cfg (req ∷ held) s
      → Returns (grant_handler eff req req.model s) (Step cfg held s.active s)
  fast_path-Holds req held evict s e c v =
      grant_handler-Step cfg held s.active eff req s
        (collides_with-free req.model evict s.active c e) v

  -- A request of the queue that is blocked is still held; the queue itself is not touched.
  abbrev pub Drained : HandlerReq → List HandlerReq → Bool × Fifo → Type 0
  Drained req held (true, s') = Holds cfg (req ∷ held) s'
  Drained req held (false, s') = Holds cfg held s'

  serve_ready-Drained :
      (req : HandlerReq) (held : List HandlerReq) (evict : List String) (s : Fifo)
      → lookup req.model s.active ≡ none
      → collides_with req.model evict s.active ≡ false
      → Holds cfg (req ∷ held) s
      → Returns
          (grant_handler eff req req.model
            (record_resident_admission eff planner cfg req.model (queue_done eff req s)))
          (λ s'. Holds cfg held s')
  serve_ready-Drained req held evict s e c v =
      Returns-map (Step cfg held t.active t) (Holds cfg held) (grant_handler eff req req.model t)
        (fast_path-Holds req held evict t (rw same.active e) (rw same.active c)
          (Holds-Same cfg (req ∷ held) s t same v))
        (λ s' st. rw st.same_active st.inv)
    where
      t : Fifo
      t = record_resident_admission eff planner cfg req.model (queue_done eff req s)

      same : Same s t
      same =
          Same-trans (queue_done-Same req s)
            (record_resident_admission-Same req.model (queue_done eff req s))

  start_swap_for-Drained :
      (req : HandlerReq) (held : List HandlerReq) (evict running : List String) (s : Fifo)
      → lookup req.model s.active ≡ none
      → collides_with req.model evict s.active ≡ false
      → conflicts_with_in_flight evict s.in_flight ≡ false
      → Holds cfg (req ∷ held) s
      → Holds cfg held (start_swap_for eff planner cfg req evict running (queue_done eff req s))
  start_swap_for-Drained req held evict running s e c q v =
      start_swap_for-Holds req held evict running (queue_done eff req s) (rw same.active e)
        (rw same.active c) (rw same.in_flight q)
        (Holds-Same cfg (req ∷ held) s (queue_done eff req s) same v)
    where
      same : Same s (queue_done eff req s)
      same = queue_done-Same req s

  drain_idle-Drained :
      (ready : Bool) (req : HandlerReq) (held : List HandlerReq) (s : Fifo)
      → lookup req.model s.active ≡ none
      → Holds cfg (req ∷ held) s
      → Returns (drain_idle eff planner cfg ready req s) (Drained req held)
  unfolding drain_idle
  drain_idle-Drained ready req held s e v =
      Returns-if (Drained req held) (ready && is_empty evict && not collides) _ _
        (λ fast.
          Returns-bind (Holds cfg held) (Drained req held) _ _
            (serve_ready-Drained req held evict s e (ground arith) v) (λ s' h. h))
        (λ _.
          Returns-if (Drained req held) collides _ _ (λ _. v)
            (λ c.
              Returns-if (Drained req held) (conflicts_with_in_flight evict s.in_flight) _ _
                (λ _. v) (λ q. start_swap_for-Drained req held evict running s e c q v)))
    where
      running : List String
      running = running_set eff planner cfg req.model s

      evict : List String
      evict = planner.eviction_for req.model running

      collides : Bool
      collides = collides_with req.model evict s.active

  drain_step-Drained :
      (req : HandlerReq) (held : List HandlerReq) (s : Fifo)
      → Holds cfg (req ∷ held) s
      → Returns (drain_step eff planner cfg req s) (Drained req held)
  unfolding drain_step
  drain_step-Drained req held s v = elim (Option-cases (eff.model_state s.trace req.model)) [
    | inl e ↦
        rw (e, drain_step)
          (Returns-bind (Step cfg held t.active t) (Drained req held)
            (grant_failure eff req model_not_found t) _
            (grant_failure-Step cfg held t.active eff req model_not_found t held_t)
            (λ s' st. rw st.same_active st.inv))
    | inr (state, e) ↦ elim (Option-cases (lookup req.model s.active)) [
      | inl e' ↦ rw (e, e', drain_step) (drain_idle-Drained (is_ready state) req held s e' v)
      | inr (sw, e') ↦ rw (e, e', drain_step) (join-Holds req held sw t (rw same.active e') held_t)
    ]
  ]
    where
      t : Fifo
      t = queue_done eff req s

      same : Same s t
      same = queue_done-Same req s

      held_t : Holds cfg (req ∷ held) t
      held_t = Holds-Same cfg (req ∷ held) s t same v

  abbrev DrainedAll : List HandlerReq → List HandlerReq × Fifo → Type 0
  DrainedAll held (remaining, s') = Holds cfg (remaining ++ held) s'

  -- The rest of the loop, after one request was drained.
  drain_rest-Drained :
      (req : HandlerReq) (pending held : List HandlerReq)
      → ((held' : List HandlerReq) (s' : Fifo)
          → Holds cfg (pending ++ held') s'
          → Returns (drain_loop eff planner cfg pending s') (DrainedAll held'))
      → (r : Bool × Fifo) → Drained req (pending ++ held) r
      → Returns
          (drain_loop eff planner cfg pending r.1 >>= λ rest.
            some (if r.0 then req ∷ rest.0 else rest.0, rest.1))
          (DrainedAll held)
  drain_rest-Drained req pending held go (true, s') d =
      Returns-bind (DrainedAll (req ∷ held)) (DrainedAll held) _ _
        (go (req ∷ held) s' (
          Inv-held cfg (req ∷ (pending ++ held)) (pending ++ req ∷ held) s'.active s'.reserved
            s'.in_flight (λ m. count-swap_in m req pending held) d))
        (λ (remaining, t) h.
          Inv-held cfg (remaining ++ req ∷ held) (req ∷ (remaining ++ held)) t.active t.reserved
            t.in_flight (λ m. sym (count-swap_in m req remaining held)) h)
  drain_rest-Drained req pending held go (false, s') d =
      Returns-bind (DrainedAll held) (DrainedAll held) _ _ (go held s' d) (λ r h. h)

  -- The requests that stay blocked are held, and the others have left for a swap, a grant or an error.
  drain_loop-Drained :
      (pending held : List HandlerReq) (s : Fifo)
      → Holds cfg (pending ++ held) s
      → Returns (drain_loop eff planner cfg pending s) (DrainedAll held)
  unfolding drain_loop
  drain_loop-Drained [] held s v = v
  drain_loop-Drained (req ∷ pending) held s v =
      Returns-bind (Drained req (pending ++ held)) (DrainedAll held)
        (drain_step eff planner cfg req s) _ (drain_step-Drained req (pending ++ held) s v)
        (drain_rest-Drained req pending held (drain_loop-Drained pending))

  drain_all-IsConsistent :
      (pending : List HandlerReq) (s : Fifo)
      → Holds cfg pending s
      → Returns
          (drain_loop eff planner cfg pending s >>= λ r.
            some (broadcast_queue_positions r.0 (record r.1 { queued = r.0 })))
          (IsConsistent cfg)
  unfolding broadcast_queue_positions
  drain_all-IsConsistent pending s v =
      Returns-bind (DrainedAll []) (IsConsistent cfg) _ _
        (drain_loop-Drained pending [] s (rw append-nil v)) (λ (remaining, t) h. rw append-nil at h)

  -- drainQueue keeps the invariant, and does not panic.
  pub drain_queue-IsConsistent :
      (s : Fifo) → IsConsistent cfg s → Returns (drain_queue eff planner cfg s) (IsConsistent cfg)
  unfolding drain_queue
  drain_queue-IsConsistent s v =
      Returns-if (IsConsistent cfg) (is_empty s.queued) _ _ (λ _. v)
        (λ _. drain_all-IsConsistent r.0 r.1 (
          Holds-Same cfg r.0 s r.1 re.same
            (Inv-held cfg s.queued r.0 s.active s.reserved s.in_flight (Reorders-count re) v)))
    where
      r : List HandlerReq × Fifo
      r = fair_order eff planner cfg s.queued s

      re : Reorders s.queued s r
      re = fair_order-Reorders eff planner cfg s.queued s
