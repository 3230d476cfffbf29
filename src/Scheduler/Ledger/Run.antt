-- ===== src/Scheduler/Ledger/Run.antt =====
-- The run loop of internal/router/base.go over the handlers of fifo.go: what holds after any
-- sequence of events.
use llemon_swap.Base.{
  ◌+◌, ◌≤◌, ◌<◌, String, ◌≡◌, refl, Option, none, some, List, arith, Returns, lookup, contains,
  true, Returns-map, Option-cases, inl, inr, ◌≢◌, sym,
}
use llemon_swap.Scheduler.State.{
  HandlerReq, SwapDone, Effects, Swapper, ActiveSwap, Config, Fifo, new_fifo, limit,
}
use llemon_swap.Scheduler.Handlers.{on_request, on_cancel, on_swap_done, on_serve_done, on_unload}
use llemon_swap.Scheduler.Ledger.{count, waiting, IsConsistent}
use llemon_swap.Scheduler.Ledger.Cancel.{on_cancel-IsDone}
use llemon_swap.Scheduler.Ledger.Events.{
  on_request-IsConsistent, on_swap_done-IsConsistent, on_serve_done-IsConsistent,
}
use llemon_swap.Scheduler.Ledger.Unload.{on_unload-IsConsistent}

-- What the run loop receives; a shutdown ends it.
pub data Event : Type 0 where
  request cancel : HandlerReq → Event
  swap_done : SwapDone → Event
  serve_done : String → Event
  unload : List String → Event

-- The router reports the end of a request only for one that it serves.
abbrev pub IsPossible : Event → Fifo → Type 0
IsPossible (serve_done m) s = 0 < s.in_flight m
IsPossible _ s = Unit

module _ (eff : Effects) (planner : Swapper) (cfg : Config) where
  unfoldable pub handle : Event → Fifo → Option Fifo
  handle (request req) s = on_request eff planner cfg req s
  handle (cancel req) s = on_cancel eff planner cfg req s
  handle (swap_done ev) s = on_swap_done eff planner cfg ev s
  handle (serve_done m) s = on_serve_done eff planner cfg m s
  handle (unload targets) s = on_unload eff planner cfg targets s

  -- The states that a sequence of possible events leads to.
  pub data Reach : Fifo → Type 0 where
    start : Reach new_fifo
    next :
        {s s' : Fifo} → Reach s → (ev : Event) → IsPossible ev s → handle ev s ≡ some s' → Reach s'

  handle-IsConsistent :
      (ev : Event) (s : Fifo)
      → IsPossible ev s
      → IsConsistent cfg s
      → Returns (handle ev s) (IsConsistent cfg)
  unfolding handle
  handle-IsConsistent (request req) s p v = on_request-IsConsistent eff planner cfg req s v
  handle-IsConsistent (cancel req) s p v =
      Returns-map _ (IsConsistent cfg) _ (on_cancel-IsDone cfg eff planner req s v) (λ s' h. h.0.0)
  handle-IsConsistent (swap_done ev) s p v = on_swap_done-IsConsistent eff planner cfg ev s v
  handle-IsConsistent (serve_done m) s p v = on_serve_done-IsConsistent eff planner cfg m s p v
  handle-IsConsistent (unload targets) s p v = on_unload-IsConsistent eff planner cfg targets s v

  new_fifo-IsConsistent : IsConsistent cfg new_fifo
  unfolding new_fifo lookup
  new_fifo-IsConsistent = record {
    unique = tt;
    books = λ m. omega arith;
    within = λ m. omega arith;
    owned = λ i a h. cc;
    apart = λ i j a b h. cc;
    idle = λ i m a h. cc;
  }

  pub Reach-IsConsistent : {s : Fifo} → Reach s → IsConsistent cfg s
  Reach-IsConsistent start = new_fifo-IsConsistent
  Reach-IsConsistent (next {s} r ev p e) =
      rw e at (handle-IsConsistent ev s p (Reach-IsConsistent r))

  -- No possible event panics, after any sequence of events: `release` finds a reservation, and the
  -- handler returns a state.
  pub handle_total :
      (ev : Event) (s : Fifo) → Reach s → IsPossible ev s → (s' : Fifo) × (handle ev s ≡ some s')
  handle_total ev s r p = returned (handle ev s) (handle-IsConsistent ev s p (Reach-IsConsistent r))
    where
      returned : (o : Option Fifo) → Returns o (IsConsistent cfg) → (s' : Fifo) × (o ≡ some s')
      returned none h = absurd h
      returned (some s') h = (s', refl)

  -- After any sequence of events the reserved slots of a model are those of the requests that it
  -- serves, of its queued requests and of the callers that wait on its swap.
  pub reserved-eq :
      (s : Fifo) (m : String)
      → Reach s
      → s.reserved m ≡ s.in_flight m + count m s.queued + waiting m s.active
  reserved-eq s m r = (Reach-IsConsistent r).books m

  -- After any sequence of events the requests that a model serves, those queued for it and those
  -- that wait on its swap are together at most its concurrency limit.
  pub load-le-limit :
      (s : Fifo) (m : String)
      → Reach s
      → s.in_flight m + count m s.queued + waiting m s.active ≤ limit cfg m
  load-le-limit s m r =
      omega (arith, (Reach-IsConsistent r).books m, (Reach-IsConsistent r).within m)

  -- After any sequence of events a model that a swap in flight stops serves no request, and is the
  -- target of no other swap in flight.
  pub evicted_idle :
      (s : Fifo) (id m : String) (sw : ActiveSwap)
      → Reach s
      → lookup id s.active ≡ some sw
      → contains sw.evict m ≡ true
      → (s.in_flight m ≡ 0) × (m ≢ id → lookup m s.active ≡ none)
  evicted_idle s id m sw r h k = (
    v.idle id m sw h k,
    λ ne. elim (Option-cases (lookup m s.active)) [
      | inl e ↦ e
      | inr (other, e) ↦ cc (k, (v.apart id m sw other h e (λ p. ne (sym p))).0)
    ],
  )
    where
      v : IsConsistent cfg s
      v = Reach-IsConsistent r
