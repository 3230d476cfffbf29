-- ===== src/Router/Serving.antt =====
-- base.go: the scheduler's counts are those of the handlers that run.
use llemon_swap.Base.{
  Bool, false, List, [], ◌∷◌, ◌||◌, Unique, Bool-cases, if◌then◌else◌, ℕ, subst, ◌+◌, ◌≤◌, String,
  ◌≡◌, refl, true, some, arith, eq_iff, lookup, contains, inl, inr, Option,
}
use llemon_swap.Scheduler.State.{Effects, Swapper, ActiveSwap, Config, Fifo, new_fifo, limit}
use llemon_swap.Scheduler.Ledger.Run.{
  Event, request, cancel, swap_done, serve_done, unload, IsPossible, handle, Reach, start, next,
  handle_total, load-le-limit, Reach-IsConsistent, evicted_idle,
}
use llemon_swap.Router.Grants.{grants, Flow}
use llemon_swap.Base.{Whenever, Whenever-map}
use llemon_swap.Router.Flow.Handlers.{
  Ends, on_cancel-Flow, on_swap_done-Flow, on_unload-Flow, on_serve_done-Ends,
}
use llemon_swap.Router.Flow.Queue.{on_request-Flow}
use llemon_swap.Router.Loop.{Router, serving, IsSent, report, run_event, Routes, opened, received}

-- A swap in flight stops the model.
abbrev pub is_evicted : String → List (String × ActiveSwap) → Bool
is_evicted m [] = false
is_evicted m ((id, sw) ∷ active) = contains sw.evict m || is_evicted m active

is_evicted-lookup :
    (m : String) (active : List (String × ActiveSwap))
    → Unique active
    → is_evicted m active ≡ true
    → (id : String) × (sw : ActiveSwap) × (lookup id active ≡ some sw)
      × (contains sw.evict m ≡ true)
unfolding lookup
is_evicted-lookup m [] u h = cc
is_evicted-lookup m ((id, sw) ∷ active) u h = elim (Bool-cases (contains sw.evict m)) [
  | inl e ↦ (id, sw, ground (arith, eq_iff id id), e)
  | inr e ↦
      let (j, found, at, stops) = is_evicted-lookup m active u.1 (ground arith) in
      (j, found, ground (arith, eq_iff id j, u.0), stops)
]

module _ (eff : Effects) (planner : Swapper) (cfg : Config) where
  -- The scheduler's state is one of its own runs, and counts each handler that has not reported.
  record Agrees (r : Router) : Type 0 where
    reach : Reach eff planner cfg r.fifo
    count : (m : String) → r.fifo.in_flight m + r.reported m ≡ grants m r.fifo.trace

  sent-IsPossible : (ev : Event) (r : Router) → Agrees r → IsSent ev r → IsPossible ev r.fifo
  sent-IsPossible (serve_done m) r a p = omega (arith, a.count m)
  sent-IsPossible (request req) r a p = tt
  sent-IsPossible (cancel req) r a p = tt
  sent-IsPossible (swap_done ev) r a p = tt
  sent-IsPossible (unload targets) r a p = tt

  abbrev Counts : (String → ℕ) → Fifo → Type 0
  Counts reported s = (m : String) → s.in_flight m + reported m ≡ grants m s.trace

  Flow-Counts :
      (r : Router) (o : Option Fifo)
      → Agrees r
      → Whenever o (Flow r.fifo)
      → Whenever o (Counts r.reported)
  Flow-Counts r o a h =
      Whenever-map (Flow r.fifo) (Counts r.reported) o h
        (λ s k m. omega (arith, a.count m, k.flow m))

  handle-Counts :
      (ev : Event) (r : Router)
      → Agrees r
      → IsSent ev r
      → Whenever (handle eff planner cfg ev r.fifo) (Counts (report ev r.reported))
  unfolding handle
  handle-Counts (request req) r a p = Flow-Counts r _ a (on_request-Flow eff planner cfg req r.fifo)
  handle-Counts (cancel req) r a p = Flow-Counts r _ a (on_cancel-Flow eff planner cfg req r.fifo)
  handle-Counts (swap_done ev) r a p =
      Flow-Counts r _ a (on_swap_done-Flow eff planner cfg ev r.fifo)
  handle-Counts (unload targets) r a p =
      Flow-Counts r _ a (on_unload-Flow eff planner cfg targets r.fifo)
  handle-Counts (serve_done m) r a p =
      Whenever-map (Ends m r.fifo) _ _
        (on_serve_done-Ends eff planner cfg m r.fifo (omega (arith, a.count m)))
        (λ s h j. ground (arith, a.count j, h.ends j, eq_iff m j))

  -- What the run loop does with an event that was sent.
  run_event-Agrees :
      (ev : Event) (r : Router)
      → Agrees r
      → IsSent ev r
      → (r' : Router) × (run_event eff planner cfg ev r ≡ some r') × Agrees r'
  unfolding run_event
  run_event-Agrees ev r a p =
      let possible = sent-IsPossible ev r a p in
      let (s, e) = handle_total eff planner cfg ev r.fifo a.reach possible in
      (
        record { fifo = s; reported = report ev r.reported },
        rw e refl,
        record { reach = next a.reach ev possible e; count = rw e at (handle-Counts ev r a p) },
      )

  Routes-Agrees : {r : Router} → Routes eff planner cfg r → Agrees r
  unfolding new_fifo
  Routes-Agrees opened = record { reach = start; count = λ m. refl }
  Routes-Agrees (received {r} {r'} path ev p e) =
      let (t, e', a) = run_event-Agrees ev r (Routes-Agrees path) p in
      let same : t ≡ r' = cc (e', e) in subst Agrees same a

  -- The run loop returns from every event that its callers, its swaps and its handlers can send, in
  -- any order: no handler of the scheduler panics.
  pub run_event_total :
      (ev : Event) (r : Router)
      → Routes eff planner cfg r
      → IsSent ev r
      → (r' : Router) × (run_event eff planner cfg ev r ≡ some r')
  run_event_total ev r path p =
      let (r', e, a) = run_event-Agrees ev r (Routes-Agrees path) p in (r', e)

  serving-in_flight :
      (r : Router) (m : String) → Routes eff planner cfg r → serving r m ≡ r.fifo.in_flight m
  serving-in_flight r m path = omega (arith, (Routes-Agrees path).count m)

  -- After any sequence of events, the handlers of a model that run are at most its concurrency limit,
  -- and there are none while a swap in flight stops the model.
  pub serving-le-limit :
      (r : Router) (m : String)
      → Routes eff planner cfg r
      → serving r m ≤ (if is_evicted m r.fifo.active then 0 else limit cfg m)
  serving-le-limit r m path =
      let reach = (Routes-Agrees path).reach in
      elim (Bool-cases (is_evicted m r.fifo.active)) [
        | inl e ↦
            let unique = (Reach-IsConsistent eff planner cfg reach).unique in
            let (id, sw, at, stops) = is_evicted-lookup m r.fifo.active unique e in
            rw e (
              omega (
                arith,
                serving-in_flight r m path,
                (evicted_idle eff planner cfg r.fifo id m sw reach at stops).0,
              ))
        | inr e ↦ rw e (
            omega (arith, serving-in_flight r m path, load-le-limit eff planner cfg r.fifo m reach))
      ]
