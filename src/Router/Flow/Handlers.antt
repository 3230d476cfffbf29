-- ===== src/Router/Flow/Handlers.antt =====
-- base.go, run: each event adds to the requests in flight exactly the handlers that it hands out.
use llemon_swap.Base.{
  ◌-◌, String, Bool, true, false, List, [], ◌∷◌, ◌==◌, lookup, keys, remove, contains, leb, update,
  Option-cases, inl, inr, refl, if◌then◌else◌,
}
use llemon_swap.Scheduler.State.{
  model_unloaded, HandlerReq, SwapDone, Effects, Swapper, Config, Fifo,
}
use llemon_swap.Scheduler.Grant.{grant_failure}
use llemon_swap.Scheduler.Queue.{queue_done, broadcast_queue_positions}
use llemon_swap.Scheduler.Handlers.{
  on_cancel, answer, on_swap_done, on_serve_done, unload_swap, unload_queue, on_unload,
}
use llemon_swap.Router.Grants.{
  Flow, Flow-refl, Flow-trans, release-Flow, broadcast-Flow, grant_handler-Flow, grant_failure-Flow,
  queue_done-Flow,
}
use llemon_swap.Base.{Whenever, Whenever-bind, Whenever-if, Whenever-map}
use llemon_swap.Base.{◌+◌, ◌<◌, ◌≡◌, arith, eq_iff}
use llemon_swap.Router.Grants.{grants}
use llemon_swap.Router.Flow.{after-Flow, bind-Flow, each-Flow, prune-Flow, cancel_swaps-Flow}
use llemon_swap.Router.Flow.Queue.{drain_queue-Flow}

-- The end of a request that was in flight, and what follows.
pub record Ends (m : String) (s s' : Fifo) : Type 0 where
  pub ends :
      (j : String)
      → s'.in_flight j + grants j s.trace + (if m == j then 1 else 0)
        ≡ s.in_flight j + grants j s'.trace

module _ (eff : Effects) (planner : Swapper) (cfg : Config) where
  pub on_cancel-Flow :
      (req : HandlerReq) (s : Fifo) → Whenever (on_cancel eff planner cfg req s) (Flow s)
  unfolding on_cancel
  on_cancel-Flow req s =
      Whenever-bind (λ r. Flow s r.2) (Flow s) _ _
        (prune-Flow (queue_done eff) (queue_done-Flow eff) req.respond s.queued s)
        (λ (kept, dequeued, t) h.
          Whenever-bind (λ r. Flow t r.1) (Flow s) _ _
            (after-Flow (λ r. r.1) _ (record { flow = λ m. refl })
              (cancel_swaps-Flow req.respond (keys t.active) dequeued (record t { queued = kept })))
            (λ (removed, u) k. announced removed u (Flow-trans h k)))
    where
      announced :
          (removed : Bool) (u : Fifo)
          → Flow s u
          → Flow s (if removed then broadcast_queue_positions u.queued u else u)
      announced true u h = Flow-trans h (broadcast-Flow u.queued u)
      announced false u h = h

  answer-Flow :
      (ev : SwapDone) (w : HandlerReq) (s : Fifo)
      → Whenever (answer eff planner cfg ev w s) (Flow s)
  answer-Flow ev w s = elim (Option-cases ev.err) [
    | inl e ↦ rw e (grant_handler-Flow eff w ev.model_id s)
    | inr (err, e) ↦ rw e (grant_failure-Flow eff w err s)
  ]

  pub on_swap_done-Flow :
      (ev : SwapDone) (s : Fifo) → Whenever (on_swap_done eff planner cfg ev s) (Flow s)
  unfolding on_swap_done
  on_swap_done-Flow ev s = elim (Option-cases (lookup ev.model_id s.active)) [
    | inl e ↦ rw (e, on_swap_done) (Flow-refl s)
    | inr (sw, e) ↦
        rw (e, on_swap_done)
          (bind-Flow (λ t. t) s _ _
            (after-Flow (λ t. t) _ (record { flow = λ m. refl })
              (each-Flow (answer eff planner cfg ev) (answer-Flow ev) sw.waiters
                (record s { active = remove ev.model_id s.active })))
            (drain_queue-Flow eff planner cfg))
  ]

  unload_swap-Flow : (id : String) (s : Fifo) → Whenever (unload_swap eff planner cfg id s) (Flow s)
  unfolding unload_swap
  unload_swap-Flow id s = elim (Option-cases (lookup id s.active)) [
    | inl e ↦ rw (e, unload_swap) (Flow-refl s)
    | inr (sw, e) ↦
        rw (e, unload_swap)
          (Whenever-bind (Flow s) (Flow s) _ _
            (each-Flow (λ w. grant_failure eff w model_unloaded)
              (λ w. grant_failure-Flow eff w model_unloaded) sw.waiters s)
            (λ t h. record { flow = h.flow }))
  ]

  unload_queue-Flow :
      (targets : List String) (ws : List HandlerReq) (s : Fifo)
      → Whenever (unload_queue eff planner cfg targets ws s) (λ r. Flow s r.1)
  unfolding unload_queue
  unload_queue-Flow targets [] s = Flow-refl s
  unload_queue-Flow targets (w ∷ ws) s =
      bind-Flow (λ (r : List HandlerReq × Fifo). r.1) s _ _
        (Whenever-if (Flow s) (contains targets w.model) _ _
          (after-Flow (λ t. t) _ (queue_done-Flow eff w s)
            (grant_failure-Flow eff w model_unloaded (queue_done eff w s)))
          (Flow-refl s))
        (λ t.
          Whenever-bind (λ r. Flow t r.1) (λ r. Flow t r.1) _ _ (unload_queue-Flow targets ws t)
            (λ r k. k))

  pub on_unload-Flow :
      (targets : List String) (s : Fifo) → Whenever (on_unload eff planner cfg targets s) (Flow s)
  unfolding on_unload
  on_unload-Flow targets s =
      bind-Flow (λ t. t) s _ _ (each-Flow (unload_swap eff planner cfg) unload_swap-Flow targets s)
        (λ t.
          Whenever-bind (λ r. Flow t r.1) (Flow t) _ _ (unload_queue-Flow targets t.queued t)
            (λ (kept, u) h.
              after-Flow (λ v. v) _ (record { flow = h.flow })
                (drain_queue-Flow eff planner cfg _)))

  pub on_serve_done-Ends :
      (m : String) (s : Fifo)
      → 0 < s.in_flight m
      → Whenever (on_serve_done eff planner cfg m s) (Ends m s)
  unfolding on_serve_done
  on_serve_done-Ends m s p =
      Whenever-bind (Ends m s) (Ends m s) _ _
        (Whenever-map (Flow t) (Ends m s) _ (release-Flow m t)
          (λ u h. record { ends = λ j. ground (arith, h.flow j, eq_iff m j) }))
        (λ u h.
          Whenever-if (Ends m s) (leb (u.in_flight m) 0) _ _
            (Whenever-map (Flow u) (Ends m s) _ (drain_queue-Flow eff planner cfg u)
              (λ v k. record { ends = λ j. omega (arith, h.ends j, k.flow j) }))
            h)
    where
      t : Fifo
      t = record s { in_flight = update s.in_flight m (s.in_flight m - 1) }
