-- ===== src/Scheduler/Ledger/Cancel/Served.antt =====
-- fifo.go: OnCancel leaves the requests in flight as they are.
use llemon_swap.Base.{
  ℕ, String, ◌≡◌, refl, ◌∙◌, Bool, true, false, List, [], ◌∷◌, eqb, leb, lookup, keys, Option-cases,
  inl, inr, if◌then◌else◌, Whenever, Whenever-bind, Whenever-if, Whenever-map,
}
use llemon_swap.Scheduler.State.{HandlerReq, Effects, Swapper, Config, Fifo}
use llemon_swap.Scheduler.Grant.{release}
use llemon_swap.Scheduler.Queue.{queue_done, broadcast_queue_positions}
use llemon_swap.Scheduler.Handlers.{prune, cancel_swap, cancel_swaps, on_cancel}
use llemon_swap.Scheduler.Ledger.Drain.{queue_done-Same}

abbrev pub SameServed : Fifo → Fifo → Type 0
SameServed s s' = s'.in_flight ≡ s.in_flight

release-SameServed : (m : String) (s : Fifo) → Whenever (release m s) (SameServed s)
unfolding release
release-SameServed m s = Whenever-if (SameServed s) (leb (s.reserved m) 0) _ _ tt refl

prune-SameServed :
    (observe : HandlerReq → Fifo → Fifo)
    → ((w : HandlerReq) (s : Fifo) → SameServed s (observe w s))
    → (respond : ℕ) (reqs : List HandlerReq) (s : Fifo)
    → Whenever (prune observe respond reqs s) (λ r. SameServed s r.2)
unfolding prune
prune-SameServed observe h respond [] s = refl
prune-SameServed observe h respond (q ∷ qs) s =
    Whenever-bind (SameServed s) (λ r. SameServed s r.2) _ _
      (Whenever-if (SameServed s) (eqb q.respond respond) _ _
        (Whenever-map (SameServed (observe q s)) (SameServed s) _
          (release-SameServed q.model (observe q s)) (λ t k. k ∙ h q s))
        refl)
      (λ t k.
        Whenever-bind (λ r. SameServed t r.2) (λ r. SameServed s r.2) _ _
          (prune-SameServed observe h respond qs t) (λ r l. l ∙ k))

cancel_swap-SameServed :
    (respond : ℕ) (id : String) (removed : Bool) (s : Fifo)
    → Whenever (cancel_swap respond id (removed, s)) (λ r. SameServed s r.1)
unfolding cancel_swap
cancel_swap-SameServed respond id removed s = elim (Option-cases (lookup id s.active)) [
  | inl e ↦ rw (e, cancel_swap) refl
  | inr (sw, e) ↦
      rw (e, cancel_swap)
        (Whenever-bind (λ r. SameServed s r.2) (λ r. SameServed s r.1) _ _
          (prune-SameServed (λ w t. t) (λ w t. refl) respond sw.waiters s) (λ r k. k))
]

cancel_swaps-SameServed :
    (respond : ℕ) (ids : List String) (removed : Bool) (s : Fifo)
    → Whenever (cancel_swaps respond ids (removed, s)) (λ r. SameServed s r.1)
unfolding cancel_swaps
cancel_swaps-SameServed respond [] removed s = refl
cancel_swaps-SameServed respond (id ∷ ids) removed s =
    Whenever-bind (λ r. SameServed s r.1) (λ r. SameServed s r.1) _ _
      (cancel_swap-SameServed respond id removed s)
      (λ r k.
        Whenever-map (λ r'. SameServed r.1 r'.1) (λ r'. SameServed s r'.1) _
          (cancel_swaps-SameServed respond ids r.0 r.1) (λ r' l. l ∙ k))

module _ (eff : Effects) (planner : Swapper) (cfg : Config) where
  announced :
      (removed : Bool) (s u : Fifo)
      → SameServed s u
      → SameServed s (if removed then broadcast_queue_positions u.queued u else u)
  unfolding broadcast_queue_positions
  announced true s u h = h
  announced false s u h = h

  pub on_cancel-SameServed :
      (req : HandlerReq) (s : Fifo) → Whenever (on_cancel eff planner cfg req s) (SameServed s)
  unfolding on_cancel
  on_cancel-SameServed req s =
      Whenever-bind (λ r. SameServed s r.2) (SameServed s) _ _
        (prune-SameServed (queue_done eff) (λ w t. (queue_done-Same eff planner cfg w t).in_flight)
          req.respond s.queued s)
        (λ (kept, dequeued, t) k.
          Whenever-bind (λ r. SameServed t r.1) (SameServed s) _ _
            (cancel_swaps-SameServed req.respond (keys t.active) dequeued
              (record t { queued = kept }))
            (λ (removed, u) l. announced removed s u (l ∙ k)))
