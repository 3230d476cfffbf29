-- ===== src/Scheduler/Ledger/Unload.antt =====
-- fifo.go: OnUnload keeps the invariant.
use mathlib.Core.List.{append-nil}
use llemon_swap.Base.{
  String, ◌≡◌, refl, ap, sym, ◌∙◌, List, [], ◌∷◌, ◌++◌, lookup, remove, contains, All, Bool-cases,
  Option-cases, inl, inr, if◌then◌else◌, Returns, Returns-bind, Returns-map,
}
use llemon_swap.Scheduler.State.{
  Error, model_unloaded, HandlerReq, Effects, Swapper, ActiveSwap, Config, Fifo,
}
use llemon_swap.Scheduler.Grant.{grant_failure}
use llemon_swap.Scheduler.Queue.{queue_done}
use llemon_swap.Scheduler.Handlers.{each, unload_swap, unload_queue, on_unload}
use llemon_swap.Scheduler.Ledger.{Inv, Step, Holds, IsConsistent, Same}
use llemon_swap.Scheduler.Ledger.Parts.{count-swap_in}
use llemon_swap.Scheduler.Ledger.Grants.{Inv-held, Inv-remove}
use llemon_swap.Scheduler.Ledger.Steps.{grant_failure-Step}
use llemon_swap.Scheduler.Ledger.Drain.{queue_done-Same, drain_queue-IsConsistent}
use llemon_swap.Scheduler.Ledger.Events.{each-Step}

pub All-Unit : (ws : List HandlerReq) → All (λ w. Unit {0}) ws
All-Unit [] = tt
All-Unit (w ∷ ws) = (tt, All-Unit ws)

module _ (eff : Effects) (planner : Swapper) (cfg : Config) where
  -- A queued request that is refused.
  pub refuse-Step :
      (active : List (String × ActiveSwap)) (err : Error) (w : HandlerReq) (held : List HandlerReq)
      (s : Fifo)
      → Inv cfg (w ∷ held) active s.reserved s.in_flight
      → Returns (grant_failure eff w err (queue_done eff w s)) (Step cfg held active s)
  refuse-Step active err w held s v =
      Returns-map (Step cfg held active (queue_done eff w s)) (Step cfg held active s) _
        (grant_failure-Step cfg held active eff w err (queue_done eff w s)
          (rw (same.reserved, same.in_flight) v))
        (λ s' st. record {
          inv = st.inv;
          same_active = st.same_active ∙ same.active;
          same_queue = st.same_queue ∙ same.queued;
        })
    where
      same : Same s (queue_done eff w s)
      same = queue_done-Same eff planner cfg w s

  unload_swap-IsConsistent :
      (id : String) (s : Fifo)
      → IsConsistent cfg s
      → Returns (unload_swap eff planner cfg id s) (IsConsistent cfg)
  unfolding unload_swap
  unload_swap-IsConsistent id s v = elim (Option-cases (lookup id s.active)) [
    | inl e ↦ rw (e, unload_swap) v
    | inr (sw, e) ↦
        rw (e, unload_swap)
          (Returns-bind (Step cfg s.queued (remove id s.active) s) (IsConsistent cfg) _ _
            (each-Step cfg (remove id s.active) (λ w. Unit)
              (λ w. grant_failure eff w model_unloaded)
              (λ w held t _ h.
                grant_failure-Step cfg held (remove id s.active) eff w model_unloaded t h)
              sw.waiters s.queued s (All-Unit sw.waiters)
              (Inv-remove cfg id s.queued s.active s.reserved s.in_flight sw e v))
            (λ s' st. rw (st.same_queue, st.same_active) st.inv))
  ]

  unload_swaps-IsConsistent :
      (targets : List String) (s : Fifo)
      → IsConsistent cfg s
      → Returns (each (unload_swap eff planner cfg) targets s) (IsConsistent cfg)
  unfolding each
  unload_swaps-IsConsistent [] s v = v
  unload_swaps-IsConsistent (id ∷ targets) s v =
      Returns-bind (IsConsistent cfg) (IsConsistent cfg) _ _ (unload_swap-IsConsistent id s v)
        (λ s' h. unload_swaps-IsConsistent targets s' h)

  -- The queued requests for other models.
  unfoldable pub for_others : List String → List HandlerReq → List HandlerReq
  for_others targets [] = []
  for_others targets (w ∷ ws) =
      let rest = for_others targets ws in if contains targets w.model then rest else w ∷ rest

  record Unloaded (targets : List String) (ws held : List HandlerReq) (s : Fifo)
      (r : List HandlerReq × Fifo) : Type 0 where
    kept : r.0 ≡ for_others targets ws
    step : Step cfg (r.0 ++ held) s.active s r.1

  unload_queue-Unloaded :
      (targets : List String) (ws held : List HandlerReq) (s : Fifo)
      → Holds cfg (ws ++ held) s
      → Returns (unload_queue eff planner cfg targets ws s) (Unloaded targets ws held s)
  unfolding unload_queue for_others
  unload_queue-Unloaded targets [] held s v = record {
    kept = refl;
    step = record { inv = v; same_active = refl; same_queue = refl };
  }
  unload_queue-Unloaded targets (w ∷ ws) held s v = elim (Bool-cases (contains targets w.model)) [
    | inl p ↦ rw p (
        Returns-bind (Step cfg (ws ++ held) s.active s) (Unloaded targets (w ∷ ws) held s) _ _
          (refuse-Step s.active model_unloaded w (ws ++ held) s v)
          (λ s' st.
            Returns-bind (Unloaded targets ws held s') _ _ _
              (unload_queue-Unloaded targets ws held s' (rw st.same_active st.inv))
              (λ r u. record {
                kept = rw p u.kept;
                step = record {
                  inv = rw st.same_active at u.step.inv;
                  same_active = u.step.same_active ∙ st.same_active;
                  same_queue = u.step.same_queue ∙ st.same_queue;
                };
              })))
    | inr p ↦ rw p (
        Returns-bind (Unloaded targets ws (w ∷ held) s) _ _ _
          (unload_queue-Unloaded targets ws (w ∷ held) s (
            Inv-held cfg (w ∷ (ws ++ held)) (ws ++ w ∷ held) s.active s.reserved s.in_flight
              (λ m. count-swap_in m w ws held) v))
          (λ r u. record {
            kept = rw p (ap (◌∷◌ w) u.kept);
            step = record {
              inv =
                  Inv-held cfg (r.0 ++ w ∷ held) (w ∷ (r.0 ++ held)) s.active r.1.reserved
                    r.1.in_flight (λ m. sym (count-swap_in m w r.0 held)) u.step.inv;
              same_active = u.step.same_active;
              same_queue = u.step.same_queue;
            };
          }))
  ]

  -- OnUnload does not panic, and keeps the invariant.
  pub on_unload-IsConsistent :
      (targets : List String) (s : Fifo)
      → IsConsistent cfg s
      → Returns (on_unload eff planner cfg targets s) (IsConsistent cfg)
  unfolding on_unload
  on_unload-IsConsistent targets s v =
      Returns-bind (IsConsistent cfg) (IsConsistent cfg) _ _ (unload_swaps-IsConsistent targets s v)
        (λ t h.
          Returns-bind (Unloaded targets t.queued [] t) (IsConsistent cfg) _ _
            (unload_queue-Unloaded targets t.queued [] t (rw append-nil h))
            (λ (kept, u) w.
              drain_queue-IsConsistent eff planner cfg _
                (rw w.step.same_active (rw append-nil at w.step.inv))))
