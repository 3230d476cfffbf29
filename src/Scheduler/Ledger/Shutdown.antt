-- ===== src/Scheduler/Ledger/Shutdown.antt =====
-- fifo.go: OnShutdown answers every request that waits, and gives every waiting reservation back.
use mathlib.Core.List.{append-nil}
use llemon_swap.Base.{
  ℕ, String, ◌≡◌, refl, ap, sym, ◌∙◌, some, List, [], ◌∷◌, ◌++◌, arith, eq_iff, lookup, Bool-cases,
  Option-cases, inl, inr, Returns, Returns-bind, Returns-map,
}
use llemon_swap.Scheduler.State.{Error, HandlerReq, Effects, Swapper, ActiveSwap, Config, Fifo}
use llemon_swap.Scheduler.Grant.{grant_failure}
use llemon_swap.Scheduler.Queue.{queue_done}
use llemon_swap.Scheduler.Handlers.{each, shutdown_swaps, on_shutdown}
use llemon_swap.Scheduler.Ledger.{Inv, Step, IsConsistent}
use llemon_swap.Scheduler.Ledger.Parts.{count-append, count-IsFor}
use llemon_swap.Scheduler.Ledger.Steps.{grant_failure-Step}
use llemon_swap.Scheduler.Ledger.Drain.{queue_done-Same}
use llemon_swap.Scheduler.Ledger.Events.{each-Step}
use llemon_swap.Base.{subst, Whenever, Whenever-bind, Whenever-map, Returns-both, leb, ℕ, Option}
use llemon_swap.Scheduler.State.{Effect, grant_serve, grant_error}
use llemon_swap.Scheduler.Grant.{release}
use llemon_swap.Scheduler.Ledger.Unload.{All-Unit, refuse-Step}

-- The answers that a trace has, newest first: the handlers that were handed out, and the errors.
abbrev pub answers : List Effect → List Effect
answers [] = []
answers (grant_serve respond m taken ∷ trace) = grant_serve respond m taken ∷ answers trace
answers (grant_error respond err ∷ trace) = grant_error respond err ∷ answers trace
answers (e ∷ trace) = answers trace

-- The answers after the requests were refused, in their order.
abbrev pub refused : Error → List HandlerReq → List Effect → List Effect
refused err [] sent = sent
refused err (w ∷ ws) sent = refused err ws (grant_error w.respond err ∷ sent)

abbrev pub swap_waiters : List (String × ActiveSwap) → List HandlerReq
swap_waiters [] = []
swap_waiters ((id, sw) ∷ active) = sw.waiters ++ swap_waiters active

refused-append :
    (err : Error) (xs ys : List HandlerReq) (sent : List Effect)
    → refused err (xs ++ ys) sent ≡ refused err ys (refused err xs sent)
refused-append err [] ys sent = refl
refused-append err (x ∷ xs) ys sent = refused-append err xs ys (grant_error x.respond err ∷ sent)

-- What the refusal of requests leaves: their errors in the trace, and the queue as it was.
record Refuses (err : Error) (ws : List HandlerReq) (s s' : Fifo) : Type 0 where
  sent : answers s'.trace ≡ refused err ws (answers s.trace)
  same_queue : s'.queued ≡ s.queued

Refuses-trans :
    (err : Error) (xs ys : List HandlerReq) {s t u : Fifo}
    → Refuses err xs s t
    → Refuses err ys t u
    → Refuses err (xs ++ ys) s u
Refuses-trans err xs ys {s} p q = record {
  sent = q.sent ∙ ap (refused err ys) p.sent ∙ sym (refused-append err xs ys (answers s.trace));
  same_queue = q.same_queue ∙ p.same_queue;
}

each-Refuses :
    (err : Error) (body : HandlerReq → Fifo → Option Fifo)
    → ((w : HandlerReq) (s : Fifo) → Whenever (body w s) (Refuses err (w ∷ []) s))
    → (ws : List HandlerReq) (s : Fifo) → Whenever (each body ws s) (Refuses err ws s)
unfolding each
each-Refuses err body one [] s = record { sent = refl; same_queue = refl }
each-Refuses err body one (w ∷ ws) s =
    Whenever-bind (Refuses err (w ∷ []) s) (Refuses err (w ∷ ws) s) _ _ (one w s) (λ t h.
      Whenever-map (Refuses err ws t) (Refuses err (w ∷ ws) s) _ (each-Refuses err body one ws t)
        (λ u k. Refuses-trans err (w ∷ []) ws h k))

-- The waiters of the swaps and then the queue have had the error, each once and in this order, no
-- other answer was sent, and only served requests hold a slot.
pub record AllAnswered (err : Error) (s s' : Fifo) : Type 0 where
  pub sent : answers s'.trace ≡ refused err (swap_waiters s.active ++ s.queued) (answers s.trace)
  pub settled : (m : String) → s'.reserved m ≡ s'.in_flight m

module _ (eff : Effects) (planner : Swapper) (cfg : Config) where
  grant_failure-Refuses :
      (err : Error) (w : HandlerReq) (s : Fifo)
      → Whenever (grant_failure eff w err s) (Refuses err (w ∷ []) s)
  unfolding grant_failure release
  grant_failure-Refuses err w s = elim (Bool-cases (leb (s.reserved w.model) 0)) [
    | inl p ↦ rw p tt
    | inr p ↦ rw p (record { sent = refl; same_queue = refl })
  ]

  queue_done-answers :
      (w : HandlerReq) (s : Fifo) → answers (queue_done eff w s).trace ≡ answers s.trace
  unfolding queue_done
  queue_done-answers w s = elim (Option-cases w.queued_at) [
    | inl e ↦ rw e refl
    | inr (t, e) ↦ rw e refl
  ]

  refuse-Refuses :
      (err : Error) (w : HandlerReq) (s : Fifo)
      → Whenever (grant_failure eff w err (queue_done eff w s)) (Refuses err (w ∷ []) s)
  refuse-Refuses err w s =
      Whenever-map (Refuses err (w ∷ []) (queue_done eff w s)) (Refuses err (w ∷ []) s) _
        (grant_failure-Refuses err w (queue_done eff w s))
        (λ t h. record {
          sent = h.sent ∙ ap (refused err (w ∷ [])) (queue_done-answers w s);
          same_queue = h.same_queue ∙ (queue_done-Same eff planner cfg w s).queued;
        })

  shutdown_swaps-Refuses :
      (err : Error) (active : List (String × ActiveSwap)) (s : Fifo)
      → Whenever (shutdown_swaps eff planner cfg err active s) (Refuses err (swap_waiters active) s)
  unfolding shutdown_swaps
  shutdown_swaps-Refuses err [] s = record { sent = refl; same_queue = refl }
  shutdown_swaps-Refuses err ((id, sw) ∷ active) s =
      Whenever-bind (Refuses err sw.waiters s) (Refuses err (sw.waiters ++ swap_waiters active) s) _
        _ (each-Refuses err (λ w. grant_failure eff w err) (grant_failure-Refuses err) sw.waiters s)
        (λ t h.
          Whenever-map (Refuses err (swap_waiters active) t)
            (Refuses err (sw.waiters ++ swap_waiters active) s) _
            (shutdown_swaps-Refuses err active t)
            (λ u k. Refuses-trans err sw.waiters (swap_waiters active) h k))

  on_shutdown-Refuses :
      (err : Error) (s : Fifo)
      → Whenever
          (on_shutdown eff planner cfg err s)
          (Refuses err (swap_waiters s.active ++ s.queued) s)
  unfolding on_shutdown
  on_shutdown-Refuses err s =
      Whenever-bind (Refuses err (swap_waiters s.active) s)
        (Refuses err (swap_waiters s.active ++ s.queued) s) _ _
        (shutdown_swaps-Refuses err s.active s)
        (λ t h.
          Whenever-map (Refuses err t.queued t) (Refuses err (swap_waiters s.active ++ s.queued) s)
            _
            (each-Refuses err (λ w u. grant_failure eff w err (queue_done eff w u))
              (refuse-Refuses err) t.queued t)
            (λ u k.
              Refuses-trans err (swap_waiters s.active) s.queued h
                (subst (λ (q : List HandlerReq). Refuses err q t u) h.same_queue k)))

  -- The first swap of a map, taken off.
  Inv-tail :
      (id : String) (sw : ActiveSwap) (rest : List (String × ActiveSwap)) (held : List HandlerReq)
      (r f : String → ℕ)
      → Inv cfg held ((id, sw) ∷ rest) r f
      → Inv cfg (sw.waiters ++ held) rest r f
  unfolding lookup
  Inv-tail id sw rest held r f v = record {
    unique = v.unique.1;
    books = λ m. ground (
      arith,
      v.books m,
      v.unique.0,
      count-append m sw.waiters held,
      count-IsFor id m sw.waiters (v.owned id sw (ground (arith, eq_iff id id))),
      eq_iff id m,
    );
    within = v.within;
    owned = λ i a h. v.owned i a (later i a h);
    apart = λ i j a b h k. v.apart i j a b (later i a h) (later j b k);
    idle = λ i m a h. v.idle i m a (later i a h);
  }
    where
      later :
          (i : String) (a : ActiveSwap)
          → lookup i rest ≡ some a
          → lookup i ((id, sw) ∷ rest) ≡ some a
      later i a h = ground (arith, v.unique.0, eq_iff id i)

  shutdown_swaps-Step :
      (err : Error) (active : List (String × ActiveSwap)) (held : List HandlerReq) (s : Fifo)
      → Inv cfg held active s.reserved s.in_flight
      → Returns (shutdown_swaps eff planner cfg err active s) (Step cfg held [] s)
  unfolding shutdown_swaps
  shutdown_swaps-Step err [] held s v = record { inv = v; same_active = refl; same_queue = refl }
  shutdown_swaps-Step err ((id, sw) ∷ active) held s v =
      Returns-bind (Step cfg held active s) (Step cfg held [] s) _ _
        (each-Step cfg active (λ w. Unit) (λ w. grant_failure eff w err)
          (λ w held' t _ h. grant_failure-Step cfg held' active eff w err t h) sw.waiters held s
          (All-Unit sw.waiters) (Inv-tail id sw active held s.reserved s.in_flight v))
        (λ s' st.
          Returns-map (Step cfg held [] s') _ _ (shutdown_swaps-Step err active held s' st.inv)
            (λ s'' st'. record {
              inv = st'.inv;
              same_active = st'.same_active ∙ st.same_active;
              same_queue = st'.same_queue ∙ st.same_queue;
            }))

  abbrev IsFree : Fifo → Type 0
  IsFree s = (m : String) → s.reserved m ≡ s.in_flight m

  on_shutdown-IsFree :
      (err : Error) (s : Fifo)
      → IsConsistent cfg s
      → Returns (on_shutdown eff planner cfg err s) IsFree
  unfolding on_shutdown lookup
  on_shutdown-IsFree err s v =
      Returns-bind (Step cfg s.queued [] s) IsFree _ _
        (shutdown_swaps-Step err s.active s.queued s v)
        (λ t st.
          Returns-map (Step cfg [] [] t) IsFree _
            (each-Step cfg [] (λ w. Unit) (λ w u. grant_failure eff w err (queue_done eff w u))
              (λ w held u _ h. refuse-Step eff planner cfg [] err w held u h) t.queued [] t
              (All-Unit t.queued) (rw (append-nil, st.same_queue) st.inv))
            (λ u st' m. omega (arith, st'.inv.books m)))

  -- In a state where the invariant holds, OnShutdown does not panic, and sends the error to every
  -- request that waits on a swap or in the queue, once to each; afterwards only served requests hold a
  -- slot.
  pub on_shutdown-AllAnswered :
      (err : Error) (s : Fifo)
      → IsConsistent cfg s
      → Returns (on_shutdown eff planner cfg err s) (AllAnswered err s)
  on_shutdown-AllAnswered err s v =
      Returns-map (λ s'. IsFree s' × Refuses err (swap_waiters s.active ++ s.queued) s s')
        (AllAnswered err s) _
        (Returns-both IsFree (Refuses err (swap_waiters s.active ++ s.queued) s) _
          (on_shutdown-IsFree err s v) (on_shutdown-Refuses err s))
        (λ s' (free, h). record { sent = h.sent; settled = free })
