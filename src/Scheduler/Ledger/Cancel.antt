-- ===== src/Scheduler/Ledger/Cancel.antt =====
-- fifo.go: OnCancel, its loops over the queue and over the swaps.
pub mod Served
use mathlib.Core.List.{append-nil}
use llemon_swap.Base.{
  leb, Whenever, Whenever-if, Returns-both, Option, none, ◌==◌, ℕ, String, ◌≡◌, refl, ap, sym, ◌∙◌,
  ◌≢◌, Bool, true, false, ◌||◌, some, List, [], ◌∷◌, ◌++◌, arith, eq_iff, eqb, lookup, insert,
  contains, lookup-insert, lookup-insert_cases, insert-insert, keys, All, Bool-cases, Option-cases,
  ◌⊎◌, inl, inr, if◌then◌else◌, Returns, Returns-bind, Returns-map, ◌>>=◌,
}
use llemon_swap.Scheduler.State.{HandlerReq, Effects, Swapper, ActiveSwap, Config, Fifo}
use llemon_swap.Scheduler.Grant.{release}
use llemon_swap.Scheduler.Queue.{queue_done, broadcast_queue_positions}
use llemon_swap.Scheduler.Handlers.{prune, cancel_swap, cancel_swaps, on_cancel}
use llemon_swap.Scheduler.Ledger.{IsFor, Inv, Step, Holds, IsConsistent, Same}
use llemon_swap.Scheduler.Ledger.Parts.{count-append, count-swap_in}
use llemon_swap.Scheduler.Ledger.Grants.{Inv-held, Inv-rewait}
use llemon_swap.Scheduler.Ledger.Steps.{release-Step}
use llemon_swap.Scheduler.Ledger.Drain.{queue_done-Same}
use llemon_swap.Scheduler.Ledger.Cancel.Served.{SameServed, on_cancel-SameServed}

-- The requests of another channel, in their order.
unfoldable pub without : ℕ → List HandlerReq → List HandlerReq
without respond [] = []
without respond (q ∷ qs) =
    let rest = without respond qs in if eqb q.respond respond then rest else q ∷ rest

without-IsFor :
    (respond : ℕ) (id : String) (qs : List HandlerReq)
    → All (IsFor id) qs
    → All (IsFor id) (without respond qs)
unfolding without
without-IsFor respond id [] h = tt
without-IsFor respond id (q ∷ qs) h = ground (arith, without-IsFor respond id qs h.1)

-- What pruning leaves: the invariant over what is kept, and the swaps and the queue as they were.
pub record Pruned (cfg : Config) (held : List HandlerReq) (active : List (String × ActiveSwap))
    (respond : ℕ) (qs : List HandlerReq) (s : Fifo) (result : List HandlerReq × Bool × Fifo)
    : Type 0 where
  pub kept : result.0 ≡ without respond qs
  pub step : Step cfg (result.0 ++ held) active s result.2

module _ (cfg : Config) (active : List (String × ActiveSwap)) (respond : ℕ) where
  module _ (observe : HandlerReq → Fifo → Fifo)
      (same : (q : HandlerReq) (s : Fifo) → Same s (observe q s)) where
    prune_one-Step :
        (q : HandlerReq) (held : List HandlerReq) (s : Fifo)
        → Inv cfg (q ∷ held) active s.reserved s.in_flight
        → Returns
            (if eqb q.respond respond then release q.model (observe q s) else some s)
            (λ s'. Step cfg (if eqb q.respond respond then held else q ∷ held) active s s')
    prune_one-Step q held s v = elim (Bool-cases (eqb q.respond respond)) [
      | inr p ↦ rw p (record { inv = v; same_active = refl; same_queue = refl })
      | inl p ↦ rw p (
          Returns-map (Step cfg held active (observe q s)) (Step cfg held active s) _
            (release-Step cfg held active q (observe q s)
              (rw ((same q s).reserved, (same q s).in_flight) v))
            (λ s' st. record {
              inv = st.inv;
              same_active = st.same_active ∙ (same q s).active;
              same_queue = st.same_queue ∙ (same q s).queued;
            }))
    ]

    pub prune-Pruned :
        (qs held : List HandlerReq) (s : Fifo)
        → Inv cfg (qs ++ held) active s.reserved s.in_flight
        → Returns (prune observe respond qs s) (Pruned cfg held active respond qs s)
    unfolding prune
    prune-Pruned [] held s v = record {
      kept = unfold without in refl;
      step = record { inv = v; same_active = refl; same_queue = refl };
    }
    prune-Pruned (q ∷ qs) held s v = elim (Bool-cases (eqb q.respond respond)) [
      | inl p ↦ rw p (
          Returns-bind (Step cfg (qs ++ held) active s) (Pruned cfg held active respond (q ∷ qs) s)
            _ _ (rw p at (prune_one-Step q (qs ++ held) s v))
            (λ s' st.
              Returns-bind (Pruned cfg held active respond qs s') _ _ _
                (prune-Pruned qs held s' st.inv)
                (λ r pr. record {
                  kept = unfold without in rw p pr.kept;
                  step = record {
                    inv = pr.step.inv;
                    same_active = pr.step.same_active ∙ st.same_active;
                    same_queue = pr.step.same_queue ∙ st.same_queue;
                  };
                })))
      | inr p ↦ rw p (
          Returns-bind (Pruned cfg (q ∷ held) active respond qs s) _ _ _
            (prune-Pruned qs (q ∷ held) s (
              Inv-held cfg (q ∷ (qs ++ held)) (qs ++ q ∷ held) active s.reserved s.in_flight
                (λ m. count-swap_in m q qs held) v))
            (λ r pr. record {
              kept = unfold without in rw p (ap (◌∷◌ q) pr.kept);
              step = record {
                inv =
                    Inv-held cfg (r.0 ++ q ∷ held) (q ∷ (r.0 ++ held)) active r.2.reserved
                      r.2.in_flight (λ m. sym (count-swap_in m q r.0 held)) pr.step.inv;
                same_active = pr.step.same_active;
                same_queue = pr.step.same_queue;
              };
            }))
    ]

without-without :
    (respond : ℕ) (qs : List HandlerReq) → without respond (without respond qs) ≡ without respond qs
unfolding without
without-without respond [] = refl
without-without respond (q ∷ qs) = elim (Bool-cases (eqb q.respond respond)) [
  | inl p ↦ rw p (without-without respond qs)
  | inr p ↦ rw (p, p) (ap (◌∷◌ q) (without-without respond qs))
]

-- A swap without the waiters of the channel; the others wait on, in their order.
abbrev pub unhook : ℕ → Option ActiveSwap → Option ActiveSwap
unhook respond none = none
unhook respond (some sw) = some (record sw { waiters = without respond sw.waiters })

unhook-unhook :
    (respond : ℕ) (o : Option ActiveSwap) → unhook respond (unhook respond o) ≡ unhook respond o
unhook-unhook respond none = refl
unhook-unhook respond (some sw) =
    ap (λ (ws : List HandlerReq). some (record sw { waiters = ws }))
      (without-without respond sw.waiters)

-- The swaps after rounds over `ids`.
abbrev pub unhooked_in : ℕ → List String → List (String × ActiveSwap) → String → Option ActiveSwap
unhooked_in respond ids active id =
    if contains ids id then unhook respond (lookup id active) else lookup id active

-- What rounds over `ids` leave: the invariant, the queue as it was, and the waiters of other channels.
record Cancelled (cfg : Config) (respond : ℕ) (ids : List String) (held : List HandlerReq)
    (s : Fifo) (result : Bool × Fifo) : Type 0 where
  holds : Holds cfg held result.1
  same_queue : result.1.queued ≡ s.queued
  unhooked : (id : String) → lookup id result.1.active ≡ unhooked_in respond ids s.active id

module _ (cfg : Config) (respond : ℕ) where
  cancel_found-Cancelled :
      (id : String) (removed : Bool) (held : List HandlerReq) (s : Fifo) (sw : ActiveSwap)
      → lookup id s.active ≡ some sw
      → Holds cfg held s
      → Returns
          (prune (λ w t. t) respond sw.waiters s >>= λ r. some (
            removed || r.1,
            record r.2 { active = insert id (record sw { waiters = r.0 }) r.2.active },
          ))
          (Cancelled cfg respond (id ∷ []) held s)
  unfolding contains
  cancel_found-Cancelled id removed held s sw e v =
      Returns-bind (Pruned cfg held emptied respond sw.waiters s)
        (Cancelled cfg respond (id ∷ []) held s) _ _
        (prune-Pruned cfg emptied respond (λ w t. t)
          (λ q t. record { reserved = refl; in_flight = refl; active = refl; queued = refl })
          sw.waiters held s
          (Inv-rewait cfg id held (sw.waiters ++ held) s.active s.reserved s.in_flight sw [] e tt
            (λ m. ground (arith, count-append m sw.waiters held)) v))
        (λ (kept, hit, t) pr. record {
          holds =
              rw
                (
                  pr.step.same_active,
                  ← insert-insert id (record sw { waiters = kept }) none_waiting s.active,
                )
                (Inv-rewait cfg id (kept ++ held) held emptied t.reserved t.in_flight none_waiting
                  kept (rw lookup-insert (ground (arith, eq_iff id id)))
                  (rw pr.kept (without-IsFor respond id sw.waiters (v.owned id sw e)))
                  (λ m. ground (arith, count-append m kept held)) pr.step.inv);
          same_queue = pr.step.same_queue;
          unhooked = λ i.
              rw (pr.step.same_active, lookup-insert id i (record sw { waiters = kept }) s.active)
                (elim (Bool-cases (id == i)) [
                  | inl p ↦ rw (p, ← (eq_iff id i).0 p, e, pr.kept) refl
                  | inr p ↦ rw p refl
                ]);
        })
    where
      none_waiting : ActiveSwap
      none_waiting = record sw { waiters = [] }

      emptied : List (String × ActiveSwap)
      emptied = insert id none_waiting s.active

  cancel_swap-Cancelled :
      (id : String) (removed : Bool) (held : List HandlerReq) (s : Fifo)
      → Holds cfg held s
      → Returns (cancel_swap respond id (removed, s)) (Cancelled cfg respond (id ∷ []) held s)
  unfolding cancel_swap contains
  cancel_swap-Cancelled id removed held s v = elim (Option-cases (lookup id s.active)) [
    | inl e ↦
        rw (e, cancel_swap)
          (record {
            holds = v;
            same_queue = refl;
            unhooked = λ i. elim (Bool-cases (id == i)) [
              | inl p ↦ rw (p, ← (eq_iff id i).0 p, e) refl
              | inr p ↦ rw p refl
            ];
          })
    | inr (sw, e) ↦ rw (e, cancel_swap) (cancel_found-Cancelled id removed held s sw e v)
  ]

  cancel_swaps-Cancelled :
      (ids : List String) (removed : Bool) (held : List HandlerReq) (s : Fifo)
      → Holds cfg held s
      → Returns (cancel_swaps respond ids (removed, s)) (Cancelled cfg respond ids held s)
  unfolding cancel_swaps contains
  cancel_swaps-Cancelled [] removed held s v = record {
    holds = v;
    same_queue = refl;
    unhooked = λ i. refl;
  }
  cancel_swaps-Cancelled (id ∷ ids) removed held s v =
      Returns-bind (Cancelled cfg respond (id ∷ []) held s)
        (Cancelled cfg respond (id ∷ ids) held s) _ _ (cancel_swap-Cancelled id removed held s v)
        (λ (r, t) c.
          Returns-map (Cancelled cfg respond ids held t) _ _
            (cancel_swaps-Cancelled ids r held t c.holds)
            (λ r' c'. record {
              holds = c'.holds;
              same_queue = c'.same_queue ∙ c.same_queue;
              unhooked = λ i. c'.unhooked i ∙ elim (Bool-cases (id == i)) [
                | inl p ↦ elim (Bool-cases (contains ids i)) [
                  | inl q ↦ rw (q, p, c.unhooked i, p) (unhook-unhook respond (lookup i s.active))
                  | inr q ↦ rw (q, p, c.unhooked i, p) refl
                ]
                | inr p ↦ rw (p, c.unhooked i, p) refl
              ];
            }))

contains-keys {ℓ} :
    {V : Type ℓ} (k : String) (m : List (String × V))
    → contains (keys m) k ≡ false
    → lookup k m ≡ none
unfolding lookup contains
contains-keys k [] h = refl
contains-keys k ((j, w) ∷ m) h = ground (arith, contains-keys k m)

-- Every swap, unhooked.
all_unhooked :
    (respond : ℕ) (active : List (String × ActiveSwap)) (id : String)
    → unhooked_in respond (keys active) active id ≡ unhook respond (lookup id active)
all_unhooked respond active id = elim (Bool-cases (contains (keys active) id)) [
  | inl p ↦ rw p refl
  | inr p ↦ rw (p, contains-keys id active p) refl
]

-- The queue of the result is the old one less the requests of the channel, each swap is as it was less
-- its waiters of the channel.
pub record IsCancelled (respond : ℕ) (s s' : Fifo) : Type 0 where
  pub dequeued : s'.queued ≡ without respond s.queued
  pub unhooked : (id : String) → lookup id s'.active ≡ unhook respond (lookup id s.active)

module _ (cfg : Config) (eff : Effects) (planner : Swapper) (req : HandlerReq) (s : Fifo)
    (v : IsConsistent cfg s) where
  abbrev IsLeft : Fifo → Type 0
  IsLeft s' = IsConsistent cfg s' × IsCancelled req.respond s s'

  announce-IsLeft :
      (removed : Bool) (u : Fifo)
      → IsLeft u
      → IsLeft (if removed then broadcast_queue_positions u.queued u else u)
  unfolding broadcast_queue_positions
  announce-IsLeft true u (h, k) = (h, record { dequeued = k.dequeued; unhooked = k.unhooked })
  announce-IsLeft false u h = h

  on_cancel-IsLeft : Returns (on_cancel eff planner cfg req s) IsLeft
  unfolding on_cancel
  on_cancel-IsLeft =
      Returns-bind (Pruned cfg [] s.active req.respond s.queued s) IsLeft _ _
        (prune-Pruned cfg s.active req.respond (queue_done eff) (queue_done-Same eff planner cfg)
          s.queued [] s (rw append-nil v))
        (λ (kept, hit, t) pr.
          Returns-bind (Cancelled cfg req.respond (keys t.active) kept (record t { queued = kept }))
            IsLeft _ _
            (cancel_swaps-Cancelled cfg req.respond (keys t.active) hit kept
              (record t { queued = kept }) (rw pr.step.same_active (rw append-nil at pr.step.inv)))
            (λ (removed, u) c. announce-IsLeft removed u (
              rw c.same_queue c.holds,
              record {
                dequeued = c.same_queue ∙ pr.kept;
                unhooked = λ i.
                    c.unhooked i
                    ∙ all_unhooked req.respond t.active i
                    ∙ ap (λ (a : List (String × ActiveSwap)). unhook req.respond (lookup i a))
                        pr.step.same_active;
              },
            )))

  abbrev IsDone : Fifo → Type 0
  IsDone s' = IsLeft s' × SameServed s s'

  -- In a state where the invariant holds, OnCancel does not panic and keeps the invariant, so that the
  -- reserved slots are again those of the requests that are left. The queue, and the waiters of each
  -- swap, are the old ones less those of the channel, in their order; the swaps themselves and the
  -- requests in flight are as they were.
  pub on_cancel-IsDone : Returns (on_cancel eff planner cfg req s) IsDone
  on_cancel-IsDone =
      Returns-both IsLeft (SameServed s) (on_cancel eff planner cfg req s) on_cancel-IsLeft
        (on_cancel-SameServed eff planner cfg req s)
