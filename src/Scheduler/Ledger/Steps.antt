-- ===== src/Scheduler/Ledger/Steps.antt =====
-- fifo.go: release, the grants, admission and the queue keep the invariant, and never panic where
-- the request that they serve is held.
use llemon_swap.Base.{
  ℕ, ◌+◌, String, ◌≡◌, refl, Bool, true, false, Option, none, some, List, [], ◌∷◌, arith, eq_iff,
  update, lookup, contains, Bool-cases, inl, inr, leb, Returns,
}
use llemon_swap.Scheduler.State.{
  Error, concurrency_limit, HandlerReq, Effects, ActiveSwap, Config, Fifo, limit,
}
use llemon_swap.Scheduler.Grant.{
  release, reserve, send_admission, admit, grant_handler, grant_failure,
}
use llemon_swap.Scheduler.Queue.{insert_by_priority}
use llemon_swap.Scheduler.Ledger.{count, Inv, Step}
use llemon_swap.Scheduler.Ledger.Grants.{Inv-release, Inv-serve}

module _ (cfg : Config) (held : List HandlerReq) (active : List (String × ActiveSwap)) where
  -- The reservation that a held request gives back is there.
  pub release-Step :
      (w : HandlerReq) (s : Fifo)
      → Inv cfg (w ∷ held) active s.reserved s.in_flight
      → Returns (release w.model s) (Step cfg held active s)
  unfolding release
  release-Step w s v = elim (Bool-cases (leb (s.reserved w.model) 0)) [
    | inl p ↦ absurd (ground (arith, v.books w.model, eq_iff w.model w.model))
    | inr p ↦ rw p (record {
      inv = Inv-release cfg w held active s.reserved s.in_flight v;
      same_active = refl;
      same_queue = refl;
    })
  ]

  module _ (eff : Effects) where
    pub grant_failure-Step :
        (w : HandlerReq) (err : Error) (s : Fifo)
        → Inv cfg (w ∷ held) active s.reserved s.in_flight
        → Returns (grant_failure eff w err s) (Step cfg held active s)
    unfolding grant_failure release
    grant_failure-Step w err s v = elim (Bool-cases (leb (s.reserved w.model) 0)) [
      | inl p ↦ absurd (ground (arith, v.books w.model, eq_iff w.model w.model))
      | inr p ↦ rw p (record {
        inv = Inv-release cfg w held active s.reserved s.in_flight v;
        same_active = refl;
        same_queue = refl;
      })
    ]

    pub grant_handler-Step :
        (w : HandlerReq) (s : Fifo)
        → ((i : String) (a : ActiveSwap)
            → lookup i active ≡ some a
            → contains a.evict w.model ≡ false)
        → Inv cfg (w ∷ held) active s.reserved s.in_flight
        → Returns (grant_handler eff w w.model s) (Step cfg held active s)
    unfolding grant_handler release
    grant_handler-Step w s free v = elim (Bool-cases (eff.takes_grant s.trace w w.model)) [
      | inl t ↦ rw t (record {
        inv = Inv-serve cfg w held active s.reserved s.in_flight free v;
        same_active = refl;
        same_queue = refl;
      })
      | inr t ↦ rw t (elim (Bool-cases (leb (s.reserved w.model) 0)) [
        | inl p ↦ absurd (ground (arith, v.books w.model, eq_iff w.model w.model))
        | inr p ↦ rw p (record {
          inv = Inv-release cfg w held active s.reserved s.in_flight v;
          same_active = refl;
          same_queue = refl;
        })
      ])
    ]

    -- An admitted request holds a slot, within the limit; another one leaves the state as it was.
    abbrev pub Admitted : HandlerReq → Fifo → Bool × Fifo → Type 0
    Admitted req s (true, s') = Step cfg (req ∷ held) active s s'
    Admitted req s (false, s') = Step cfg held active s s'

    Inv-admit :
        (req : HandlerReq) (r f : String → ℕ)
        → leb (limit cfg req.model) (r req.model) ≡ false
        → Inv cfg held active r f
        → Inv cfg (req ∷ held) active (update r req.model (r req.model + 1)) f
    Inv-admit req r f p v = record {
      books = λ m. ground (arith, v.books m, eq_iff req.model m);
      unique = v.unique;
      within = λ m. ground (arith, v.within m, eq_iff req.model m);
      owned = v.owned;
      apart = v.apart;
      idle = v.idle;
    }

    -- A send leaves all but the trace.
    abbrev Sent : Fifo → Bool × Fifo → Type 0
    Sent s (taken, s') =
        (s'.reserved ≡ s.reserved)
        × (s'.in_flight ≡ s.in_flight)
        × (s'.active ≡ s.active)
        × (s'.queued ≡ s.queued)

    send_admission-Sent :
        (req : HandlerReq) (err : Option Error) (s : Fifo) → Sent s (send_admission eff req err s)
    unfolding send_admission
    send_admission-Sent req err s = ground arith

    frame :
        (held' : List HandlerReq) (s s' : Fifo) (taken : Bool)
        → Inv cfg held' active s.reserved s.in_flight
        → Sent s (taken, s')
        → Step cfg held' active s s'
    frame held' s s' taken v (r, f, a, q) = record {
      inv = rw (r, f) v;
      same_active = a;
      same_queue = q;
    }

    pub admit-Admitted :
        (req : HandlerReq) (s : Fifo)
        → Inv cfg held active s.reserved s.in_flight
        → Admitted req s (admit eff cfg req s)
    unfolding admit
    admit-Admitted req s v = elim (Bool-cases (leb (limit cfg req.model) (s.reserved req.model))) [
      | inl p ↦ rw p (frame held s _ false v (send_admission-Sent req (some concurrency_limit) s))
      | inr p ↦ rw p (reserved p (send_admission eff req none s) (send_admission-Sent req none s))
    ]
      where
        reserved :
            leb (limit cfg req.model) (s.reserved req.model) ≡ false
            → (r : Bool × Fifo) → Sent s r
            → Admitted req s (reserve req.model r)
        reserved p (true, t) (r, f, a, q) = record {
          inv = rw (r, f) (Inv-admit req s.reserved s.in_flight p v);
          same_active = a;
          same_queue = q;
        }
        reserved p (false, t) sent = frame held s t false v sent

  -- Where a request stands in the queue does not matter.
  pub count-insert_by_priority :
      (m : String) (req : HandlerReq) (q : List HandlerReq)
      → count m (req ∷ q) ≡ count m (insert_by_priority cfg req q)
  unfolding insert_by_priority
  count-insert_by_priority m req [] = refl
  count-insert_by_priority m req (x ∷ q) = ground (arith, count-insert_by_priority m req q)
