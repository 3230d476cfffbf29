-- ===== src/Scheduler/Queue/Order.antt =====
-- fifo.go, enqueue: where a request goes, and that the queue stays in priority order.
use llemon_swap.Base.{
  ◌≡◌, refl, ap, Bool, true, false, List, [], ◌∷◌, ◌++◌, arith, All, Bool-cases, inl, inr,
}
use llemon_swap.Scheduler.State.{ℤ, pos, negsuc, ltb_ℤ, HandlerReq, Effects, Config, Fifo}
use llemon_swap.Scheduler.Queue.{insert_by_priority, enqueue, stamp}

-- The priority of `a` is lower than that of `b`.
abbrev pub lower : Config → HandlerReq → HandlerReq → Bool
lower cfg a b = ltb_ℤ (cfg.priority a.model) (cfg.priority b.model)

ltb_ℤ_total : (a b : ℤ) → ltb_ℤ a b ≡ true → ltb_ℤ b a ≡ false
ltb_ℤ_total (pos a) (pos b) h = ground arith
ltb_ℤ_total (pos a) (negsuc b) h = cc
ltb_ℤ_total (negsuc a) (pos b) h = refl
ltb_ℤ_total (negsuc a) (negsuc b) h = ground arith

-- No request stands behind one of lower priority.
abbrev pub IsOrdered : Config → List HandlerReq → Type 0
IsOrdered cfg [] = Unit
IsOrdered cfg (q ∷ []) = Unit
IsOrdered cfg (q ∷ q' ∷ qs) = (lower cfg q q' ≡ false) × IsOrdered cfg (q' ∷ qs)

-- `req` stands behind the requests `before`, none of lower priority, and before all the others, which
-- are of lower priority.
pub record Inserted (cfg : Config) (req : HandlerReq) (queued result : List HandlerReq)
    : Type 0 where
  pub before : List HandlerReq
  pub behind : List HandlerReq
  pub old : queued ≡ before ++ behind
  pub new : result ≡ before ++ req ∷ behind
  pub not_lower : All (λ q. lower cfg q req ≡ false) before
  pub lower_behind : All (λ q. lower cfg q req ≡ true) behind

ltb_ℤ_later : (a b c : ℤ) → ltb_ℤ a b ≡ false → ltb_ℤ a c ≡ true → ltb_ℤ b c ≡ true
ltb_ℤ_later (pos a) (pos b) (pos c) h k = ground arith
ltb_ℤ_later (pos a) (negsuc b) (pos c) h k = refl
ltb_ℤ_later (negsuc a) (negsuc b) (negsuc c) h k = ground arith
ltb_ℤ_later (negsuc a) (negsuc b) (pos c) h k = refl
ltb_ℤ_later (negsuc a) (pos b) c h k = cc
ltb_ℤ_later (pos a) b (negsuc c) h k = cc

module _ (cfg : Config) (req : HandlerReq) where
  IsOrdered-tail :
      (q : HandlerReq) (qs : List HandlerReq) → IsOrdered cfg (q ∷ qs) → IsOrdered cfg qs
  IsOrdered-tail q [] h = tt
  IsOrdered-tail q (q' ∷ qs) h = h.1

  -- In an ordered queue all behind a request of lower priority are of lower priority.
  IsOrdered-lower :
      (q : HandlerReq) (qs : List HandlerReq)
      → IsOrdered cfg (q ∷ qs)
      → lower cfg q req ≡ true
      → All (λ q'. lower cfg q' req ≡ true) (q ∷ qs)
  IsOrdered-lower q [] h p = (p, tt)
  IsOrdered-lower q (q' ∷ qs) h p = (
    p,
    IsOrdered-lower q' qs h.1
        (ltb_ℤ_later (cfg.priority q.model) (cfg.priority q'.model) (cfg.priority req.model) h.0 p),
  )

  insert_by_priority-Inserted :
      (qs : List HandlerReq)
      → IsOrdered cfg qs
      → Inserted cfg req qs (insert_by_priority cfg req qs)
  unfolding insert_by_priority
  insert_by_priority-Inserted [] o = record {
    before = [];
    behind = [];
    old = refl;
    new = refl;
    not_lower = tt;
    lower_behind = tt;
  }
  insert_by_priority-Inserted (q ∷ qs) o = elim (Bool-cases (lower cfg q req)) [
    | inl p ↦ rw p (record {
      before = [];
      behind = q ∷ qs;
      old = refl;
      new = refl;
      not_lower = tt;
      lower_behind = IsOrdered-lower q qs o p;
    })
    | inr p ↦ rw p (
        let r = insert_by_priority-Inserted qs (IsOrdered-tail q qs o) in
        record {
          before = q ∷ r.before;
          behind = r.behind;
          old = ap (◌∷◌ q) r.old;
          new = ap (◌∷◌ q) r.new;
          not_lower = (p, r.not_lower);
          lower_behind = r.lower_behind;
        })
  ]

  insert_behind-IsOrdered :
      (q : HandlerReq) (qs : List HandlerReq)
      → lower cfg q req ≡ false
      → IsOrdered cfg (q ∷ qs)
      → IsOrdered cfg (insert_by_priority cfg req qs)
      → IsOrdered cfg (q ∷ insert_by_priority cfg req qs)
  unfolding insert_by_priority
  insert_behind-IsOrdered q [] h k l = (h, tt)
  insert_behind-IsOrdered q (x ∷ qs) h k l = ground arith

  insert_by_priority-IsOrdered :
      (qs : List HandlerReq) → IsOrdered cfg qs → IsOrdered cfg (insert_by_priority cfg req qs)
  unfolding insert_by_priority
  insert_by_priority-IsOrdered [] h = tt
  insert_by_priority-IsOrdered (q ∷ []) h =
      ground (arith, ltb_ℤ_total (cfg.priority q.model) (cfg.priority req.model))
  insert_by_priority-IsOrdered (q ∷ q' ∷ qs) h = ground (
    arith,
    ltb_ℤ_total (cfg.priority q.model) (cfg.priority req.model),
    insert_by_priority-IsOrdered (q' ∷ qs) h.1,
    insert_behind-IsOrdered q (q' ∷ qs),
  )

module _ (eff : Effects) (cfg : Config) (req : HandlerReq) (s : Fifo) where
  -- The request with its time of arrival, which a request that was queued before keeps.
  abbrev pub queued_req : HandlerReq
  queued_req = stamp (eff.now s.trace) req

  -- In a queue in priority order, a request goes behind every request of its priority or a higher
  -- one, and before every request of a lower one, and those keep their order.
  pub enqueue-Inserted :
      IsOrdered cfg s.queued → Inserted cfg queued_req s.queued (enqueue eff cfg req s).queued
  unfolding enqueue
  enqueue-Inserted h = insert_by_priority-Inserted cfg queued_req s.queued h

  -- A queue in priority order stays in priority order.
  pub enqueue-IsOrdered : IsOrdered cfg s.queued → IsOrdered cfg (enqueue eff cfg req s).queued
  unfolding enqueue
  enqueue-IsOrdered h = insert_by_priority-IsOrdered cfg queued_req s.queued h
