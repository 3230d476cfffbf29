-- ===== src/Scheduler/Ledger/Grants.antt =====
-- fifo.go: admission, grants, joins and swap starts keep the invariant.
use llemon_swap.Base.{
  ℕ, ◌+◌, ◌-◌, String, ◌≡◌, refl, ap, sym, ◌∙◌, false, none, some, List, [], ◌∷◌, ◌++◌, arith,
  eq_iff, update, lookup, insert, remove, insert-Unique, remove-Unique, lookup-insert,
  lookup-remove, lookup-insert_cases, lookup-remove-some, contains, All, inl, inr,
}
use llemon_swap.Scheduler.State.{HandlerReq, ActiveSwap, Config}
use llemon_swap.Scheduler.Collision.{collides_with_swap, collides_with, conflicts_with_in_flight}
use llemon_swap.Scheduler.Ledger.{IsFor, count, Inv}
use llemon_swap.Scheduler.Ledger.Parts.{
  count-append, count-IsFor, overlap_comm, collides_with-lookup, conflicts-contains,
}

module _ (cfg : Config) where
  -- Only the counts of the held requests matter.
  pub Inv-held :
      (held held' : List HandlerReq) (active : List (String × ActiveSwap)) (r f : String → ℕ)
      → ((m : String) → count m held ≡ count m held')
      → Inv cfg held active r f
      → Inv cfg held' active r f
  Inv-held held held' active r f e v = record {
    books = λ m. omega (arith, e m, v.books m);
    unique = v.unique;
    within = v.within;
    owned = v.owned;
    apart = v.apart;
    idle = v.idle;
  }

  -- A held request gives its slot back.
  pub Inv-release :
      (w : HandlerReq) (held : List HandlerReq) (active : List (String × ActiveSwap))
      (r f : String → ℕ)
      → Inv cfg (w ∷ held) active r f
      → Inv cfg held active (update r w.model (r w.model - 1)) f
  Inv-release w held active r f v = record {
    books = λ m. ground (arith, v.books m, eq_iff w.model m);
    unique = v.unique;
    within = λ m. ground (arith, v.within m, eq_iff w.model m);
    owned = v.owned;
    apart = v.apart;
    idle = v.idle;
  }

  -- A held request is served by a model that no swap stops.
  pub Inv-serve :
      (w : HandlerReq) (held : List HandlerReq) (active : List (String × ActiveSwap))
      (r f : String → ℕ)
      → ((i : String) (a : ActiveSwap)
          → lookup i active ≡ some a
          → contains a.evict w.model ≡ false)
      → Inv cfg (w ∷ held) active r f
      → Inv cfg held active r (update f w.model (f w.model + 1))
  Inv-serve w held active r f free v = record {
    books = λ m. ground (arith, v.books m, eq_iff w.model m);
    unique = v.unique;
    within = v.within;
    owned = v.owned;
    apart = v.apart;
    idle = λ i m a h k. ground (arith, free i a h, v.idle i m a h k, eq_iff w.model m);
  }

  -- The waiters of a swap are others, and the difference is held.
  pub Inv-rewait :
      (id : String) (held held' : List HandlerReq) (active : List (String × ActiveSwap))
      (r f : String → ℕ) (sw : ActiveSwap) (ws : List HandlerReq)
      → lookup id active ≡ some sw
      → All (IsFor id) ws
      → ((m : String) → count m held' + count m ws ≡ count m held + count m sw.waiters)
      → Inv cfg held active r f
      → Inv cfg held' (insert id (record sw { waiters = ws }) active) r f
  Inv-rewait id held held' active r f sw ws e o c v = record {
    books = λ m. ground (
      arith,
      v.books m,
      c m,
      count-IsFor id m sw.waiters (v.owned id sw e),
      count-IsFor id m ws o,
      lookup-insert id m (record sw { waiters = ws }) active,
      eq_iff id m,
    );
    unique = insert-Unique id (record sw { waiters = ws }) active v.unique;
    within = v.within;
    owned = λ i a h. elim (lookup-insert_cases id i _ a active h) [
      | inl (p, q) ↦ rw (p, q) o
      | inr (_, q) ↦ v.owned i a q
    ];
    apart = λ i j a b h k ne.
        let (a', ha, ea) = old i a h in
        let (b', hb, eb) = old j b k in rw (ea, eb) (v.apart i j a' b' ha hb ne);
    idle = λ i m a h k. let (a', ha, ea) = old i a h in v.idle i m a' ha (rw ea at k);
  }
    where
      old :
          (i : String) (a : ActiveSwap)
          → lookup i (insert id (record sw { waiters = ws }) active) ≡ some a
          → (a' : ActiveSwap) × (lookup i active ≡ some a') × (a.evict ≡ a'.evict)
      old i a h = elim (lookup-insert_cases id i _ a active h) [
        | inl (p, q) ↦ (sw, rw p e, ap (λ (x : ActiveSwap). x.evict) q)
        | inr (_, q) ↦ (a, q, refl)
      ]

  -- A held request starts a swap that collides with nothing.
  pub Inv-start :
      (w : HandlerReq) (held : List HandlerReq) (active : List (String × ActiveSwap))
      (r f : String → ℕ) (evict : List String)
      → lookup w.model active ≡ none
      → collides_with w.model evict active ≡ false
      → conflicts_with_in_flight evict f ≡ false
      → Inv cfg (w ∷ held) active r f
      → Inv cfg held
          (insert w.model (record { model_id = w.model; evict = evict; waiters = w ∷ [] }) active)
          r
          f
  unfolding collides_with_swap
  Inv-start w held active r f evict e c q v = record {
    books = λ m. ground (arith, v.books m, lookup-insert w.model m new active, eq_iff w.model m);
    unique = insert-Unique w.model new active v.unique;
    within = v.within;
    owned = λ i a h. elim (lookup-insert_cases w.model i _ a active h) [
      | inl (p, q) ↦ rw (p, q) (refl, tt)
      | inr (_, q) ↦ v.owned i a q
    ];
    apart = λ i j a b h k ne. elim (lookup-insert_cases w.model i _ a active h) [
      | inl (p, x) ↦ elim (lookup-insert_cases w.model j _ b active k) [
        | inl (p', _) ↦ absurd (ne (p ∙ sym p'))
        | inr (n, y) ↦ ground (arith, collides_with-lookup w.model j evict b active c y n)
      ]
      | inr (n, x) ↦ elim (lookup-insert_cases w.model j _ b active k) [
        | inl (p', y) ↦
            ground (
              arith,
              collides_with-lookup w.model i evict a active c x n,
              overlap_comm evict a.evict,
            )
        | inr (_, y) ↦ v.apart i j a b x y ne
      ]
    ];
    idle = λ i m a h k. elim (lookup-insert_cases w.model i _ a active h) [
      | inl (p, x) ↦ conflicts-contains m evict f q (rw x at k)
      | inr (_, x) ↦ v.idle i m a x k
    ];
  }
    where
      new : ActiveSwap
      new = record { model_id = w.model; evict = evict; waiters = w ∷ [] }

  -- The waiters of a swap that is dropped are held.
  pub Inv-remove :
      (id : String) (held : List HandlerReq) (active : List (String × ActiveSwap))
      (r f : String → ℕ) (sw : ActiveSwap)
      → lookup id active ≡ some sw
      → Inv cfg held active r f
      → Inv cfg (sw.waiters ++ held) (remove id active) r f
  Inv-remove id held active r f sw e v = record {
    books = λ m. ground (
      arith,
      v.books m,
      count-append m sw.waiters held,
      count-IsFor id m sw.waiters (v.owned id sw e),
      lookup-remove id m active,
      eq_iff id m,
    );
    unique = remove-Unique id active v.unique;
    within = v.within;
    owned = λ i a h. v.owned i a (lookup-remove-some id i a active h).1;
    apart = λ i j a b h k.
        v.apart i j a b (lookup-remove-some id i a active h).1
          (lookup-remove-some id j b active k).1;
    idle = λ i m a h. v.idle i m a (lookup-remove-some id i a active h).1;
  }
