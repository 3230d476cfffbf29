-- ===== src/Cache/Room.antt =====
-- internal/cache/cache.go: the bound on the size, and which entries make room.
pub mod Evict
use llemon_swap.Base.{
  ℕ, zero, suc, ◌+◌, ◌≤◌, ◌<◌, ◌≡◌, refl, sym, ◌∙◌, ap, true, false, Option, none, some, List, [],
  ◌∷◌, ◌++◌, arith, ltb, eqb, length, drop, Returns, Bool-cases, Option-cases, ◌⊎◌, inl, inr,
}
use llemon_swap.Cache.{
  Cache, store, new_cache, remove_order, replace_old, evict_one, evict_oldest, add, Call, add_entry,
  clear_all, step, run,
}
use llemon_swap.Cache.Accounts.{
  size_of, total, member, IsDistinct, IsKept, IsValid, member-append, member-remove_order,
  remove_order-IsDistinct, append-IsDistinct, total-same, total-remove_order, total-append,
  remove_order-absent, member-drop,
}
use llemon_swap.Cache.Room.Evict.{IsKeptBut, replace_old-IsKeptBut, IsRoom, evict_oldest-IsRoom}

-- The state with one id left out of the accounts.
pub record IsAdded (id : ℕ) (bytes : List ℕ) (c c' : Cache) : Type 0 where
  pub valid : IsValid c'
  pub holds : c'.items id ≡ some bytes
  pub dropped : ℕ
  pub ordered : c'.order ≡ drop dropped (remove_order id c.order) ++ id ∷ []
  pub needed :
      (n : ℕ)
      → n < dropped
      → c.max_size < total c.items (drop n (remove_order id c.order)) + length bytes
  pub same : (j : ℕ) → eqb id j ≡ false → member j c'.order ≡ true → c'.items j ≡ c.items j

replace_old-rest :
    (id : ℕ) (c : Cache)
    → IsKept c.items c.order c.size
    → ((replace_old id c).items ≡ c.items)
      × ((replace_old id c).order ≡ remove_order id c.order)
      × ((replace_old id c).max_size ≡ c.max_size)
unfolding replace_old
replace_old-rest id c h = elim (Option-cases (c.items id)) [
  | inl e ↦
      rw (e, replace_old)
        (refl, sym (remove_order-absent id c.order (ground (arith, h.listed id, e))), refl)
  | inr (old, e) ↦ rw (e, replace_old) (refl, refl, refl)
]

-- The new entry goes in where there is room.
appended-IsValid :
    (id : ℕ) (bytes : List ℕ) (c : Cache)
    → IsKeptBut id c
    → c.size + length bytes ≤ c.max_size
    → IsValid (record c {
      items = store c.items id (some bytes);
      order = c.order ++ id ∷ [];
      size = c.size + length bytes;
    })
appended-IsValid id bytes c h k = record {
  kept = record {
    distinct = append-IsDistinct c.order id h.distinct (ground (arith, h.listed id));
    listed = λ j. ground (arith, h.listed j, member-append j c.order id);
    counted =
        let new = store c.items id (some bytes) in
        let others =
          total-same (store c.items id none) new c.order (λ j m. ground (arith, h.listed j)) in
        let last : size_of (new id) ≡ length bytes = ground arith in
        omega (arith, h.counted, others, total-append new c.order id, last);
  };
  within = k;
}

-- An entry that fits is added, where the cache is in order.
pub add-IsAdded :
    (id : ℕ) (bytes : List ℕ) (c : Cache)
    → IsValid c
    → length bytes ≤ c.max_size
    → Returns (add id bytes c) (IsAdded id bytes c)
unfolding add
add-IsAdded id bytes c h k =
    let old = replace_old id c in
    let (items, order, max) = replace_old-rest id c h.kept in
    let fits : ltb c.max_size (length bytes) ≡ false = ground arith in
    let r =
      evict_oldest-IsRoom id (length bytes) old.order old (replace_old-IsKeptBut id c h.kept)
        (rw max k) in
    rw fits (record {
      valid =
          appended-IsValid id bytes (evict_oldest (length bytes) old.order old) r.kept
            (omega (arith, r.room, r.same_max));
      holds = ground arith;
      dropped = r.dropped;
      ordered = ap (λ o. o ++ id ∷ []) (r.ordered ∙ ap (drop r.dropped) order);
      needed = λ n q.
          let rest : IsDistinct (remove_order id c.order) =
            remove_order-IsDistinct id c.order h.kept.distinct in
          let left =
            total-same (store old.items id none) c.items (drop n (remove_order id c.order)) (λ j m.
              ground (
                arith,
                ap (λ (f : ℕ → Option (List ℕ)). f j) items,
                member-drop j n (remove_order id c.order) m,
                member-remove_order id j c.order h.kept.distinct,
              )) in
          omega (arith, rw order at (r.needed n q), left, max);
      same = λ j ne m. rw ne (
          r.same j
            (ground (arith, member-append j (evict_oldest (length bytes) old.order old).order id))
          ∙ ap (λ (f : ℕ → Option (List ℕ)). f j) items);
    })

add-refused :
    (id : ℕ) (bytes : List ℕ) (c : Cache) → c.max_size < length bytes → add id bytes c ≡ none
unfolding add
add-refused id bytes c h =
    let big : ltb c.max_size (length bytes) ≡ true = ground arith in rw big refl

empty-IsKept : IsKept (λ id. none) [] 0
unfolding total
empty-IsKept = record { distinct = tt; listed = λ id. refl; counted = refl }

added-IsValid :
    (id : ℕ) (bytes : List ℕ) (c : Cache) (r : Option Cache)
    → IsValid c
    → Returns r (IsAdded id bytes c) ⊎ (r ≡ none)
    → IsValid (elim r [ none ↦ c | some c' ↦ c' ])
added-IsValid id bytes c none h k = h
added-IsValid id bytes c (some c') h (inl a) = a.valid
added-IsValid id bytes c (some c') h (inr e) = cc

step-IsValid : (call : Call) (c : Cache) → IsValid c → IsValid (step call c)
unfolding step
step-IsValid (add_entry id bytes) c h =
    added-IsValid id bytes c (add id bytes c) h (elim (Bool-cases (ltb c.max_size (length bytes))) [
      | inl e ↦ inr (add-refused id bytes c (ground arith))
      | inr e ↦ inl (add-IsAdded id bytes c h (ground arith))
    ])
step-IsValid clear_all c h = record { kept = empty-IsKept; within = omega arith }

run-keeps : (calls : List Call) (c : Cache) → IsValid c → IsValid (run calls c)
unfolding run
run-keeps [] c h = h
run-keeps (call ∷ calls) c h = run-keeps calls (step call c) (step-IsValid call c h)

-- After any calls the order lists the stored ids, each once, and the size is the number of stored
-- bytes, which never exceeds the bound of the cache.
pub run-IsValid : (max_bytes : ℕ) (calls : List Call) → IsValid (run calls (new_cache max_bytes))
unfolding new_cache
run-IsValid max_bytes calls =
    run-keeps calls (new_cache max_bytes) (record { kept = empty-IsKept; within = omega arith })
