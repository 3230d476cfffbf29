-- ===== src/Cache/Room/Evict.antt =====
-- cache.go: the loop of Add that makes room.
use llemon_swap.Base.{
  ℕ, zero, suc, ◌+◌, ◌≤◌, ◌<◌, ◌≡◌, refl, ◌∙◌, ap, true, false, none, List, [], ◌∷◌, arith, ltb,
  eqb, length, drop, Bool-cases, Option-cases, ◌⊎◌, inl, inr,
}
use llemon_swap.Cache.{Cache, store, remove_order, replace_old, evict_one, evict_oldest}
use llemon_swap.Cache.Accounts.{
  size_of, total, member, IsKept, member-remove_order, remove_order-IsDistinct, total-same,
  total-remove_order, member-drop,
}

abbrev pub IsKeptBut : ℕ → Cache → Type 0
IsKeptBut id c = IsKept (store c.items id none) c.order c.size

pub replace_old-IsKeptBut :
    (id : ℕ) (c : Cache) → IsKept c.items c.order c.size → IsKeptBut id (replace_old id c)
unfolding replace_old
replace_old-IsKeptBut id c h = elim (Option-cases (c.items id)) [
  | inl e ↦
      rw (e, replace_old)
        (record {
          distinct = h.distinct;
          listed = λ j. ground (arith, h.listed j, ap c.items {x = id} {y = j}, e);
          counted =
              h.counted
              ∙ total-same c.items (store c.items id none) c.order
                  (λ j k. ground (arith, h.listed j, ap c.items {x = id} {y = j}, e));
        })
  | inr (old, e) ↦
      rw (e, replace_old)
        (record {
          distinct = remove_order-IsDistinct id c.order h.distinct;
          listed = λ j. ground (arith, h.listed j, member-remove_order id j c.order h.distinct);
          counted =
              let there : member id c.order ≡ true = ground (arith, h.listed id, e) in
              let without =
                total-same (store c.items id none) c.items (remove_order id c.order)
                  (λ j k. ground (arith, member-remove_order id j c.order h.distinct)) in
              let sum = total-remove_order c.items id c.order there in
              omega (arith, h.counted, sum, without, ap size_of e);
        })
]

-- One turn of the loop, for the oldest id.
evict_one-IsKeptBut :
    (id v : ℕ) (order : List ℕ) (c : Cache)
    → IsKept (store c.items id none) (v ∷ order) c.size
    → IsKept (store (evict_one v c).items id none) order (evict_one v c).size
unfolding evict_one total
evict_one-IsKeptBut id v order c h = elim (Option-cases (c.items v)) [
  | inl e ↦ absurd (ground (arith, h.listed v, e))
  | inr (entry, e) ↦
      rw (e, evict_one)
        (record {
          distinct = h.distinct.1;
          listed = λ j.
              ground
                (arith, h.listed j, h.distinct.0, ap (λ (k : ℕ). member k order) {x = v} {y = j});
          counted =
              let other : eqb id v ≡ false = ground (arith, h.listed v) in
              let head : size_of (store c.items id none v) ≡ length entry =
                ground (arith, ap size_of e, other) in
              let rest =
                total-same (store c.items id none) (store (store c.items v none) id none) order
                  (λ j k.
                    ground (arith, h.distinct.0, ap (λ (i : ℕ). member i order) {x = v} {y = j})) in
              omega (arith, h.counted, head, rest);
        })
]

evict_one-same_max : (v : ℕ) (c : Cache) → (evict_one v c).max_size ≡ c.max_size
unfolding evict_one
evict_one-same_max v c = elim (Option-cases (c.items v)) [
  | inl e ↦ rw (e, evict_one) refl
  | inr (b, e) ↦ rw (e, evict_one) refl
]

evict_one-others : (v j : ℕ) (c : Cache) → eqb v j ≡ false → (evict_one v c).items j ≡ c.items j
unfolding evict_one
evict_one-others v j c h = elim (Option-cases (c.items v)) [
  | inl e ↦ rw (e, evict_one) refl
  | inr (b, e) ↦ rw (e, evict_one) (rw h refl)
]

ℕ-cases : (n : ℕ) → (n ≡ 0) ⊎ ((m : ℕ) × (n ≡ suc m))
ℕ-cases zero = inl refl
ℕ-cases (suc m) = inr (m, refl)

-- What the loop leaves of the ids `order` and the entries `c`.
pub record IsRoom (id need : ℕ) (order : List ℕ) (c c' : Cache) : Type 0 where
  pub kept : IsKeptBut id c'
  pub room : c'.size + need ≤ c.max_size
  pub same_max : c'.max_size ≡ c.max_size
  pub dropped : ℕ
  pub ordered : c'.order ≡ drop dropped order
  pub needed :
      (n : ℕ) → n < dropped → c.max_size < total (store c.items id none) (drop n order) + need
  pub same : (j : ℕ) → member j c'.order ≡ true → c'.items j ≡ c.items j

pub evict_oldest-IsRoom :
    (id need : ℕ) (order : List ℕ) (c : Cache)
    → IsKept (store c.items id none) order c.size
    → need ≤ c.max_size
    → IsRoom id need order c (evict_oldest need order c)
unfolding evict_oldest total
evict_oldest-IsRoom id need [] c h k = record {
  kept = h;
  room = omega (arith, h.counted);
  same_max = refl;
  dropped = 0;
  ordered = refl;
  needed = λ n q. absurd (omega arith);
  same = λ j m. refl;
}
evict_oldest-IsRoom id need (v ∷ order) c h k = elim (Bool-cases (ltb c.max_size (c.size + need))) [
  | inl e ↦
      let r =
        evict_oldest-IsRoom id need order (evict_one v c) (evict_one-IsKeptBut id v order c h)
          (rw evict_one-same_max k) in
      let apart : (j : ℕ) → member j order ≡ true → eqb v j ≡ false =
        λ j m. ground (arith, h.distinct.0, ap (λ (i : ℕ). member i order) {x = v} {y = j}) in
      let need_more : (n : ℕ)
          → n < suc r.dropped
          → c.max_size < total (store c.items id none) (drop n (v ∷ order)) + need =
        λ n q. elim (ℕ-cases n) [
          | inl z ↦ rw z (ground (arith, h.counted))
          | inr (m, z) ↦ rw z (
              let same =
                total-same (store c.items id none) (store (evict_one v c).items id none)
                  (drop m order)
                  (λ j i.
                    ground (arith, evict_one-others v j c, apart j (member-drop j m order i))) in
              omega (arith, r.needed m (omega arith), same, evict_one-same_max v c))
        ] in
      rw e (record {
        kept = r.kept;
        room = omega (arith, r.room, evict_one-same_max v c);
        same_max = r.same_max ∙ evict_one-same_max v c;
        dropped = suc r.dropped;
        ordered = r.ordered;
        needed = need_more;
        same = λ j m.
            r.same j m
            ∙ evict_one-others v j c (apart j (member-drop j r.dropped order (rw r.ordered at m)));
      })
  | inr e ↦ rw e (record {
    kept = h;
    room = ground arith;
    same_max = refl;
    dropped = 0;
    ordered = refl;
    needed = λ n q. absurd (omega arith);
    same = λ j m. refl;
  })
]

-- A cache after an entry was added: it is in order, and the entry is there, as the newest. The entries
-- that had to go are the oldest ones, no more than the room takes, and the others are as before.
