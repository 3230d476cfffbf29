-- ===== src/Cache/Accounts.antt =====
-- internal/cache/cache.go: the accounts of the cache, which ids are listed and what they count.
use llemon_swap.Base.{
  ℕ, zero, suc, ◌+◌, ◌≤◌, ◌≡◌, refl, ap, Bool, true, false, not, ◌&&◌, ◌||◌, Option, none, some,
  List, [], ◌∷◌, ◌++◌, arith, eqb, length, drop,
}
use llemon_swap.Cache.{Cache, remove_order, is_some}

abbrev pub size_of : Option (List ℕ) → ℕ
size_of none = 0
size_of (some bytes) = length bytes

-- The sizes of the entries under some ids.
unfoldable pub total : (ℕ → Option (List ℕ)) → List ℕ → ℕ
total items [] = 0
total items (id ∷ order) = size_of (items id) + total items order

abbrev pub member : ℕ → List ℕ → Bool
member id [] = false
member id (v ∷ order) = eqb v id || member id order

abbrev pub IsDistinct : List ℕ → Type 0
IsDistinct [] = Unit
IsDistinct (v ∷ order) = (member v order ≡ false) × IsDistinct order

-- The order lists the ids with an entry, each once, and the size is that of their entries.
pub record IsKept (items : ℕ → Option (List ℕ)) (order : List ℕ) (size : ℕ) : Type 0 where
  pub distinct : IsDistinct order
  pub listed : (id : ℕ) → member id order ≡ is_some (items id)
  pub counted : size ≡ total items order

pub record IsValid (c : Cache) : Type 0 where
  pub kept : IsKept c.items c.order c.size
  pub within : c.size ≤ c.max_size

pub member-append :
    (id : ℕ) (order : List ℕ) (v : ℕ) → member id (order ++ v ∷ []) ≡ (member id order || eqb v id)
member-append id [] v = ground arith
member-append id (w ∷ order) v = ground (arith, member-append id order v)

pub member-remove_order :
    (id j : ℕ) (order : List ℕ)
    → IsDistinct order
    → member j (remove_order id order) ≡ (not (eqb id j) && member j order)
unfolding remove_order
member-remove_order id j [] d = ground arith
member-remove_order id j (v ∷ order) d = ground (arith, member-remove_order id j order d.1, d.0)

pub remove_order-IsDistinct :
    (id : ℕ) (order : List ℕ) → IsDistinct order → IsDistinct (remove_order id order)
unfolding remove_order
remove_order-IsDistinct id [] d = tt
remove_order-IsDistinct id (v ∷ order) d =
    ground
      (arith, remove_order-IsDistinct id order d.1, d.0, d.1, member-remove_order id v order d.1)

pub append-IsDistinct :
    (order : List ℕ) (v : ℕ)
    → IsDistinct order
    → member v order ≡ false
    → IsDistinct (order ++ v ∷ [])
append-IsDistinct [] v d h = (refl, tt)
append-IsDistinct (w ∷ order) v d h =
    ground (arith, append-IsDistinct order v d.1, d.0, member-append w order v)

-- Only the listed entries count.
pub total-same :
    (f g : ℕ → Option (List ℕ)) (order : List ℕ)
    → ((j : ℕ) → member j order ≡ true → f j ≡ g j)
    → total f order ≡ total g order
unfolding total
total-same f g [] h = refl
total-same f g (v ∷ order) h =
    let rest = total-same f g order (λ j k. h j (ground (arith, k))) in
    omega (arith, ap size_of (h v (ground arith)), rest)

pub total-remove_order :
    (items : ℕ → Option (List ℕ)) (id : ℕ) (order : List ℕ)
    → member id order ≡ true
    → total items order ≡ size_of (items id) + total items (remove_order id order)
unfolding total remove_order
total-remove_order items id [] h = cc
total-remove_order items id (v ∷ order) h =
    ground
      (arith, total-remove_order items id order, ap (λ (k : ℕ). size_of (items k)) {x = v} {y = id})

pub total-append :
    (items : ℕ → Option (List ℕ)) (order : List ℕ) (v : ℕ)
    → total items (order ++ v ∷ []) ≡ total items order + size_of (items v)
unfolding total
total-append items [] v = omega arith
total-append items (w ∷ order) v = omega (arith, total-append items order v)

pub remove_order-absent :
    (id : ℕ) (order : List ℕ) → member id order ≡ false → remove_order id order ≡ order
unfolding remove_order
remove_order-absent id [] h = refl
remove_order-absent id (v ∷ order) h = ground (arith, remove_order-absent id order)

pub member-drop :
    (j n : ℕ) (order : List ℕ) → member j (drop n order) ≡ true → member j order ≡ true
member-drop j zero order h = h
member-drop j (suc n) [] h = h
member-drop j (suc n) (v ∷ order) h = ground (arith, member-drop j n order h)
