-- ===== src/Cache.antt =====
-- internal/cache/cache.go: byte strings under ids, bounded by their total size, the oldest of which
-- make room. The mutex makes each operation one step.
pub mod Accounts
pub mod Room
pub mod Tests
use llemon_swap.Base.{
  ℕ, zero, suc, ◌+◌, ◌-◌, ◌≤◌, ◌<◌, ◌≡◌, Bool, true, false, Option, none, some, List, [], ◌∷◌, ◌++◌,
  ltb, eqb, length, if◌then◌else◌,
}

-- A map whose missing keys are none.
pub record Cache : Type 0 where
  pub items : ℕ → Option (List ℕ)
  pub order : List ℕ
  pub size : ℕ
  pub max_size : ℕ

abbrev pub store : (ℕ → Option (List ℕ)) → ℕ → Option (List ℕ) → ℕ → Option (List ℕ)
store items id entry j = if eqb id j then entry else items j

unfoldable pub new_cache : ℕ → Cache
new_cache max_bytes = record { items = λ id. none; order = []; size = 0; max_size = max_bytes }

unfoldable pub remove_order : ℕ → List ℕ → List ℕ
remove_order id [] = []
remove_order id (v ∷ order) = if eqb v id then order else v ∷ remove_order id order

-- The removal of an old entry under the id. The size holds the entry's, so `-` is exact.
unfoldable pub replace_old : ℕ → Cache → Cache
unfolding remove_order
replace_old id c = elim (c.items id) [
  | none ↦ c
  | some old ↦ record c { size = c.size - length old; order = remove_order id c.order }
]

-- The body of the eviction loop, for the oldest id.
unfoldable pub evict_one : ℕ → Cache → Cache
evict_one id c = elim (c.items id) [
  | none ↦ c
  | some entry ↦ record c { size = c.size - length entry; items = store c.items id none }
]

-- The loop, over the ids in order.
unfoldable pub evict_oldest : ℕ → List ℕ → Cache → Cache
unfolding evict_one
evict_oldest need [] c = record c { order = [] }
evict_oldest need (id ∷ order) c =
    let rest = evict_oldest need order (evict_one id c) in
    if ltb c.max_size (c.size + need) then rest else record c { order = id ∷ order }

-- `none` is ErrExceedsMaxSize, which leaves the cache as it is.
unfoldable pub add : ℕ → List ℕ → Cache → Option Cache
unfolding replace_old evict_oldest
add id bytes c =
    let need = length bytes in
    if ltb c.max_size need
    then none
    else (let old = replace_old id c in
        let c' = evict_oldest need old.order old in
        some (record c' {
          items = store c'.items id (some bytes);
          order = c'.order ++ id ∷ [];
          size = c'.size + need;
        }))

-- `none` is ErrNotFound.
abbrev pub get : ℕ → Cache → Option (List ℕ)
get id c = c.items id

abbrev pub is_some {ℓ} : {A : Type ℓ} → Option A → Bool
is_some none = false
is_some (some a) = true

abbrev pub has_id : ℕ → Cache → Bool
has_id id c = is_some (c.items id)

abbrev pub clear : Cache → Cache
clear c = record c { items = λ id. none; order = []; size = 0 }

-- A call that changes the cache.
pub data Call : Type 0 where
  add_entry : ℕ → List ℕ → Call
  clear_all : Call

-- The cache after a call, which a refused one leaves as it is.
unfoldable pub step : Call → Cache → Cache
unfolding add
step (add_entry id bytes) c = elim (add id bytes c) [ none ↦ c | some c' ↦ c' ]
step clear_all c = clear c

unfoldable pub run : List Call → Cache → Cache
unfolding step
run [] c = c
run (call ∷ calls) c = run calls (step call c)
