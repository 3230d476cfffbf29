-- ===== src/Base/Maps.antt =====
-- Go maps with string keys: association lists where the code iterates, functions where it does
-- not (a missing key is then the zero value).
use mathlib.Core.Path.{◌≡◌, refl}
use mathlib.Core.Option.{Option, none, some}
use mathlib.Core.List.{List, [], ◌∷◌}
use mathlib.Core.Logic.{◌≢◌, ◌⊎◌}
use Prim.Native.String.{String}
use native.Mathlib.Omega.{arith}
use text.Mathlib.Text.{◌==◌}
use text.Mathlib.TextEquality.{eq_iff}
use llemon_swap.Base.Tests.{if◌then◌else◌}

abbrev pub update {ℓ} : {V : Type ℓ} → (String → V) → String → V → String → V
update f k v j = if k == j then v else f j

module _ {ℓ} {V : Type ℓ} where
  unfoldable pub lookup : String → List (String × V) → Option V
  lookup key [] = none
  lookup key ((i, x) ∷ rest) = if i == key then some x else lookup key rest

  unfoldable pub remove : String → List (String × V) → List (String × V)
  remove key [] = []
  remove key ((i, x) ∷ rest) =
      let others = remove key rest in if i == key then others else (i, x) ∷ others

  -- Reading a map with a key taken off.
  pub lookup-remove :
      (key j : String) (entries : List (String × V))
      → lookup j (remove key entries) ≡ (if key == j then none else lookup j entries)
  unfolding lookup remove
  lookup-remove key j [] = ground arith
  lookup-remove key j ((i, x) ∷ rest) =
      ground (arith, eq_iff i j, eq_iff i key, eq_iff key j, lookup-remove key j rest)

  unfoldable pub insert : String → V → List (String × V) → List (String × V)
  insert key new [] = (key, new) ∷ []
  insert key new ((i, x) ∷ rest) =
      if i == key then (key, new) ∷ rest else (i, x) ∷ insert key new rest

  -- Reading a map with a key assigned.
  pub lookup-insert :
      (key j : String) (new : V) (entries : List (String × V))
      → lookup j (insert key new entries) ≡ (if key == j then some new else lookup j entries)
  unfolding insert lookup
  lookup-insert key j new [] = refl
  lookup-insert key j new ((i, x) ∷ rest) =
      ground (arith, eq_iff i j, eq_iff i key, eq_iff key j, lookup-insert key j new rest)

  -- What an updated map holds is the new entry, or an old one under another key.
  pub lookup-insert_cases :
      (k j : String) (v a : V) (m : List (String × V))
      → lookup j (insert k v m) ≡ some a
      → ((j ≡ k) × (a ≡ v)) ⊎ ((j ≢ k) × (lookup j m ≡ some a))
  lookup-insert_cases k j v a m h = ground (arith, lookup-insert k j v m, eq_iff k j)

  pub lookup-remove-some :
      (k j : String) (a : V) (m : List (String × V))
      → lookup j (remove k m) ≡ some a
      → (j ≢ k) × (lookup j m ≡ some a)
  lookup-remove-some k j a m h = ground (arith, lookup-remove k j m, eq_iff k j)

  pub insert-insert :
      (k : String) (v w : V) (m : List (String × V)) → insert k v (insert k w m) ≡ insert k v m
  unfolding insert
  insert-insert k v w [] = ground (arith, eq_iff k k)
  insert-insert k v w ((i, x) ∷ m) = ground (arith, eq_iff k k, eq_iff i k, insert-insert k v w m)

-- No key stands twice, as in a Go map.
abbrev pub Unique {ℓ} : {V : Type ℓ} → List (String × V) → Type ℓ
Unique [] = Unit
Unique ((k, v) ∷ m) = (lookup k m ≡ none) × Unique m

module _ {ℓ} {V : Type ℓ} where
  pub insert-Unique :
      (k : String) (v : V) (m : List (String × V)) → Unique m → Unique (insert k v m)
  unfolding insert lookup
  insert-Unique k v [] u = (refl, tt)
  insert-Unique k v ((j, w) ∷ m) u =
      ground (arith, eq_iff j k, eq_iff k j, insert-Unique k v m u.1, lookup-insert k j v m)

  pub remove-Unique : (k : String) (m : List (String × V)) → Unique m → Unique (remove k m)
  unfolding remove
  remove-Unique k [] u = tt
  remove-Unique k ((j, w) ∷ m) u = ground (arith, remove-Unique k m u.1, lookup-remove k j m)

abbrev pub keys {ℓ} : {V : Type ℓ} → List (String × V) → List String
keys [] = []
keys ((k, v) ∷ m) = k ∷ keys m
