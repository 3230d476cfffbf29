-- ===== src/Config/Merge/Union.antt =====
-- internal/config/merge.go: what a merged document holds.
use llemon_swap.Base.{String, ◌≡◌, true, false, some, List, [], ◌∷◌, arith, ◌⊎◌, inl, inr}
use llemon_swap.Config.Merge.{
  Yaml, Items, scalar, mapping, sequence, other, nil, cons, is_null_scalar, is_null, index,
  append_items,
}

-- A value that a document gives: a scalar, or an item of a sequence.
pub data Leaf : Type 0 where
  value : String → String → Leaf
  item : Yaml → Leaf

abbrev pub InItems : Yaml → Items → Type 0
InItems y nil = ⊥
InItems y (cons n rest) = (n ≡ y) ⊎ InItems y rest

-- The document gives the value at the keys, read one below the other.
abbrev pub Has : List String → Leaf → Yaml → Type 0
Has [] (value tag text) (scalar t v) = (t ≡ tag) × (v ≡ text)
Has [] (item y) (sequence ys) = InItems y ys
Has (k ∷ ks) x (mapping es) = (n : Yaml) × (index es k ≡ some n) × Has ks x n
Has _ _ _ = ⊥

-- A null is no value.
abbrev pub IsGiven : Leaf → Type 0
IsGiven (value tag text) = is_null_scalar tag text ≡ false
IsGiven (item y) = Unit

-- The merged document gives what each of the two gives, and nothing else.
pub record Union (m d s : Yaml) : Type 0 where
  pub left : (ks : List String) (x : Leaf) → IsGiven x → Has ks x d → Has ks x m
  pub right : (ks : List String) (x : Leaf) → IsGiven x → Has ks x s → Has ks x m
  pub only : (ks : List String) (x : Leaf) → Has ks x m → Has ks x d ⊎ Has ks x s

null-Has : (n : Yaml) (ks : List String) (x : Leaf) → is_null n ≡ true → IsGiven x → Has ks x n → ⊥
null-Has (scalar t v) [] (value _ _) e g (p, q) = ground arith
null-Has (scalar t v) [] (item _) e g h = h
null-Has (scalar t v) (_ ∷ _) x e g h = h
null-Has (other n) [] (value _ _) e g h = h
null-Has (other n) [] (item _) e g h = h
null-Has (other n) (_ ∷ _) x e g h = h
null-Has (mapping es) ks x e g h = cc
null-Has (sequence ys) ks x e g h = cc

-- One side is null, and the other is taken.
pub null_left-Union : (d s : Yaml) → is_null d ≡ true → Union s d s
null_left-Union d s e = record {
  left = λ ks x g h. absurd (null-Has d ks x e g h);
  right = λ ks x g h. h;
  only = λ ks x h. inr h;
}

pub null_right-Union : (d s : Yaml) → is_null s ≡ true → Union d d s
null_right-Union d s e = record {
  left = λ ks x g h. h;
  right = λ ks x g h. absurd (null-Has s ks x e g h);
  only = λ ks x h. inl h;
}

pub same-Union : (d : Yaml) → Union d d d
same-Union d = record { left = λ ks x g h. h; right = λ ks x g h. h; only = λ ks x h. inl h }

module _ (y : Yaml) (ys : Items) where
  InItems-left : (xs : Items) → InItems y xs → InItems y (append_items xs ys)
  unfolding append_items
  InItems-left nil h = absurd h
  InItems-left (cons n xs) (inl h) = inl h
  InItems-left (cons n xs) (inr h) = inr (InItems-left xs h)

  InItems-right : (xs : Items) → InItems y ys → InItems y (append_items xs ys)
  unfolding append_items
  InItems-right nil h = h
  InItems-right (cons n xs) h = inr (InItems-right xs h)

  InItems-append : (xs : Items) → InItems y (append_items xs ys) → InItems y xs ⊎ InItems y ys
  unfolding append_items
  InItems-append nil h = inr h
  InItems-append (cons n xs) (inl h) = inl (inl h)
  InItems-append (cons n xs) (inr h) = elim (InItems-append xs h) [
    | inl k ↦ inl (inr k)
    | inr k ↦ inr k
  ]

items-left :
    (xs ys : Items) (ks : List String) (x : Leaf)
    → Has ks x (sequence xs)
    → Has ks x (sequence (append_items xs ys))
items-left xs ys [] (item y) h = InItems-left y ys xs h
items-left xs ys [] (value _ _) h = h
items-left xs ys (_ ∷ _) x h = h

items-right :
    (xs ys : Items) (ks : List String) (x : Leaf)
    → Has ks x (sequence ys)
    → Has ks x (sequence (append_items xs ys))
items-right xs ys [] (item y) h = InItems-right y ys xs h
items-right xs ys [] (value _ _) h = h
items-right xs ys (_ ∷ _) x h = h

items-only :
    (xs ys : Items) (ks : List String) (x : Leaf)
    → Has ks x (sequence (append_items xs ys))
    → Has ks x (sequence xs) ⊎ Has ks x (sequence ys)
items-only xs ys [] (item y) h = InItems-append y ys xs h
items-only xs ys [] (value _ _) h = inl h
items-only xs ys (_ ∷ _) x h = inl h

pub items-Union :
    (xs ys : Items) → Union (sequence (append_items xs ys)) (sequence xs) (sequence ys)
items-Union xs ys = record {
  left = λ ks x g h. items-left xs ys ks x h;
  right = λ ks x g h. items-right xs ys ks x h;
  only = λ ks x h. items-only xs ys ks x h;
}
