-- ===== src/Matrix/Frontier.antt =====
-- internal/matrix/program.go: what the frontier of projected states keeps. A state may be dropped
-- for one whose mask holds more, so what is true of larger masks too is never lost.
use llemon_swap.Base.{
  ◌≡◌, true, List, [], ◌∷◌, arith, All, All-append, Any, Any-append_left, Any-append_right,
  Bool-cases, ◌⊎◌, inl, inr,
}
use llemon_swap.Matrix.Mask.{BitMask, subset_of}
use llemon_swap.Matrix.Evaluate.{
  State, is_dominated, undominated, add_to_frontier, add_all, merge, combine_with, combine,
}

-- A predicate that a larger mask inherits.
abbrev pub IsUpward : (BitMask → Type 0) → Type 0
IsUpward P = (m o : BitMask) → subset_of m o ≡ true → P m → P o

abbrev pub OfMask : (BitMask → Type 0) → State → Type 0
OfMask P s = P s.mask

module _ (P : BitMask → Type 0) (up : IsUpward P) where
  dominated-Any :
      (mask : BitMask) (states : List State)
      → is_dominated mask states ≡ true
      → P mask
      → Any (OfMask P) states
  unfolding is_dominated
  dominated-Any mask [] h p = cc
  dominated-Any mask (s ∷ states) h p = elim (Bool-cases (subset_of mask s.mask)) [
    | inl e ↦ inl (up mask s.mask e p)
    | inr e ↦ inr (dominated-Any mask states (ground arith) p)
  ]

  undominated-Any :
      (mask : BitMask) (states : List State)
      → Any (OfMask P) states
      → Any (OfMask P) (undominated mask states) ⊎ P mask
  unfolding undominated
  undominated-Any mask [] h = absurd h
  undominated-Any mask (s ∷ states) h = elim (Bool-cases (subset_of s.mask mask)) [
    | inl e ↦
        rw e (elim h [ inl p ↦ inr (up s.mask mask e p) | inr k ↦ undominated-Any mask states k ])
    | inr e ↦ rw e (elim h [
      | inl p ↦ inl (inl p)
      | inr k ↦ elim (undominated-Any mask states k) [ inl l ↦ inl (inr l) | inr q ↦ inr q ]
    ])
  ]

  pub add_to_frontier-new :
      (states : List State) (s : State) → P s.mask → Any (OfMask P) (add_to_frontier states s)
  unfolding add_to_frontier
  add_to_frontier-new states s p = elim (Bool-cases (is_dominated s.mask states)) [
    | inl e ↦ rw e (dominated-Any s.mask states e p)
    | inr e ↦ rw e (Any-append_right (OfMask P) (undominated s.mask states) (s ∷ []) (inl p))
  ]

  pub add_to_frontier-keeps :
      (states : List State) (s : State)
      → Any (OfMask P) states
      → Any (OfMask P) (add_to_frontier states s)
  unfolding add_to_frontier
  add_to_frontier-keeps states s h = elim (Bool-cases (is_dominated s.mask states)) [
    | inl e ↦ rw e h
    | inr e ↦ rw e (elim (undominated-Any s.mask states h) [
      | inl k ↦ Any-append_left (OfMask P) (undominated s.mask states) (s ∷ []) k
      | inr p ↦ Any-append_right (OfMask P) (undominated s.mask states) (s ∷ []) (inl p)
    ])
  ]

  pub add_all-keeps :
      (states more : List State) → Any (OfMask P) states → Any (OfMask P) (add_all states more)
  unfolding add_all
  add_all-keeps states [] h = h
  add_all-keeps states (s ∷ more) h =
      add_all-keeps (add_to_frontier states s) more (add_to_frontier-keeps states s h)

  pub add_all-new :
      (states more : List State) → Any (OfMask P) more → Any (OfMask P) (add_all states more)
  unfolding add_all
  add_all-new states [] h = absurd h
  add_all-new states (s ∷ more) (inl p) =
      add_all-keeps (add_to_frontier states s) more (add_to_frontier-new states s p)
  add_all-new states (s ∷ more) (inr h) = add_all-new (add_to_frontier states s) more h

  combine_with-keeps :
      (left : State) (rights combined : List State)
      → Any (OfMask P) combined
      → Any (OfMask P) (combine_with left rights combined)
  unfolding combine_with
  combine_with-keeps left [] combined h = h
  combine_with-keeps left (r ∷ rights) combined h =
      combine_with-keeps left rights _ (add_to_frontier-keeps combined (merge left r) h)

  combine-keeps :
      (lefts rights combined : List State)
      → Any (OfMask P) combined
      → Any (OfMask P) (combine lefts rights combined)
  unfolding combine
  combine-keeps [] rights combined h = h
  combine-keeps (l ∷ lefts) rights combined h =
      combine-keeps lefts rights _ (combine_with-keeps l rights combined h)

  -- A pair of states whose union satisfies the predicate leaves one that does.
  module _ (L R : State → Type 0) (merges : (l r : State) → L l → R r → P (merge l r).mask) where
    combine_with-new :
        (left : State) (rights combined : List State)
        → L left
        → Any R rights
        → Any (OfMask P) (combine_with left rights combined)
    unfolding combine_with
    combine_with-new left [] combined l h = absurd h
    combine_with-new left (r ∷ rights) combined l (inl p) =
        combine_with-keeps left rights _
          (add_to_frontier-new combined (merge left r) (merges left r l p))
    combine_with-new left (r ∷ rights) combined l (inr h) = combine_with-new left rights _ l h

    pub combine-new :
        (lefts rights combined : List State)
        → Any L lefts
        → Any R rights
        → Any (OfMask P) (combine lefts rights combined)
    unfolding combine
    combine-new [] rights combined h k = absurd h
    combine-new (l ∷ lefts) rights combined (inl p) k =
        combine-keeps lefts rights _ (combine_with-new l rights combined p k)
    combine-new (l ∷ lefts) rights combined (inr h) k = combine-new lefts rights _ h k

-- What holds of the states that go in holds of those that are kept.
module _ (Q : State → Type 0) where
  undominated-All :
      (mask : BitMask) (states : List State) → All Q states → All Q (undominated mask states)
  unfolding undominated
  undominated-All mask [] h = tt
  undominated-All mask (s ∷ states) h = elim (Bool-cases (subset_of s.mask mask)) [
    | inl e ↦ rw e (undominated-All mask states h.1)
    | inr e ↦ rw e (h.0, undominated-All mask states h.1)
  ]

  pub add_to_frontier-All :
      (states : List State) (s : State) → All Q states → Q s → All Q (add_to_frontier states s)
  unfolding add_to_frontier
  add_to_frontier-All states s h q = elim (Bool-cases (is_dominated s.mask states)) [
    | inl e ↦ rw e h
    | inr e ↦ rw e (
        All-append Q (undominated s.mask states) (s ∷ []) (undominated-All s.mask states h) (q, tt))
  ]

  pub add_all-All :
      (states more : List State) → All Q states → All Q more → All Q (add_all states more)
  unfolding add_all
  add_all-All states [] h k = h
  add_all-All states (s ∷ more) h k =
      add_all-All (add_to_frontier states s) more (add_to_frontier-All states s h k.0) k.1

  module _ (L R : State → Type 0) (merges : (l r : State) → L l → R r → Q (merge l r)) where
    combine_with-All :
        (left : State) (rights combined : List State)
        → L left
        → All R rights
        → All Q combined
        → All Q (combine_with left rights combined)
    unfolding combine_with
    combine_with-All left [] combined l h c = c
    combine_with-All left (r ∷ rights) combined l h c =
        combine_with-All left rights _ l h.1
          (add_to_frontier-All combined (merge left r) c (merges left r l h.0))

    pub combine-All :
        (lefts rights combined : List State)
        → All L lefts
        → All R rights
        → All Q combined
        → All Q (combine lefts rights combined)
    unfolding combine
    combine-All [] rights combined h k c = c
    combine-All (l ∷ lefts) rights combined h k c =
        combine-All lefts rights _ h.1 k (combine_with-All l rights combined h.0 k c)
