-- ===== src/Config/Merge/Keys.antt =====
-- internal/config/merge.go: what the index of a merged mapping has at each key.
use llemon_swap.Base.{
  String, ◌≡◌, refl, sym, ap, ◌∙◌, subst, Option, none, some, List, [], ◌∷◌, ◌==◌, eq_iff, arith,
  ◌⊎◌, inl, inr, Option-cases, if◌then◌else◌,
}
use llemon_swap.Config.Merge.{
  Yaml, Entries, mapping, none_left, entry, or_later, index, append_entries, only_new, first_shared,
}
use llemon_swap.Config.Merge.Union.{Leaf, value, item, IsGiven, Has, Union}

or_later_assoc : (a b c : Option Yaml) → or_later (or_later a b) c ≡ or_later a (or_later b c)
or_later_assoc none b c = refl
or_later_assoc (some n) b c = refl

some_eq : {a b : Yaml} → some a ≡ some b → a ≡ b
some_eq e = ground arith

only_value :
    {m : Option Yaml} (s : Option Yaml) {u n : Yaml} → m ≡ some u → or_later m s ≡ some n → u ≡ n
only_value s f e = ground arith

later_of : (m s : Option Yaml) → or_later (elim m [ some n ↦ none | none ↦ s ]) m ≡ or_later m s
later_of none none = refl
later_of none (some s) = refl
later_of (some m) s = refl

pub index-append_entries :
    (xs ys : Entries) (k : String)
    → index (append_entries xs ys) k ≡ or_later (index ys k) (index xs k)
unfolding index append_entries
index-append_entries none_left ys k = elim (Option-cases (index ys k)) [
  | inl e ↦ rw e refl
  | inr (n, e) ↦ rw e refl
]
index-append_entries (entry j n xs) ys k =
    ap (λ o. or_later o (if j == k then some n else none)) (index-append_entries xs ys k)
    ∙ or_later_assoc (index ys k) (index xs k) (if j == k then some n else none)

pub index-only_new :
    (ds ss : Entries) (k : String)
    → index (only_new ds ss) k ≡ (elim (index ds k) [ some n ↦ none | none ↦ index ss k ])
unfolding index only_new
index-only_new ds none_left k = ground arith
index-only_new ds (entry j n ss) k = ground (arith, eq_iff j k, index-only_new ds ss k)

pub first_shared-none :
    (ds ss : Entries) (k : String) (s : Yaml)
    → first_shared ds ss ≡ none
    → index ss k ≡ some s
    → index ds k ≡ none
unfolding index first_shared
first_shared-none ds none_left k s h e = cc
first_shared-none ds (entry j n ss) k s h e =
    ground (arith, eq_iff j k, first_shared-none ds ss k s)

-- What a key of the merged first pass has, from what the two sides have.
abbrev pub Slot : Option Yaml → Option Yaml → Option Yaml → Type 0
Slot none s m = m ≡ none
Slot (some d) none m = m ≡ some d
Slot (some d) (some s) m = (n : Yaml) × (m ≡ some n) × Union n d s

-- What is below a key of an optional node.
abbrev pub HasBelow : List String → Leaf → Option Yaml → Type 0
HasBelow ks x o = (n : Yaml) × (o ≡ some n) × Has ks x n

keep-Slot_left :
    (ks : List String) (x : Leaf) (d s m : Option Yaml)
    → IsGiven x
    → Slot d s m
    → HasBelow ks x d
    → HasBelow ks x (or_later m s)
keep-Slot_left ks x none s m g t (n, e, h) = absurd (ground arith)
keep-Slot_left ks x (some d) none m g t (n, e, h) = (n, ground arith, h)
keep-Slot_left ks x (some d) (some s) m g (u, e, un) (n, f, h) =
    (u, rw e refl, un.left ks x g (subst (Has ks x) (sym (some_eq f)) h))

keep-Slot_right :
    (ks : List String) (x : Leaf) (d s m : Option Yaml)
    → IsGiven x
    → Slot d s m
    → HasBelow ks x s
    → HasBelow ks x (or_later m s)
keep-Slot_right ks x none s m g t (n, e, h) = (n, ground arith, h)
keep-Slot_right ks x (some d) none m g t (n, e, h) = absurd (ground arith)
keep-Slot_right ks x (some d) (some s) m g (u, e, un) (n, f, h) =
    (u, rw e refl, un.right ks x g (subst (Has ks x) (sym (some_eq f)) h))

from-Slot :
    (ks : List String) (x : Leaf) (d s m : Option Yaml)
    → Slot d s m
    → HasBelow ks x (or_later m s)
    → HasBelow ks x d ⊎ HasBelow ks x s
from-Slot ks x none s m t (n, e, h) = inr (n, ground arith, h)
from-Slot ks x (some d) none m t (n, e, h) = inl (n, ground arith, h)
from-Slot ks x (some d) (some s) m (u, f, un) (n, e, h) =
    elim (un.only ks x (subst (Has ks x) (sym (only_value (some s) f e)) h)) [
      | inl k ↦ inl (d, refl, k)
      | inr k ↦ inr (s, refl, k)
    ]

-- The whole mapping is a union when each key of the first pass is.
module _ (ds ss ms : Entries)
    (slots : (k : String) → Slot (index ds k) (index ss k) (index ms k)) where
  abbrev both_passes : Entries
  both_passes = append_entries ms (only_new ms ss)

  merged_at : (k : String) → index both_passes k ≡ or_later (index ms k) (index ss k)
  merged_at k =
      index-append_entries ms (only_new ms ss) k
      ∙ ap (λ o. or_later o (index ms k)) (index-only_new ms ss k)
      ∙ later_of (index ms k) (index ss k)

  below :
      (k : String) (ks : List String) (x : Leaf)
      → HasBelow ks x (or_later (index ms k) (index ss k))
      → HasBelow ks x (index both_passes k)
  below k ks x h = subst (HasBelow ks x) (sym (merged_at k)) h

  keep_left :
      (ks : List String) (x : Leaf)
      → IsGiven x
      → Has ks x (mapping ds)
      → Has ks x (mapping both_passes)
  keep_left [] (value _ _) g h = h
  keep_left [] (item _) g h = h
  keep_left (k ∷ ks) x g h =
      below k ks x (keep-Slot_left ks x (index ds k) (index ss k) (index ms k) g (slots k) h)

  keep_right :
      (ks : List String) (x : Leaf)
      → IsGiven x
      → Has ks x (mapping ss)
      → Has ks x (mapping both_passes)
  keep_right [] (value _ _) g h = h
  keep_right [] (item _) g h = h
  keep_right (k ∷ ks) x g h =
      below k ks x (keep-Slot_right ks x (index ds k) (index ss k) (index ms k) g (slots k) h)

  keep_only :
      (ks : List String) (x : Leaf)
      → Has ks x (mapping both_passes)
      → Has ks x (mapping ds) ⊎ Has ks x (mapping ss)
  keep_only [] (value _ _) h = inl h
  keep_only [] (item _) h = inl h
  keep_only (k ∷ ks) x h =
      from-Slot ks x (index ds k) (index ss k) (index ms k) (slots k)
        (subst (HasBelow ks x) (merged_at k) h)

  pub mapping-Union : Union (mapping both_passes) (mapping ds) (mapping ss)
  mapping-Union = record {
    left = λ ks x g h. keep_left ks x g h;
    right = λ ks x g h. keep_right ks x g h;
    only = λ ks x h. keep_only ks x h;
  }
