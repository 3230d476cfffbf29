-- ===== src/Config/Merge/Values.antt =====
-- internal/config/merge.go: mergeValue, mergeNodes and mergeIdentityMap lose nothing and invent nothing.
use llemon_swap.Base.{
  String, ◌≡◌, refl, sym, subst, ◌&&◌, Option, none, some, List, [], ◌∷◌, ◌==◌, eq_iff, arith, ◌⊎◌,
  inl, inr, contains, Bool-cases, Option-cases, if◌then◌else◌,
}
use llemon_swap.Config.Merge.{
  Yaml, Entries, scalar, mapping, sequence, other, none_left, entry, MergeError, incompatible,
  conflict, checked, is_null_scalar, is_null, or_later, index, join_path, append_entries,
  first_shared, identity_map_paths, merge_identity_map, merge_value, merge_shared, at_entry,
}
use llemon_swap.Config.Merge.Union.{
  Leaf, value, item, Has, Union, null_left-Union, null_right-Union, same-Union, items-Union,
}
use llemon_swap.Config.Merge.Keys.{
  Slot, HasBelow, index-append_entries, first_shared-none, mapping-Union,
}

pub inverse :
    {A B : Type 0} (m : MergeError ⊎ A) (f : A → MergeError ⊎ B) {b : B}
    → checked m f ≡ inr b
    → (a : A) × (m ≡ inr a) × (f a ≡ inr b)
inverse (inl e) f h = cc
inverse (inr a) f h = (a, refl, h)

fallback-Union :
    (d s : Yaml) (path : String) {m : Yaml}
    → (if is_null d then inr s else if is_null s then inr d else inl (incompatible path)) ≡ inr m
    → Union m d s
fallback-Union d s path h = elim (Bool-cases (is_null d)) [
  | inl e ↦ subst (λ m. Union m d s) (ground arith) (null_left-Union d s e)
  | inr e ↦ elim (Bool-cases (is_null s)) [
    | inl f ↦ subst (λ m. Union m d s) (ground arith) (null_right-Union d s f)
    | inr f ↦ absurd (ground arith)
  ]
]

equal_scalars :
    (dt dv st sv : String) (path : String) {m : Yaml}
    → (if dv == sv && dt == st then inr (scalar dt dv) else inl (conflict path)) ≡ inr m
    → Union m (scalar dt dv) (scalar st sv)
equal_scalars dt dv st sv path h =
    subst (λ m. Union m (scalar dt dv) (scalar st sv)) {x = scalar dt dv} (ground arith)
      (subst (λ s. Union (scalar dt dv) (scalar dt dv) s) {x = scalar dt dv}
        (ground (arith, eq_iff dv sv, eq_iff dt st)) (same-Union (scalar dt dv)))

scalars-Union :
    (dt dv st sv : String) (path : String) {m : Yaml}
    → merge_value (scalar dt dv) (scalar st sv) path ≡ inr m
    → Union m (scalar dt dv) (scalar st sv)
unfolding merge_value
scalars-Union dt dv st sv path h = elim (Bool-cases (is_null_scalar dt dv)) [
  | inl e ↦
      subst (λ m. Union m (scalar dt dv) (scalar st sv)) (ground arith)
        (null_left-Union (scalar dt dv) (scalar st sv) e)
  | inr e ↦ elim (Bool-cases (is_null_scalar st sv)) [
    | inl f ↦
        subst (λ m. Union m (scalar dt dv) (scalar st sv)) (ground arith)
          (null_right-Union (scalar dt dv) (scalar st sv) f)
    | inr f ↦ equal_scalars dt dv st sv path (ground arith)
  ]
]

identity_left :
    (ks : List String) (x : Leaf) (d s : Option Yaml)
    → ((t : Yaml) → s ≡ some t → d ≡ none)
    → HasBelow ks x d
    → HasBelow ks x (or_later s d)
identity_left ks x d none apart h = h
identity_left ks x d (some s) apart (n, e, h) = absurd (ground (arith, apart s refl))

identity_right :
    (ks : List String) (x : Leaf) (d s : Option Yaml)
    → HasBelow ks x s
    → HasBelow ks x (or_later s d)
identity_right ks x d none (n, e, h) = absurd (ground arith)
identity_right ks x d (some s) h = h

identity_only :
    (ks : List String) (x : Leaf) (d s : Option Yaml)
    → HasBelow ks x (or_later s d)
    → HasBelow ks x d ⊎ HasBelow ks x s
identity_only ks x d none h = inl h
identity_only ks x d (some s) h = inr h

module _ (ds ss : Entries) (apart : first_shared ds ss ≡ none) where
  abbrev joined : Entries
  joined = append_entries ds ss

  at :
      (k : String) (ks : List String) (x : Leaf)
      → HasBelow ks x (or_later (index ss k) (index ds k))
      → HasBelow ks x (index joined k)
  at k ks x h = subst (HasBelow ks x) (sym (index-append_entries ds ss k)) h

  left_kept : (ks : List String) (x : Leaf) → Has ks x (mapping ds) → Has ks x (mapping joined)
  left_kept [] (value _ _) h = h
  left_kept [] (item _) h = h
  left_kept (k ∷ ks) x h =
      at k ks x (
        identity_left ks x (index ds k) (index ss k) (λ t e. first_shared-none ds ss k t apart e) h)

  right_kept : (ks : List String) (x : Leaf) → Has ks x (mapping ss) → Has ks x (mapping joined)
  right_kept [] (value _ _) h = h
  right_kept [] (item _) h = h
  right_kept (k ∷ ks) x h = at k ks x (identity_right ks x (index ds k) (index ss k) h)

  none_added :
      (ks : List String) (x : Leaf)
      → Has ks x (mapping joined)
      → Has ks x (mapping ds) ⊎ Has ks x (mapping ss)
  none_added [] (value _ _) h = inl h
  none_added [] (item _) h = inl h
  none_added (k ∷ ks) x h =
      identity_only ks x (index ds k) (index ss k)
        (subst (HasBelow ks x) (index-append_entries ds ss k) h)

  joined-Union : Union (mapping joined) (mapping ds) (mapping ss)
  joined-Union = record {
    left = λ ks x g h. left_kept ks x h;
    right = λ ks x g h. right_kept ks x h;
    only = λ ks x h. none_added ks x h;
  }

merge_identity_map-Union :
    (d s : Yaml) (path name : String) {m : Yaml}
    → merge_identity_map d s path name ≡ inr m
    → Union m d s
unfolding merge_identity_map
merge_identity_map-Union (mapping ds) (mapping ss) path name h =
    elim (Option-cases (first_shared ds ss)) [
      | inl e ↦ subst (λ m. Union m (mapping ds) (mapping ss)) (ground arith) (joined-Union ds ss e)
      | inr (k, e) ↦ absurd (ground arith)
    ]
merge_identity_map-Union (mapping ds) (scalar _ _) path name h = cc
merge_identity_map-Union (mapping ds) (sequence _) path name h = cc
merge_identity_map-Union (mapping ds) (other _) path name h = cc
merge_identity_map-Union (scalar _ _) s path name h = cc
merge_identity_map-Union (sequence _) s path name h = cc
merge_identity_map-Union (other _) s path name h = cc

later-Slot :
    (d s m d' m' : Option Yaml) → Slot d s m → Slot d' s m' → Slot (or_later d d') s (or_later m m')
later-Slot none s m d' m' h k = rw h k
later-Slot (some d) none m d' m' h k = rw h refl
later-Slot (some d) (some s) m d' m' (n, e, u) k = (n, rw e refl, u)

here-Slot :
    (k j : String) (d n : Yaml) (ss : Entries)
    → Slot (some d) (index ss k) (some n)
    → Slot (if k == j then some d else none) (index ss j) (if k == j then some n else none)
here-Slot k j d n ss h = elim (Bool-cases (k == j)) [
  | inl e ↦ rw e (subst (λ i. Slot (some d) (index ss i) (some n)) (ground (arith, eq_iff k j)) h)
  | inr e ↦ rw e refl
]

pub entry_inverse :
    (one : MergeError ⊎ Yaml) (more : MergeError ⊎ Entries) (k : String) {ms : Entries}
    → checked one (λ n. checked more (λ rest. inr (entry k n rest))) ≡ inr ms
    → (n : Yaml) × (rest : Entries) × (one ≡ inr n) × (more ≡ inr rest) × (entry k n rest ≡ ms)
entry_inverse (inl e) more k h = cc
entry_inverse (inr n) (inl e) k h = cc
entry_inverse (inr n) (inr rest) k h = (n, rest, refl, refl, cc)

entry-Slot :
    (d : Yaml) (s : Option Yaml) (merge : Yaml → MergeError ⊎ Yaml) (n : Yaml)
    → at_entry d s merge ≡ inr n
    → ((t : Yaml) → merge t ≡ inr n → Union n d t)
    → Slot (some d) s (some n)
entry-Slot d none merge n h u = cc
entry-Slot d (some s) merge n h u = (n, refl, u s h)

mutual
  unfolding merge_value

  -- The merge of two values gives what each of them gives, and nothing else.
  pub merge_value-Union :
      (d s : Yaml) (path : String) {m : Yaml} → merge_value d s path ≡ inr m → Union m d s
  merge_value-Union (mapping ds) (mapping ss) path h =
      let r = inverse (merge_shared ds ss path) _ h in
      subst (λ m. Union m (mapping ds) (mapping ss)) (ground arith)
        (mapping-Union ds ss r.0 (merge_shared-Slots ds ss path r.1))
  merge_value-Union (sequence xs) (sequence ys) path h =
      subst (λ m. Union m (sequence xs) (sequence ys)) (ground arith) (items-Union xs ys)
  merge_value-Union (scalar dt dv) (scalar st sv) path h = scalars-Union dt dv st sv path h
  merge_value-Union d s path h = fallback-Union d s path h

  merge_shared-Slots :
      (ds ss : Entries) (path : String) {ms : Entries}
      → merge_shared ds ss path ≡ inr ms
      → (j : String) → Slot (index ds j) (index ss j) (index ms j)
  merge_shared-Slots none_left ss path h j = ground arith
  merge_shared-Slots (entry k d ds) ss path h j =
      let at_key = join_path path k in
      let merge : Yaml → MergeError ⊎ Yaml = λ s.
        if contains identity_map_paths at_key
        then merge_identity_map d s at_key k
        else merge_value d s at_key in
      let (n, rest, one, more, e) =
        entry_inverse (at_entry d (index ss k) merge) (merge_shared ds ss path) k h in
      subst (λ m. Slot (index (entry k d ds) j) (index ss j) (index m j)) {x = entry k n rest} e
        (later-Slot (index ds j) (index ss j) (index rest j) _ _
          (merge_shared-Slots ds ss path more j)
          (here-Slot k j d n ss (
            entry-Slot d (index ss k) merge n one (λ s f.
              elim (Bool-cases (contains identity_map_paths at_key)) [
                | inl g ↦ merge_identity_map-Union d s at_key k (ground arith)
                | inr g ↦ merge_value-Union d s at_key (ground arith)
              ]))))
