-- ===== src/Matrix/Compile/Order.antt =====
-- internal/matrix/program.go, topologicalOrder: every set stands behind the sets that it refers to.
use llemon_swap.Base.{
  ℕ, zero, suc, String, ◌≡◌, ◌≢◌, refl, ap, subst, true, ◌||◌, ◌==◌, eq_iff, Option, none, some,
  List, [], ◌∷◌, ◌++◌, arith, length, lookup, insert, lookup-insert, contains, contains-append,
  Bool-cases, ◌⊎◌, inl, inr,
}
use llemon_swap.Matrix.Compile.{
  CompileError, bind, Mark, visiting, finished, Walk, visit_each, visit_set, topological_order,
}

-- What holds of a result, if there is one.
abbrev IfOk : {A : Type 0} → CompileError ⊎ A → (A → Type 0) → Type 0
IfOk (inl e) P = Unit
IfOk (inr a) P = P a

bind-IfOk :
    {A B : Type 0} (P : A → Type 0) (Q : B → Type 0) (r : CompileError ⊎ A)
    (f : A → CompileError ⊎ B)
    → IfOk r P
    → ((a : A) → P a → IfOk (f a) Q)
    → IfOk (bind r f) Q
bind-IfOk P Q (inl e) f h k = tt
bind-IfOk P Q (inr a) f h k = k a h

IfOk-map :
    {A : Type 0} (P Q : A → Type 0) (r : CompileError ⊎ A)
    → IfOk r P
    → ((a : A) → P a → Q a)
    → IfOk r Q
IfOk-map P Q (inl e) h k = tt
IfOk-map P Q (inr a) h k = k a h

Mark-cases : (o : Option Mark) → (o ≡ none) ⊎ ((o ≡ some visiting) ⊎ (o ≡ some finished))
Mark-cases none = inl refl
Mark-cases (some visiting) = inr (inl refl)
Mark-cases (some finished) = inr (inr refl)

inr-injective : (a b : List String) → ◌≡◌ {A = CompileError ⊎ List String} (inr a) (inr b) → a ≡ b
inr-injective a b e = ap (λ r. elim r [ inl x ↦ a | inr y ↦ y ]) e

not_finished : ◌≢◌ {A = Option Mark} (some visiting) (some finished)
not_finished e = ground (arith, e)

module _ (deps_of : String → List String) where
  -- Behind the sets `before`, each set of the order stands behind those that it refers to.
  pub IsLinkable : List String → List String → Type 0
  IsLinkable before [] = Unit
  IsLinkable before (name ∷ order) =
      ((d : String) → contains (deps_of name) d ≡ true → contains before d ≡ true)
      × IsLinkable (before ++ name ∷ []) order

  IsLinkable-snoc :
      (before order : List String) (name : String)
      → IsLinkable before order
      → ((d : String)
          → contains (deps_of name) d ≡ true
          → (contains before d || contains order d) ≡ true)
      → IsLinkable before (order ++ name ∷ [])
  unfolding IsLinkable contains
  IsLinkable-snoc before [] name h k = (λ d i. ground (arith, k d i), tt)
  IsLinkable-snoc before (x ∷ order) name h k = (
    h.0,
    IsLinkable-snoc (before ++ x ∷ []) order name h.1
        (λ d i. ground (arith, k d i, contains-append before (x ∷ []) d)),
  )

  record IsSound (w : Walk) : Type 0 where
    linkable : IsLinkable [] w.1
    listed : (d : String) → lookup d w.0 ≡ some finished → contains w.1 d ≡ true

  record Visits (names : List String) (w w' : Walk) : Type 0 where
    sound : IsSound w'
    there : (d : String) → contains names d ≡ true → contains w'.1 d ≡ true
    keeps : (d : String) → contains w.1 d ≡ true → contains w'.1 d ≡ true

  visit_each-Visits :
      (visit : String → Walk → CompileError ⊎ Walk)
      → ((name : String) (w : Walk) → IsSound w → IfOk (visit name w) (Visits (name ∷ []) w))
      → (names : List String) (w : Walk) → IsSound w
      → IfOk (visit_each visit names w) (Visits names w)
  unfolding contains
  visit_each-Visits visit one [] w h = record { sound = h; there = λ d k. cc; keeps = λ d k. k }
  visit_each-Visits visit one (name ∷ names) w h =
      bind-IfOk (Visits (name ∷ []) w) (Visits (name ∷ names) w) (visit name w)
        (visit_each visit names) (one name w h)
        (λ w' v.
          IfOk-map (Visits names w') (Visits (name ∷ names) w) (visit_each visit names w')
            (visit_each-Visits visit one names w' v.sound)
            (λ w'' u. record {
              sound = u.sound;
              there = λ d k. elim (Bool-cases (name == d)) [
                | inl e ↦ u.keeps d (v.there d (ground arith))
                | inr e ↦ u.there d (ground arith)
              ];
              keeps = λ d k. u.keeps d (v.keeps d k);
            }))

  started :
      (name : String) (marks : List (String × Mark)) (order : List String)
      → IsSound (marks, order)
      → IsSound (insert name visiting marks, order)
  started name marks order h = record {
    linkable = h.linkable;
    listed = λ d k. elim (Bool-cases (name == d)) [
      | inl e ↦ absurd (not_finished (ground (arith, lookup-insert name d visiting marks)))
      | inr e ↦ h.listed d (ground (arith, lookup-insert name d visiting marks))
    ];
  }

  finish :
      (name : String) (marks marks' : List (String × Mark)) (order order' : List String)
      → Visits (deps_of name) (insert name visiting marks, order) (marks', order')
      → Visits (name ∷ []) (marks, order) (insert name finished marks', order' ++ name ∷ [])
  unfolding contains
  finish name marks marks' order order' v = record {
    sound = record {
      linkable = IsLinkable-snoc [] order' name v.sound.linkable (λ d k. v.there d k);
      listed = λ d k. elim (Bool-cases (name == d)) [
        | inl e ↦ ground (arith, contains-append order' (name ∷ []) d)
        | inr e ↦ ground (
          arith,
          contains-append order' (name ∷ []) d,
          lookup-insert name d finished marks',
          v.sound.listed d,
        )
      ];
    };
    there = λ d k. ground (arith, contains-append order' (name ∷ []) d);
    keeps = λ d k. ground (arith, contains-append order' (name ∷ []) d, v.keeps d k);
  }

  visit_set-Visits :
      (n : ℕ) (name : String) (w : Walk)
      → IsSound w
      → IfOk (visit_set deps_of n name w) (Visits (name ∷ []) w)
  unfolding visit_set contains
  visit_set-Visits zero name w h = tt
  visit_set-Visits (suc n) name (marks, order) h = elim (Mark-cases (lookup name marks)) [
    | inl e ↦
        rw (e, visit_set)
          (bind-IfOk (Visits (deps_of name) (insert name visiting marks, order))
            (Visits (name ∷ []) (marks, order))
            (visit_each (visit_set deps_of n) (deps_of name) (insert name visiting marks, order)) _
            (visit_each-Visits (visit_set deps_of n) (visit_set-Visits n) (deps_of name)
              (insert name visiting marks, order) (started name marks order h))
            (λ (marks', order') v. finish name marks marks' order order' v))
    | inr (inl e) ↦ rw (e, visit_set) tt
    | inr (inr e) ↦
        rw (e, visit_set)
          (record {
            sound = h;
            there = λ d k.
                ground
                  (arith, eq_iff name d, ap (contains order) {x = name} {y = d}, h.listed name e);
            keeps = λ d k. k;
          })
  ]

  -- In the order of a program without a cycle each set stands behind every set that it refers to, and no
  -- set is missing.
  pub topological_order-IsLinkable :
      (names order : List String)
      → topological_order deps_of names ≡ inr order
      → IsLinkable [] order × ((d : String) → contains names d ≡ true → contains order d ≡ true)
  unfolding topological_order IsLinkable lookup contains
  topological_order-IsLinkable names order e =
      ordered (visit_each (visit_set deps_of (suc (length names))) names ([], []))
        (visit_each-Visits (visit_set deps_of (suc (length names)))
          (visit_set-Visits (suc (length names))) names ([], [])
          (record { linkable = tt; listed = λ d k. cc }))
        e
    where
      ordered :
          (r : CompileError ⊎ Walk)
          → IfOk r (Visits names ([], []))
          → bind r (λ (marks, found). inr found) ≡ inr order
          → IsLinkable [] order × ((d : String) → contains names d ≡ true → contains order d ≡ true)
      ordered (inl e') h k = absurd (ground (arith, k))
      ordered (inr (marks, found)) h k =
          let same : found ≡ order = inr-injective found order k in
          subst
            (λ o. IsLinkable [] o × ((d : String) → contains names d ≡ true → contains o d ≡ true))
            same (h.sound.linkable, h.there)
