-- ===== src/Matrix/Compile/Cycles.antt =====
-- internal/matrix/program.go, topologicalOrder: the set that the error names refers to itself.
use llemon_swap.Base.{
  ℕ, zero, suc, String, ◌≡◌, true, ◌==◌, eq_iff, some, List, [], ◌∷◌, arith, lookup, insert,
  lookup-insert, contains, Bool-cases, Option-cases, ◌⊎◌, inl, inr, subst,
}
use llemon_swap.Matrix.Compile.{
  CompileError, circular, bind, Mark, visiting, finished, Walk, visit_each, visit_set,
}

abbrev Marks : Type 0
Marks = List (String × Mark)

-- What is being visited was so before.
abbrev Within : Marks → Marks → Type 0
Within marks marks' =
    (x : String) → lookup x marks' ≡ some visiting → lookup x marks ≡ some visiting

-- A set refers to another one, itself or through others.
pub data Reaches (deps_of : String → List String) : String → String → Type 0 where
  edge : {x y : String} → contains (deps_of x) y ≡ true → Reaches deps_of x y
  through :
      {x y z : String} → contains (deps_of x) y ≡ true → Reaches deps_of y z → Reaches deps_of x z

module _ (deps_of : String → List String) where
  Reaches-snoc :
      {x y z : String} → Reaches deps_of x y → contains (deps_of y) z ≡ true → Reaches deps_of x z
  Reaches-snoc (edge h) k = through h (edge k)
  Reaches-snoc (through h r) k = through h (Reaches-snoc r k)

  abbrev pub Blamed : CompileError → Type 0
  Blamed (circular name) = Reaches deps_of name name
  Blamed _ = Unit

  -- What a result says of the cycles, and of what it has left to visit.
  abbrev pub Blames : Marks → CompileError ⊎ Walk → Type 0
  Blames marks (inl e) = Blamed e
  Blames marks (inr w) = Within marks w.0

  bind-Blames :
      (marks marks' : Marks) (r : CompileError ⊎ Walk) (f : Walk → CompileError ⊎ Walk)
      → Blames marks r
      → ((w : Walk) → Within marks w.0 → Blames marks' (f w))
      → Blames marks' (bind r f)
  bind-Blames marks marks' (inl e) f h k = h
  bind-Blames marks marks' (inr w) f h k = k w h

  visit_each-Blames :
      (base : Marks) (visit : String → Walk → CompileError ⊎ Walk) (ds : List String) (w : Walk)
      → ((d : String) (w : Walk) → contains ds d ≡ true → Within base w.0 → Blames w.0 (visit d w))
      → Within base w.0
      → Blames base (visit_each visit ds w)
  unfolding contains
  visit_each-Blames base visit [] w one h = h
  visit_each-Blames base visit (d ∷ ds) w one h =
      bind-Blames w.0 base (visit d w) (visit_each visit ds)
        (one d w (ground (arith, eq_iff d d)) h)
        (λ w' k.
          visit_each-Blames base visit ds w' (λ x u i. one x u (ground arith)) (λ x v. h x (k x v)))

  -- All that is being visited refers to the next set.
  abbrev Above : Marks → String → Type 0
  Above marks name = (x : String) → lookup x marks ≡ some visiting → Reaches deps_of x name

  visit_set-Blames :
      (n : ℕ) (name : String) (w : Walk) → Above w.0 name → Blames w.0 (visit_set deps_of n name w)
  unfolding visit_set
  visit_set-Blames zero name w above = tt
  visit_set-Blames (suc n) name (marks, order) above = elim (Option-cases (lookup name marks)) [
    | inl e ↦
        rw (e, visit_set)
          (bind-Blames started marks
            (visit_each (visit_set deps_of n) (deps_of name) (started, order)) _
            (visit_each-Blames started (visit_set deps_of n) (deps_of name) (started, order)
              (λ d w i within. visit_set-Blames n d w (λ x v. below d i x (within x v))) (λ x v. v))
            (λ (marks', order') k x v. done marks' k x v))
    | inr (visiting, e) ↦ rw (e, visit_set) (above name e)
    | inr (finished, e) ↦ rw (e, visit_set) (λ x v. v)
  ]
    where
      started : Marks
      started = insert name visiting marks

      below :
          (d : String)
          → contains (deps_of name) d ≡ true
          → (x : String) → lookup x started ≡ some visiting
          → Reaches deps_of x d
      below d i x v = elim (Bool-cases (name == x)) [
        | inl p ↦ subst (λ y. Reaches deps_of y d) ((eq_iff name x).0 p) (edge i)
        | inr p ↦ Reaches-snoc (above x (ground (arith, lookup-insert name x visiting marks))) i
      ]

      done : (marks' : Marks) → Within started marks' → Within marks (insert name finished marks')
      done marks' k x v =
          ground
            (arith, lookup-insert name x finished marks', lookup-insert name x visiting marks, k x)

  pub visit_all-Blames :
      (n : ℕ) (names : List String) → Blames [] (visit_each (visit_set deps_of n) names ([], []))
  unfolding lookup
  visit_all-Blames n names =
      visit_each-Blames [] (visit_set deps_of n) names ([], [])
        (λ d w i within. visit_set-Blames n d w (λ x v. cc (within x v))) (λ x v. v)
