-- ===== src/Matrix/Compile/Fuel.antt =====
-- internal/matrix/program.go, topologicalOrder: a chain of visits is no longer than there are sets, so
-- the fuel lasts.
use llemon_swap.Base.{
  subst, sym, ℕ, zero, suc, ◌+◌, ◌-◌, ◌≤◌, ◌<◌, String, ◌≡◌, refl, ap, true, ◌==◌, eq_iff, Option,
  none, some, List, [], ◌∷◌, arith, length, lookup, insert, lookup-insert, contains, Option-cases,
  Bool-cases, ◌⊎◌, inl, inr,
}
use llemon_swap.Matrix.Compile.{
  CompileError, circular, bind, Mark, visiting, finished, Walk, visit_each, visit_set,
  topological_order,
}
use llemon_swap.Matrix.Compile.Cycles.{Reaches, Blamed, Blames, visit_all-Blames}

abbrev is_none : Option Mark → ℕ
is_none none = 1
is_none (some m) = 0

-- How many sets have no mark yet.
unmarked : List String → List (String × Mark) → ℕ
unmarked [] marks = 0
unmarked (name ∷ names) marks = is_none (lookup name marks) + unmarked names marks

unmarked-insert-le :
    (names : List String) (x : String) (m : Mark) (marks : List (String × Mark))
    → unmarked names (insert x m marks) ≤ unmarked names marks
unfolding unmarked
unmarked-insert-le [] x m marks = omega arith
unmarked-insert-le (name ∷ names) x m marks =
    ground (arith, unmarked-insert-le names x m marks, lookup-insert x name m marks)

unmarked-insert-lt :
    (names : List String) (x : String) (m : Mark) (marks : List (String × Mark))
    → contains names x ≡ true
    → lookup x marks ≡ none
    → unmarked names (insert x m marks) < unmarked names marks
unfolding unmarked contains
unmarked-insert-lt [] x m marks h e = cc
unmarked-insert-lt (name ∷ names) x m marks h e = elim (Bool-cases (name == x)) [
  | inl p ↦ ground (
    arith,
    eq_iff name x,
    eq_iff x x,
    lookup-insert x x m marks,
    unmarked-insert-le names x m marks,
    ap (λ (k : String). is_none (lookup k (insert x m marks))) {x = name} {y = x},
    ap (λ (k : String). is_none (lookup k marks)) {x = name} {y = x},
  )
  | inr p ↦ ground (
    arith,
    unmarked-insert-lt names x m marks,
    lookup-insert x name m marks,
    eq_iff x name,
    eq_iff name x,
  )
]

-- How the search for the order can end.
pub data Ended (deps_of : String → List String) : CompileError ⊎ List String → Type 0 where
  ordered : (order : List String) → Ended deps_of (inr order)
  cyclic : (name : String) → Reaches deps_of name name → Ended deps_of (inl (circular name))

module _ (deps_of : String → List String) (names : List String)
    (closed : (x d : String) → contains (deps_of x) d ≡ true → contains names d ≡ true) where
  -- The error of a cycle, or no more sets without a mark.
  abbrev Lasts : ℕ → CompileError ⊎ Walk → Type 0
  Lasts k (inl e) = (name : String) × (e ≡ circular name)
  Lasts k (inr w) = unmarked names w.0 ≤ k

  bind-Lasts :
      (k k' : ℕ) (r : CompileError ⊎ Walk) (f : Walk → CompileError ⊎ Walk)
      → Lasts k r
      → ((w : Walk) → unmarked names w.0 ≤ k → Lasts k' (f w))
      → Lasts k' (bind r f)
  bind-Lasts k k' (inl e) f h g = h
  bind-Lasts k k' (inr w) f h g = g w h

  visit_each-Lasts :
      (n : ℕ) (visit : String → Walk → CompileError ⊎ Walk)
      → ((x : String) (w : Walk) (k : ℕ)
          → contains names x ≡ true
          → unmarked names w.0 ≤ k
          → k < n
          → Lasts k (visit x w))
      → (ds : List String) (w : Walk) (k : ℕ)
      → ((d : String) → contains ds d ≡ true → contains names d ≡ true)
      → unmarked names w.0 ≤ k
      → k < n
      → Lasts k (visit_each visit ds w)
  unfolding contains
  visit_each-Lasts n visit one [] w k known h l = h
  visit_each-Lasts n visit one (d ∷ ds) w k known h l =
      bind-Lasts k k (visit d w) (visit_each visit ds)
        (one d w k (known d (ground (arith, eq_iff d d))) h l)
        (λ w' h'. visit_each-Lasts n visit one ds w' k (λ x i. known x (ground arith)) h' l)

  visit_set-Lasts :
      (n : ℕ) (x : String) (w : Walk) (k : ℕ)
      → contains names x ≡ true
      → unmarked names w.0 ≤ k
      → k < n
      → Lasts k (visit_set deps_of n x w)
  unfolding visit_set
  visit_set-Lasts zero x w k i h l = absurd (omega arith)
  visit_set-Lasts (suc n) x (marks, order) k i h l = elim (Option-cases (lookup x marks)) [
    | inl e ↦
        rw (e, visit_set)
          (let less = unmarked-insert-lt names x visiting marks i e in
            bind-Lasts (k - 1) k
              (visit_each (visit_set deps_of n) (deps_of x) (insert x visiting marks, order)) _
              (visit_each-Lasts n (visit_set deps_of n) (visit_set-Lasts n) (deps_of x)
                (insert x visiting marks, order) (k - 1) (closed x) (omega arith) (omega arith))
              (λ (marks', order') h'. omega (arith, unmarked-insert-le names x finished marks')))
    | inr (visiting, e) ↦ rw (e, visit_set) (x, refl)
    | inr (finished, e) ↦ rw (e, visit_set) h
  ]

  unmarked-nil : (ns : List String) → unmarked ns [] ≡ length ns
  unfolding unmarked lookup
  unmarked-nil [] = refl
  unmarked-nil (x ∷ ns) = omega (arith, unmarked-nil ns)

  result-Ended :
      (k : ℕ) (r : CompileError ⊎ Walk)
      → Lasts k r
      → Blames deps_of [] r
      → Ended deps_of (bind r (λ (marks, order). inr order))
  result-Ended k (inl e) (name, same) h =
      subst (λ (x : CompileError). Ended deps_of (inl x)) (sym same)
        (cyclic name (subst (Blamed deps_of) same h))
  result-Ended k (inr (marks, order)) h b = ordered order

  -- Where every reference is to one of the sets, the search for the order ends: with an order, or with
  -- the error of a cycle, which names a set that refers to itself, if need be through others.
  pub topological_order-Ended : Ended deps_of (topological_order deps_of names)
  unfolding topological_order
  topological_order-Ended =
      result-Ended (length names)
        (visit_each (visit_set deps_of (suc (length names))) names ([], []))
        (visit_each-Lasts (suc (length names)) (visit_set deps_of (suc (length names)))
          (visit_set-Lasts (suc (length names))) names ([], []) (length names) (λ d i. i)
          (omega (arith, unmarked-nil names)) (omega arith))
        (visit_all-Blames deps_of (suc (length names)) names)
