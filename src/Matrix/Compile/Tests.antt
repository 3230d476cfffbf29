-- ===== src/Matrix/Compile/Tests.antt =====
-- internal/matrix/program.go: runs of Compile at concrete inputs, and instances of its theorems.
use llemon_swap.Base.{
  String, ◌≡◌, refl, Bool, true, false, some, List, [], ◌∷◌, inl, inr, lookup, contains, eq_iff,
  arith, ◌==◌, if◌then◌else◌,
}
use llemon_swap.Matrix.Dsl.Lex.{Classes}
use llemon_swap.Matrix.Solve.{can_contain_all}
use llemon_swap.Matrix.Compile.{circular, Definition, bind, topological_order, compile}
use llemon_swap.Matrix.Compile.Order.{IsLinkable, topological_order-IsLinkable}
use llemon_swap.Matrix.Compile.Fuel.{Ended, topological_order-Ended}

abbrev ascii : Classes
ascii = record { wide_space = λ n. false; wide_letter = λ n. false; wide_digit = λ n. false }

abbrev demo_definitions : List Definition
demo_definitions =
    record { name = "main"; dsl = "+base & c" } ∷ record { name = "base"; dsl = "a | b" } ∷ []

demo_compile :
    bind {B = List Bool}
      (compile ascii demo_definitions (λ name. some name))
      (λ p. inr (can_contain_all p ("b" ∷ "c" ∷ []) ∷ can_contain_all p ("a" ∷ "b" ∷ []) ∷ []))
    ≡ inr (true ∷ false ∷ [])
unfolding compile can_contain_all
demo_compile = refl

demo_circular :
    bind {B = List Bool}
      (compile ascii
        (record { name = "x"; dsl = "+y" } ∷ record { name = "y"; dsl = "a | +x" } ∷ [])
        (λ name. some name))
      (λ p. inr [])
    ≡ inl (circular "x")
unfolding compile
demo_circular = refl

abbrev demo_deps : String → List String
demo_deps name = if name == "main" then "base" ∷ [] else []

demo_order : topological_order demo_deps ("main" ∷ "base" ∷ []) ≡ inr ("base" ∷ "main" ∷ [])
unfolding topological_order lookup
demo_order = refl

topological_order-IsLinkable_example :
    IsLinkable demo_deps [] ("base" ∷ "main" ∷ [])
    × ((d : String)
        → contains ("main" ∷ "base" ∷ []) d ≡ true
        → contains ("base" ∷ "main" ∷ []) d ≡ true)
topological_order-IsLinkable_example =
    topological_order-IsLinkable demo_deps ("main" ∷ "base" ∷ []) ("base" ∷ "main" ∷ []) demo_order

demo_closed :
    (x d : String) → contains (demo_deps x) d ≡ true → contains ("main" ∷ "base" ∷ []) d ≡ true
unfolding contains
demo_closed x d h = ground (arith, eq_iff x "main")

topological_order-Ended_example :
    Ended demo_deps (topological_order demo_deps ("main" ∷ "base" ∷ []))
topological_order-Ended_example =
    topological_order-Ended demo_deps ("main" ∷ "base" ∷ []) demo_closed
