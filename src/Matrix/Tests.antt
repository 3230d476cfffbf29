-- ===== src/Matrix/Tests.antt =====
-- internal/matrix: runs of the solver at concrete inputs, and instances of its theorems.
use llemon_swap.Base.{
  ℕ, ◌≤◌, String, ◌≡◌, refl, true, false, List, [], ◌∷◌, ◌⊎◌, ◌↔◌, inl, contains,
}
use llemon_swap.Matrix.Node.{
  Node, leaf, conj, disj, nil, cons, Selects, one, choice, union, here, both, done,
}
use llemon_swap.Matrix.Evaluate.{evaluate}
use llemon_swap.Matrix.Program.{CompiledSet, new_program}
use llemon_swap.Matrix.Solve.{solve, can_contain_all}
use llemon_swap.Matrix.Solve.Cost.{set_cost}
use llemon_swap.Matrix.Solve.Contain.{HasAll, can_contain_all_iff}
use llemon_swap.Matrix.Solve.Optimal.{Allows}
use llemon_swap.Matrix.Solve.Decide.{IsChosen, IsAlone, solve-le-set_cost, solve_decision}

-- (a & b) | c
abbrev demo_root : Node
demo_root = disj (cons (conj (cons (leaf "a") (cons (leaf "b") nil))) (cons (leaf "c") nil))

abbrev demo_sets : List CompiledSet
demo_sets = record { name = "main"; dsl = "(a & b) | c"; root = demo_root } ∷ []

demo_costs : List (String × ℕ)
demo_costs = ("c", 5) ∷ []

demo_evict : (solve (new_program demo_sets) "a" ("b" ∷ "c" ∷ []) demo_costs).evict ≡ "c" ∷ []
unfolding solve new_program evaluate demo_costs
demo_evict = refl

demo_coexist : can_contain_all (new_program demo_sets) ("a" ∷ "b" ∷ []) ≡ true
unfolding can_contain_all new_program evaluate
demo_coexist = refl

demo_apart : can_contain_all (new_program demo_sets) ("a" ∷ "c" ∷ []) ≡ false
unfolding can_contain_all new_program evaluate
demo_apart = refl

demo-Selects : Selects demo_root ("a" ∷ "b" ∷ [])
demo-Selects = choice (here (union (both (one "a") (both (one "b") done))))

solve-le-set_cost_example :
    (solve (new_program demo_sets) "a" ("b" ∷ "c" ∷ []) demo_costs).total_cost
    ≤ set_cost demo_costs ("b" ∷ "c" ∷ []) ("a" ∷ "b" ∷ [])
unfolding contains
solve-le-set_cost_example =
    solve-le-set_cost demo_sets "a" ("b" ∷ "c" ∷ []) demo_costs ("a" ∷ "b" ∷ []) refl refl
      (inl demo-Selects)

solve_decision_example :
    IsChosen demo_sets "a"
      ("b" ∷ "c" ∷ [])
      demo_costs
      (solve (new_program demo_sets) "a" ("b" ∷ "c" ∷ []) demo_costs)
    ⊎ IsAlone demo_sets "a"
        ("b" ∷ "c" ∷ [])
        demo_costs
        (solve (new_program demo_sets) "a" ("b" ∷ "c" ∷ []) demo_costs)
unfolding contains
solve_decision_example = solve_decision demo_sets "a" ("b" ∷ "c" ∷ []) demo_costs refl

can_contain_all_iff_example :
    (can_contain_all (new_program demo_sets) ("b" ∷ "a" ∷ []) ≡ true)
    ↔ ((xs : List String) × Allows demo_sets xs × HasAll xs ("b" ∷ "a" ∷ []))
can_contain_all_iff_example = can_contain_all_iff demo_sets ("b" ∷ "a" ∷ []) refl
