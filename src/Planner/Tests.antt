-- ===== src/Planner/Tests.antt =====
-- internal/router: runs of the planners at concrete inputs, and instances of their theorems.
use llemon_swap.Base.{
  String, ◌≡◌, refl, true, false, ◌&&◌, List, [], ◌∷◌, inr, map, All, lookup, contains,
}
use llemon_swap.Matrix.Node.{leaf, disj, nil, cons}
use llemon_swap.Matrix.Program.{new_program}
use llemon_swap.Matrix.Solve.{solve}
use llemon_swap.Planner.Group.{
  GroupConfig, GroupSwapper, Assigned, assign_groups, assign_groups-Assigned, eviction_for_group,
  must_stop, contains-eviction_for_group,
}
use llemon_swap.Planner.Cached.{MatrixSolver, solve_with, answers, new_swapper, answers-eq}

abbrev small : GroupConfig
small = record { swap = true; exclusive = false; persistent = false; members = "a" ∷ "b" ∷ [] }

abbrev large : GroupConfig
large = record { swap = false; exclusive = true; persistent = false; members = "c" ∷ "d" ∷ [] }

abbrev demo_groups : List (String × GroupConfig)
demo_groups = ("small", small) ∷ ("large", large) ∷ []

abbrev demo_assignment : List (String × String)
demo_assignment = ("a", "small") ∷ ("b", "small") ∷ ("c", "large") ∷ ("d", "large") ∷ []

demo_assigned : assign_groups demo_groups [] ≡ inr demo_assignment
unfolding assign_groups
demo_assigned = refl

assign_groups-Assigned_example : All (Assigned demo_assignment) demo_groups
assign_groups-Assigned_example = assign_groups-Assigned demo_groups [] demo_assignment demo_assigned

abbrev demo_swapper : GroupSwapper
demo_swapper = record { groups = demo_groups; model_to_group = demo_assignment }

-- A model of an exclusive group stops the other group, and not its sibling.
demo_exclusive : eviction_for_group demo_swapper "c" ("a" ∷ "b" ∷ "d" ∷ []) ≡ "a" ∷ "b" ∷ []
unfolding eviction_for_group lookup contains
demo_exclusive = refl

contains-eviction_for_group_example :
    contains (eviction_for_group demo_swapper "c" ("a" ∷ "d" ∷ [])) "a"
    ≡ (contains ("a" ∷ "d" ∷ []) "a" && must_stop demo_swapper "c" "a")
contains-eviction_for_group_example =
    contains-eviction_for_group demo_swapper "c" ("a" ∷ "d" ∷ []) "a"

abbrev demo_solver : MatrixSolver
demo_solver = record {
  program = new_program (
      record { name = "main"; dsl = "a | c"; root = disj (cons (leaf "a") (cons (leaf "c") nil)) }
      ∷ []);
  evict_costs = [];
}

abbrev demo_queries : List (String × List String)
demo_queries = ("a", "c" ∷ []) ∷ ("a", "c" ∷ []) ∷ ("a", []) ∷ ("c", "a" ∷ []) ∷ []

demo_answers :
    answers demo_solver demo_queries new_swapper ≡ ("c" ∷ []) ∷ ("c" ∷ []) ∷ [] ∷ ("a" ∷ []) ∷ []
unfolding answers solve new_program
demo_answers = refl

answers-eq_example :
    answers demo_solver demo_queries new_swapper
    ≡ map (λ q. (solve_with demo_solver q.0 q.1).evict) demo_queries
answers-eq_example = answers-eq demo_solver demo_queries
