-- ===== src/Matrix/Solve/Decide.antt =====
-- internal/matrix/program.go, Solve: what its decision promises to the router's matrix planner.
use llemon_swap.Base.{
  ℕ, ◌≤◌, String, ◌≡◌, ◌≢◌, refl, true, false, Option, none, some, List, [], ◌∷◌, contains,
  Bool-cases, ◌⊎◌, inl, inr,
}
use llemon_swap.Matrix.Program.{CompiledSet, new_program}
use llemon_swap.Matrix.Projection.{models}
use llemon_swap.Matrix.Node.{Selects}
use llemon_swap.Matrix.Solve.{Decision, Best, decide, solve}
use llemon_swap.Matrix.Solve.Cost.{set_cost, left_out, evicted-eq}
use llemon_swap.Matrix.Solve.Search.{AtMost, IfAny}
use llemon_swap.Matrix.Solve.Optimal.{
  Allows, ev, made, running-IsKnown, best, best-AtMost, IsChoice, best-IsChoice,
  contains-flatten_witness,
}

module _ (sets : List CompiledSet) (target : String) (running : List String)
    (costs : List (String × ℕ)) where
  -- The decision is the one for an allowed model set that has the target.
  pub record IsChosen (d : Decision) : Type 0 where
    pub selected : List String
    pub allowed : Allows sets selected
    pub has_target : contains selected target ≡ true
    pub evicts : d.evict ≡ left_out running selected
    pub costs_it : d.total_cost ≡ set_cost costs running selected
    pub names : (m : String) → m ≢ "" → contains d.target_set m ≡ contains selected m

  -- No set allows the target, which then runs alone.
  pub record IsAlone (d : Decision) : Type 0 where
    pub evicts_all : d.evict ≡ running
    pub target_only : d.target_set ≡ target ∷ []
    pub disallowed : (xs : List String) → Allows sets xs → contains xs target ≡ false

  solve-decide :
      contains running target ≡ false
      → solve (new_program sets) target running costs
        ≡ decide
            (ev sets target running costs).model_bits
            target
            running
            (best sets target running costs)
  unfolding solve
  solve-decide fresh = rw fresh

  not_cheaper :
      (xs : List String) (o : Option Best)
      → AtMost (set_cost costs running xs) o
      → (decide (ev sets target running costs).model_bits target running o).total_cost
        ≤ set_cost costs running xs
  unfolding decide
  not_cheaper xs none h = absurd h
  not_cheaper xs (some b) h = h

  -- For a target that does not run, no allowed model set with the target evicts at a lower cost.
  pub solve-le-set_cost :
      (xs : List String)
      → contains running target ≡ false
      → contains xs target ≡ true
      → Allows sets xs
      → (solve (new_program sets) target running costs).total_cost ≤ set_cost costs running xs
  solve-le-set_cost xs fresh h a = rw (solve-decide fresh) (
      not_cheaper xs (best sets target running costs)
        (best-AtMost sets target running costs xs h a))

  decided :
      (o : Option Best)
      → IfAny (IsChoice sets target running costs) o
      → ((xs : List String)
          → contains xs target ≡ true
          → Allows sets xs
          → AtMost (set_cost costs running xs) o)
      → IsChosen (decide (ev sets target running costs).model_bits target running o)
        ⊎ IsAlone (decide (ev sets target running costs).model_bits target running o)
  unfolding decide
  decided none h k = inr (record {
    evicts_all = refl;
    target_only = refl;
    disallowed =
        λ xs a. elim (Bool-cases (contains xs target)) [ inl e ↦ absurd (k xs e a) | inr e ↦ e ];
  })
  decided (some b) h k = inl (record {
    selected = models b.state.witness;
    allowed = h.allowed;
    has_target = h.has_target;
    evicts =
        evicted-eq (ev sets target running costs) (made sets target running costs)
          (Selects b.set.root) b.state h.proper running (running-IsKnown sets target running costs);
    costs_it = h.cost;
    names = λ m ne. contains-flatten_witness b.state.witness m ne;
  })

  -- For a target that does not run, the decision is that of an allowed model set with the target (it
  -- evicts the running models that the set leaves out, at their cost, and names the set), or no set
  -- allows the target, and every running model is evicted.
  pub solve_decision :
      contains running target ≡ false
      → IsChosen (solve (new_program sets) target running costs)
        ⊎ IsAlone (solve (new_program sets) target running costs)
  solve_decision fresh = rw (solve-decide fresh) (
      decided (best sets target running costs) (best-IsChoice sets target running costs)
        (best-AtMost sets target running costs))
