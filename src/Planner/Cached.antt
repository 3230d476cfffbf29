-- ===== src/Planner/Cached.antt =====
-- internal/router/matrix.go and matrix_solver.go: the matrix planner, which keeps its last decision.
use llemon_swap.Base.{
  ℕ, String, ◌≡◌, refl, ap, Bool, true, false, ◌&&◌, List, [], ◌∷◌, ◌==◌, eq_iff, arith, map,
  Bool-cases, inl, inr, if◌then◌else◌,
}
use llemon_swap.Scheduler.State.{Swapper}
use llemon_swap.Matrix.Program.{Program}
use llemon_swap.Matrix.Solve.{Decision, solve}

-- slices.Equal
abbrev pub equal : List String → List String → Bool
equal [] [] = true
equal [] (y ∷ ys) = false
equal (x ∷ xs) [] = false
equal (x ∷ xs) (y ∷ ys) = x == y && equal xs ys

equal-eq : (xs ys : List String) → equal xs ys ≡ true → xs ≡ ys
equal-eq [] [] h = refl
equal-eq [] (y ∷ ys) h = cc
equal-eq (x ∷ xs) [] h = cc
equal-eq (x ∷ xs) (y ∷ ys) h = ground (arith, eq_iff x y, equal-eq xs ys)

-- matrixSolver
pub record MatrixSolver : Type 0 where
  pub program : Program
  pub evict_costs : List (String × ℕ)

abbrev pub solve_with : MatrixSolver → String → List String → Decision
solve_with solver target running = solve solver.program target running solver.evict_costs

-- The fields of matrixSwapper that change.
pub record MatrixSwapper : Type 0 where
  pub last_target : String
  pub last_running : List String
  pub last_result : Decision
  pub last_valid : Bool

-- The zero value of the fields, as NewMatrix makes them.
abbrev pub new_swapper : MatrixSwapper
new_swapper = record {
  last_target = "";
  last_running = [];
  last_result = record { evict = []; target_set = []; set_name = ""; dsl = ""; total_cost = 0 };
  last_valid = false;
}

module _ (solver : MatrixSolver) where
  unfoldable pub solve_cached : String → List String → MatrixSwapper → Decision × MatrixSwapper
  solve_cached target running p =
      if p.last_valid && p.last_target == target && equal p.last_running running
      then (p.last_result, p)
      else (let result = solve_with solver target running in
          (
            result,
            record {
              last_target = target;
              last_running = running;
              last_result = result;
              last_valid = true;
            },
          ))

  unfoldable pub eviction_for_cached :
      String → List String → MatrixSwapper → List String × MatrixSwapper
  unfolding solve_cached
  eviction_for_cached target running p =
      let (result, p') = solve_cached target running p in (result.evict, p')

  -- A decision that is kept is the solver's own.
  abbrev pub IsFresh : MatrixSwapper → Type 0
  IsFresh p = p.last_valid ≡ true → p.last_result ≡ solve_with solver p.last_target p.last_running

  hit :
      (target : String) (running : List String) (p : MatrixSwapper)
      → IsFresh p
      → (p.last_valid && p.last_target == target && equal p.last_running running) ≡ true
      → p.last_result ≡ solve_with solver target running
  hit target running p h e =
      let v : p.last_valid ≡ true = ground arith in
      let t : p.last_target ≡ target = (eq_iff p.last_target target).0 (ground arith) in
      let r : p.last_running ≡ running = equal-eq p.last_running running (ground arith) in
      cc (h v, t, r)

  solve_cached-IsFresh :
      (target : String) (running : List String) (p : MatrixSwapper)
      → IsFresh p
      → ((solve_cached target running p).0 ≡ solve_with solver target running)
        × IsFresh (solve_cached target running p).1
  unfolding solve_cached
  solve_cached-IsFresh target running p h =
      elim (Bool-cases (p.last_valid && p.last_target == target && equal p.last_running running)) [
        | inl e ↦ rw e (hit target running p h e, h)
        | inr e ↦ rw e (refl, λ k. refl)
      ]

  -- A run of the planner over queries, one after the other.
  unfoldable pub answers : List (String × List String) → MatrixSwapper → List (List String)
  unfolding eviction_for_cached
  answers [] p = []
  answers ((target, running) ∷ queries) p =
      let (evict, p') = eviction_for_cached target running p in evict ∷ answers queries p'

  answers-fresh :
      (queries : List (String × List String)) (p : MatrixSwapper)
      → IsFresh p
      → answers queries p ≡ map (λ q. (solve_with solver q.0 q.1).evict) queries
  unfolding answers
  answers-fresh [] p h = refl
  answers-fresh ((target, running) ∷ queries) p h =
      let (same, fresh) = solve_cached-IsFresh target running p h in
      cc (
        ap (λ (d : Decision). d.evict) same,
        answers-fresh queries (solve_cached target running p).1 fresh,
      )

  -- Whatever the scheduler asks and in whatever order, each answer of the planner is what the solver
  -- decides for that target and running set alone: the kept decision is never a stale one.
  pub answers-eq :
      (queries : List (String × List String))
      → answers queries new_swapper ≡ map (λ q. (solve_with solver q.0 q.1).evict) queries
  answers-eq queries = answers-fresh queries new_swapper (λ k. cc)

  -- So it is a pure policy of the scheduler.
  abbrev pub matrix_planner : Swapper
  matrix_planner = record {
    eviction_for = λ target running. (solve_with solver target running).evict;
  }
