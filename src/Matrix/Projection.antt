-- ===== src/Matrix/Projection.antt =====
-- internal/matrix/program.go: the states of the evaluator are the projections of the selections of
-- an expression, and every selection is covered by one of them.
pub mod Sound
pub mod Complete
use llemon_swap.Base.{
  ℕ, String, ◌≡◌, refl, Bool, true, false, ◌||◌, Option, none, some, List, [], ◌∷◌, ◌++◌, arith,
  eqb, length, lookup, Bool-cases, ◌⊎◌, inl, inr,
}
use llemon_swap.Matrix.Mask.{BitMask, has}
use llemon_swap.Matrix.Registry.{Bits, IsRegistry, words_for}
use llemon_swap.Matrix.Evaluate.{Witness, nothing, model, pair, State, Evaluator}

-- The models of a witness, from left to right.
abbrev pub models : Witness → List String
models nothing = []
models (model m) = m ∷ []
models (pair l r) = models l ++ models r

abbrev pub is_at : Option ℕ → ℕ → Bool
is_at none j = false
is_at (some b) j = eqb b j

-- Whether one of the models has the position.
abbrev pub projection : Bits → List String → ℕ → Bool
projection bits [] j = false
projection bits (m ∷ ms) j = is_at (lookup m bits) j || projection bits ms j

pub projection-append :
    (bits : Bits) (xs ys : List String) (j : ℕ)
    → projection bits (xs ++ ys) j ≡ (projection bits xs j || projection bits ys j)
projection-append bits [] ys j = refl
projection-append bits (x ∷ xs) ys j = ground (arith, projection-append bits xs ys j)

-- An evaluator that newEvaluator makes.
pub record IsEvaluator (ev : Evaluator) : Type 0 where
  pub registry : IsRegistry ev.model_bits
  pub sized : ev.words ≡ words_for ev.model_bits

-- A state whose mask has the words of the query and holds just the models of its witness, which
-- satisfy `Q`.
pub record IsProjection (ev : Evaluator) (Q : List String → Type 0) (s : State) : Type 0 where
  pub sized : length s.mask ≡ ev.words
  pub exact : (j : ℕ) → has s.mask j ≡ projection ev.model_bits (models s.witness) j
  pub selected : Q (models s.witness)

-- A mask that holds the models.
abbrev pub Covers : Bits → List String → BitMask → Type 0
Covers bits xs mask = (j : ℕ) → projection bits xs j ≡ true → has mask j ≡ true
