-- ===== src/Matrix/Solve/Cost.antt =====
-- internal/matrix/program.go, Solve: the cost of a state is the cost of the models that its selection
-- leaves out.
use llemon_swap.Base.{
  ℕ, ◌+◌, ◌≤◌, String, ◌≡◌, refl, ◌∙◌, not, eq_iff, some, List, [], ◌∷◌, arith, lookup, contains,
  All, Option-cases, inl, inr, if◌then◌else◌,
}
use llemon_swap.Matrix.Mask.{BitMask, has}
use llemon_swap.Matrix.Registry.{Bits, IsRegistry}
use llemon_swap.Matrix.Evaluate.{State, Evaluator}
use llemon_swap.Matrix.Projection.{models, projection, Covers, IsEvaluator, IsProjection}
use llemon_swap.Matrix.Solve.{eviction_cost, bit_of, mask_cost, evicted}

-- The cost of the running models that a model set leaves out, and those models: what a decision for
-- the set evicts.
abbrev pub set_cost : List (String × ℕ) → List String → List String → ℕ
set_cost costs [] xs = 0
set_cost costs (m ∷ running) xs =
    (if not (contains xs m) then eviction_cost costs m else 0) + set_cost costs running xs

abbrev pub left_out : List String → List String → List String
left_out [] xs = []
left_out (m ∷ running) xs =
    let rest = left_out running xs in if not (contains xs m) then m ∷ rest else rest

abbrev pub IsKnown : Bits → String → Type 0
IsKnown bits m = (b : ℕ) × (lookup m bits ≡ some b)

-- A model that has a position is in a set exactly where its position is.
pub projection-contains :
    (bits : Bits) (xs : List String) (m : String) (b : ℕ)
    → IsRegistry bits
    → lookup m bits ≡ some b
    → projection bits xs b ≡ contains xs m
unfolding contains
projection-contains bits [] m b r e = refl
projection-contains bits (x ∷ xs) m b r e = elim (Option-cases (lookup x bits)) [
  | inl k ↦ rw k (ground (arith, eq_iff x m, projection-contains bits xs m b r e))
  | inr (c, k) ↦
      rw k (ground (arith, eq_iff x m, projection-contains bits xs m b r e, r.injective x m b))
]

-- A mask that covers a set costs no more than the set.
pub mask_cost-le :
    (bits : Bits) (costs : List (String × ℕ)) (running xs : List String) (mask : BitMask)
    → IsRegistry bits
    → All (IsKnown bits) running
    → Covers bits xs mask
    → mask_cost bits costs running mask ≤ set_cost costs running xs
unfolding mask_cost
mask_cost-le bits costs [] xs mask r k c = omega arith
mask_cost-le bits costs (m ∷ running) xs mask r k c =
    let (b, e) = k.0 in
    let ih = mask_cost-le bits costs running xs mask r k.1 c in
    ground (arith, ih, e, c b, projection-contains bits xs m b r e)

-- A state's mask holds a model that has a position exactly where its selection does.
pub has-contains :
    (ev : Evaluator) (Q : List String → Type 0) (s : State) (m : String)
    → IsEvaluator ev
    → IsProjection ev Q s
    → IsKnown ev.model_bits m
    → has s.mask (bit_of ev.model_bits m) ≡ contains (models s.witness) m
has-contains ev Q s m made p (b, e) =
    rw (e, bit_of)
      (p.exact b ∙ projection-contains ev.model_bits (models s.witness) m b made.registry e)

module _ (ev : Evaluator) (made : IsEvaluator ev) (Q : List String → Type 0) (s : State)
    (p : IsProjection ev Q s) where
  pub mask_cost-eq :
      (costs : List (String × ℕ)) (running : List String)
      → All (IsKnown ev.model_bits) running
      → mask_cost ev.model_bits costs running s.mask ≡ set_cost costs running (models s.witness)
  unfolding mask_cost
  mask_cost-eq costs [] k = refl
  mask_cost-eq costs (m ∷ running) k =
      ground (arith, has-contains ev Q s m made p k.0, mask_cost-eq costs running k.1)

  pub evicted-eq :
      (running : List String)
      → All (IsKnown ev.model_bits) running
      → evicted ev.model_bits running s.mask ≡ left_out running (models s.witness)
  unfolding evicted
  evicted-eq [] k = refl
  evicted-eq (m ∷ running) k =
      ground (arith, has-contains ev Q s m made p k.0, evicted-eq running k.1)
