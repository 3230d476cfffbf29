-- ===== src/Matrix/Evaluate.antt =====
-- internal/matrix/program.go: the evaluator, which projects every selection of an expression onto
-- the models that one query is about. Its memo table only saves work, and is not modelled.
use llemon_swap.Base.{
  ℕ, String, Bool, false, ◌||◌, none, some, List, [], ◌∷◌, ◌++◌, lookup, if◌then◌else◌,
}
use llemon_swap.Matrix.Mask.{BitMask, empty_mask, subset_of, union_mask, set_bit}
use llemon_swap.Matrix.Registry.{Bits, register, words_for}
use llemon_swap.Matrix.Node.{Node, Nodes, leaf, ref, conj, disj, nil, cons}

-- The nil pointer, a model, or two parts.
pub data Witness : Type 0 where
  nothing : Witness
  model : String → Witness
  pair : Witness → Witness → Witness

pub record State : Type 0 where
  pub mask : BitMask
  pub witness : Witness

pub record Evaluator : Type 0 where
  pub model_bits : Bits
  pub words : ℕ

unfoldable pub new_evaluator : List String → Evaluator
unfolding register
new_evaluator relevant =
    let bits = register [] relevant in record { model_bits = bits; words = words_for bits }

-- Whether a state of the frontier holds all that the mask holds.
unfoldable pub is_dominated : BitMask → List State → Bool
unfolding subset_of
is_dominated mask [] = false
is_dominated mask (s ∷ states) = subset_of mask s.mask || is_dominated mask states

-- The states that the mask does not hold.
unfoldable pub undominated : BitMask → List State → List State
unfolding subset_of
undominated mask [] = []
undominated mask (s ∷ states) =
    let rest = undominated mask states in if subset_of s.mask mask then rest else s ∷ rest

unfoldable pub add_to_frontier : List State → State → List State
unfolding is_dominated undominated
add_to_frontier states candidate =
    if is_dominated candidate.mask states
    then states
    else undominated candidate.mask states ++ candidate ∷ []

unfoldable pub add_all : List State → List State → List State
unfolding add_to_frontier
add_all states [] = states
add_all states (s ∷ more) = add_all (add_to_frontier states s) more

abbrev pub merge : State → State → State
merge left right = record {
  mask = union_mask left.mask right.mask;
  witness = pair left.witness right.witness;
}

-- The inner and the outer loop of AND.
unfoldable pub combine_with : State → List State → List State → List State
unfolding add_to_frontier union_mask
combine_with left [] combined = combined
combine_with left (right ∷ rights) combined =
    combine_with left rights (add_to_frontier combined (merge left right))

unfoldable pub combine : List State → List State → List State → List State
unfolding combine_with
combine [] rights combined = combined
combine (left ∷ lefts) rights combined = combine lefts rights (combine_with left rights combined)

module _ (ev : Evaluator) where
  unfoldable pub leaf_mask : String → BitMask
  unfolding lookup set_bit
  leaf_mask m = elim (lookup m ev.model_bits) [
    | none ↦ empty_mask ev.words
    | some b ↦ set_bit (empty_mask ev.words) b
  ]

  abbrev pub none_selected : State
  none_selected = record { mask = empty_mask ev.words; witness = nothing }

  unfoldable mutual
    unfolding leaf_mask add_all combine

    pub evaluate : Node → List State
    evaluate (leaf m) = record { mask = leaf_mask m; witness = model m } ∷ []
    evaluate (ref name n) = evaluate n
    evaluate (disj ns) = evaluate_any ns []
    evaluate (conj ns) = evaluate_each ns (none_selected ∷ [])

    pub evaluate_any : Nodes → List State → List State
    evaluate_any nil states = states
    evaluate_any (cons n ns) states = evaluate_any ns (add_all states (evaluate n))

    pub evaluate_each : Nodes → List State → List State
    evaluate_each nil states = states
    evaluate_each (cons n ns) states = evaluate_each ns (combine states (evaluate n) [])
