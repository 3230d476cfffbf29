-- ===== src/Matrix/Solve.antt =====
-- internal/matrix/program.go: Solve, CanContainAll and findContaining.
pub mod Cost
pub mod Search
pub mod Optimal
pub mod Decide
pub mod Contain
use llemon_swap.Base.{
  ℕ, zero, suc, ◌+◌, String, Bool, true, false, not, ◌&&◌, ◌||◌, ◌==◌, Option, none, some, List, [],
  ◌∷◌, ◌++◌, ltb, length, lookup, contains, is_empty, sort_strings, if◌then◌else◌,
}
use llemon_swap.Matrix.Mask.{BitMask, empty_mask, has, set_bit, subset_of}
use llemon_swap.Matrix.Registry.{Bits}
use llemon_swap.Matrix.Evaluate.{
  Witness, nothing, model, pair, State, Evaluator, new_evaluator, evaluate,
}
use llemon_swap.Matrix.Program.{CompiledSet, SupportedSet, Program, supports_all}

pub record Decision : Type 0 where
  pub evict : List String
  pub target_set : List String
  pub set_name : String
  pub dsl : String
  pub total_cost : ℕ

-- The configuration allows positive costs only.
unfoldable pub eviction_cost : List (String × ℕ) → String → ℕ
unfolding lookup
eviction_cost costs m = elim (lookup m costs) [ some cost ↦ cost | none ↦ 1 ]

-- `e.modelBits[model]`, the zero value for a model that has no entry.
abbrev pub bit_of : Bits → String → ℕ
bit_of bits m = elim (lookup m bits) [ some b ↦ b | none ↦ 0 ]

-- The cost of the running models that the mask does not hold.
unfoldable pub mask_cost : Bits → List (String × ℕ) → List String → BitMask → ℕ
unfolding eviction_cost has lookup
mask_cost bits costs [] mask = 0
mask_cost bits costs (m ∷ running) mask =
    (if not (has mask (bit_of bits m)) then eviction_cost costs m else 0)
    + mask_cost bits costs running mask

-- Those models.
unfoldable pub evicted : Bits → List String → BitMask → List String
unfolding has lookup
evicted bits [] mask = []
evicted bits (m ∷ running) mask =
    let rest = evicted bits running mask in
    if not (has mask (bit_of bits m)) then m ∷ rest else rest

pub record Best : Type 0 where
  pub cost : ℕ
  pub set : SupportedSet
  pub state : State

unfoldable pub better : Best → Option Best → Option Best
better new none = some new
better new (some best) = if ltb new.cost best.cost then some new else some best

module _ (bits : Bits) (costs : List (String × ℕ)) (target_bit : ℕ) (running : List String) where
  -- The loop over the states of a set.
  unfoldable pub consider_states : SupportedSet → List State → Option Best → Option Best
  unfolding better mask_cost has
  consider_states set [] best = best
  consider_states set (s ∷ states) best = consider_states set states (
      if not (has s.mask target_bit)
      then best
      else better (record { cost = mask_cost bits costs running s.mask; set = set; state = s })
          best)

-- Whether the expression of a set mentions the target.
unfoldable pub mentions : Program → SupportedSet → String → Bool
unfolding lookup has
mentions p set target = elim (lookup target p.model_bits) [
  | none ↦ false
  | some b ↦ has set.support b
]

-- The loop over the sets.
unfoldable pub consider_sets :
    Program
    → Evaluator
    → List (String × ℕ)
    → String
    → List String
    → List SupportedSet
    → Option Best
    → Option Best
unfolding consider_states mentions evaluate lookup
consider_sets p ev costs target running [] best = best
consider_sets p ev costs target running (set ∷ sets) best =
    consider_sets p ev costs target running sets (
      if not (mentions p set target)
      then best
      else consider_states ev.model_bits costs (bit_of ev.model_bits target) running set
          (evaluate ev set.root) best)

-- flattenWitness: its closure `visit`, whose two collections hold the same models.
unfoldable pub visit : Witness → List String → List String
unfolding contains
visit nothing found = found
visit (model m) found = if not (m == "") && not (contains found m) then found ++ m ∷ [] else found
visit (pair l r) found = visit r (visit l found)

unfoldable pub flatten_witness : Witness → List String
unfolding visit sort_strings
flatten_witness w = sort_strings (visit w [])

unfoldable pub full_mask_from : ℕ → ℕ → BitMask → BitMask
unfolding set_bit
full_mask_from b zero mask = mask
full_mask_from b (suc n) mask = full_mask_from (suc b) n (set_bit mask b)

unfoldable pub full_mask : Evaluator → BitMask
unfolding full_mask_from
full_mask ev = full_mask_from 0 (length ev.model_bits) (empty_mask ev.words)

-- Whether a state holds the whole mask.
unfoldable pub any_holds : BitMask → List State → Bool
unfolding subset_of
any_holds required [] = false
any_holds required (s ∷ states) = subset_of required s.mask || any_holds required states

-- The common loop of CanContainAll and findContaining: the first set with such a state.
unfoldable pub first_containing :
    Program → Evaluator → List String → List SupportedSet → Option SupportedSet
unfolding supports_all any_holds evaluate full_mask
first_containing p ev models [] = none
first_containing p ev models (set ∷ sets) =
    let rest = first_containing p ev models sets in
    if supports_all p set models && any_holds (full_mask ev) (evaluate ev set.root)
    then some set
    else rest

unfoldable pub can_contain_all : Program → List String → Bool
unfolding first_containing new_evaluator
can_contain_all p models =
    if is_empty models
    then true
    else elim (first_containing p (new_evaluator models) models p.sets) [
      | none ↦ false
      | some set ↦ true
    ]

unfoldable pub find_containing : Program → List String → String × String
unfolding first_containing new_evaluator
find_containing p models =
    if is_empty models
    then ("", "")
    else elim (first_containing p (new_evaluator models) models p.sets) [
      | none ↦ ("", "")
      | some set ↦ (set.name, set.dsl)
    ]

-- The decision for the best state, or for a target that no set allows.
unfoldable pub decide : Bits → String → List String → Option Best → Decision
unfolding evicted flatten_witness
decide bits target running none = record {
  evict = running;
  target_set = target ∷ [];
  set_name = "";
  dsl = "";
  total_cost = 0;
}
decide bits target running (some best) = record {
  evict = evicted bits running best.state.mask;
  target_set = flatten_witness best.state.witness;
  set_name = best.set.name;
  dsl = best.set.dsl;
  total_cost = best.cost;
}

unfoldable pub solve : Program → String → List String → List (String × ℕ) → Decision
unfolding consider_sets decide new_evaluator find_containing contains
solve p target running costs =
    if contains running target
    then (let (name, dsl) = find_containing p running in
        record { evict = []; target_set = running; set_name = name; dsl = dsl; total_cost = 0 })
    else (let ev = new_evaluator (target ∷ running) in
        decide ev.model_bits target running (consider_sets p ev costs target running p.sets none))
