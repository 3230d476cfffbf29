-- ===== src/Matrix/Solve/Optimal.antt =====
-- internal/matrix/program.go, Solve: the decision is one of a cheapest model set that has the target.
use llemon_swap.Base.{
  ℕ, String, ◌≡◌, ◌≢◌, refl, sym, ◌∙◌, true, ◌||◌, ◌==◌, eq_iff, Option, none, List, [], ◌∷◌, arith,
  contains, contains-append, contains-sort_strings, All, Any, Bool-cases, inl, inr,
}
use llemon_swap.Matrix.Mask.{has}
use llemon_swap.Matrix.Registry.{Bits, new-IsRegistry, register-some}
use llemon_swap.Matrix.Node.{Selects}
use llemon_swap.Matrix.Evaluate.{
  Witness, nothing, model, pair, State, Evaluator, new_evaluator, evaluate,
}
use llemon_swap.Matrix.Frontier.{OfMask}
use llemon_swap.Matrix.Program.{CompiledSet, SupportedSet, Program, add_support, new_program}
use llemon_swap.Matrix.Program.Support.{IsSupported, new_program-IsSupported, Selects-supported}
use llemon_swap.Matrix.Projection.{models, Covers, IsEvaluator, IsProjection}
use llemon_swap.Matrix.Projection.Sound.{evaluate-IsProjection}
use llemon_swap.Matrix.Projection.Complete.{evaluate-Covers}
use llemon_swap.Matrix.Solve.{
  Best, bit_of, mask_cost, mentions, consider_sets, visit, flatten_witness,
}
use llemon_swap.Matrix.Solve.Cost.{
  set_cost, IsKnown, projection-contains, mask_cost-le, has-contains, mask_cost-eq,
}
use llemon_swap.Matrix.Solve.Search.{AtMost, IfAny, IsOffer, HasOffer, sets-new, sets-IfAny}

-- One of the sets describes the model set.
abbrev pub Allows : List CompiledSet → List String → Type 0
Allows sets xs = Any (λ set. Selects set.root xs) sets

pub new_evaluator-IsEvaluator : (relevant : List String) → IsEvaluator (new_evaluator relevant)
unfolding new_evaluator
new_evaluator-IsEvaluator relevant = record { registry = new-IsRegistry relevant; sized = refl }

pub new_evaluator-IsKnown :
    (relevant : List String) (m : String)
    → contains relevant m ≡ true
    → IsKnown (new_evaluator relevant).model_bits m
unfolding new_evaluator
new_evaluator-IsKnown relevant m h = register-some [] relevant m h

pub All-IsKnown :
    (relevant ms : List String)
    → ((m : String) → contains ms m ≡ true → contains relevant m ≡ true)
    → All (IsKnown (new_evaluator relevant).model_bits) ms
unfolding contains
All-IsKnown relevant [] h = tt
All-IsKnown relevant (m ∷ ms) h = (
  new_evaluator-IsKnown relevant m (h m (ground (arith, eq_iff m m))),
  All-IsKnown relevant ms (λ x k. h x (ground arith)),
)

module _ (sets : List CompiledSet) (target : String) (running : List String)
    (costs : List (String × ℕ)) where
  abbrev pub program : Program
  program = new_program sets

  abbrev pub ev : Evaluator
  ev = new_evaluator (target ∷ running)

  abbrev pub best : Option Best
  best = consider_sets program ev costs target running program.sets none

  pub made : IsEvaluator ev
  made = new_evaluator-IsEvaluator (target ∷ running)

  target-IsKnown : IsKnown ev.model_bits target
  target-IsKnown =
      new_evaluator-IsKnown (target ∷ running) target
        (unfold contains in ground (arith, eq_iff target target))

  pub running-IsKnown : All (IsKnown ev.model_bits) running
  running-IsKnown = All-IsKnown (target ∷ running) running (λ m h. unfold contains in ground arith)

  -- A model set with the target, as a state of the evaluator.
  covering-IsOffer :
      (xs : List String) (set : SupportedSet) (states : List State)
      → contains xs target ≡ true
      → Any (OfMask (Covers ev.model_bits xs)) states
      → Any
          (IsOffer ev.model_bits costs
            (bit_of ev.model_bits target)
            running
            set
            (set_cost costs running xs))
          states
  covering-IsOffer xs set [] h k = absurd k
  covering-IsOffer xs set (s ∷ states) h (inl c) =
      let (b, e) = target-IsKnown in
      inl (
        rw (e, bit_of) (c b (projection-contains ev.model_bits xs target b made.registry e ∙ h)),
        mask_cost-le ev.model_bits costs running xs s.mask made.registry running-IsKnown c,
      )
  covering-IsOffer xs set (s ∷ states) h (inr k) = inr (covering-IsOffer xs set states h k)

  supported_offer :
      (xs : List String) (set : SupportedSet)
      → IsSupported program.model_bits set
      → contains xs target ≡ true
      → Selects set.root xs
      → HasOffer program ev costs target running (set_cost costs running xs) set
  unfolding mentions
  supported_offer xs set ok h s =
      let (b, e, t) = Selects-supported program.model_bits set xs target ok s h in
      (
        rw (e, mentions) t,
        covering-IsOffer xs set (evaluate ev set.root) h (evaluate-Covers ev made s),
      )

  supported_offers :
      (xs : List String) (bits : Bits) (cs : List CompiledSet)
      → All (IsSupported program.model_bits) (add_support bits cs)
      → contains xs target ≡ true
      → Allows cs xs
      → Any
          (HasOffer program ev costs target running (set_cost costs running xs))
          (add_support bits cs)
  unfolding add_support
  supported_offers xs bits [] ok h a = absurd a
  supported_offers xs bits (c ∷ cs) ok h (inl s) = inl (supported_offer xs _ ok.0 h s)
  supported_offers xs bits (c ∷ cs) ok h (inr a) = inr (supported_offers xs bits cs ok.1 h a)

  pub best-AtMost :
      (xs : List String)
      → contains xs target ≡ true
      → Allows sets xs
      → AtMost (set_cost costs running xs) best
  best-AtMost xs h a =
      sets-new program ev costs target running (set_cost costs running xs) program.sets none
        (unfold new_program in supported_offers xs _ sets (new_program-IsSupported sets) h a)

  -- A best state is the projection of a model set with the target, at its cost.
  pub record IsChoice (b : Best) : Type 0 where
    pub cost : b.cost ≡ set_cost costs running (models b.state.witness)
    pub allowed : Allows sets (models b.state.witness)
    pub has_target : contains (models b.state.witness) target ≡ true
    pub proper : IsProjection ev (Selects b.set.root) b.state

  pub All-allow :
      (bits : Bits) (cs : List CompiledSet)
      → ((xs : List String) → Allows cs xs → Allows sets xs)
      → All (λ set. (xs : List String) → Selects set.root xs → Allows sets xs) (add_support bits cs)
  unfolding add_support
  All-allow bits [] k = tt
  All-allow bits (c ∷ cs) k = (λ xs s. k xs (inl s), All-allow bits cs (λ xs a. k xs (inr a)))

  choose :
      (ss : List SupportedSet)
      → All (λ set. (xs : List String) → Selects set.root xs → Allows sets xs) ss
      → All
          (λ set.
            (s : State)
            → IsProjection ev (Selects set.root) s
            → has s.mask (bit_of ev.model_bits target) ≡ true
            → IsChoice (record {
              cost = mask_cost ev.model_bits costs running s.mask;
              set = set;
              state = s;
            }))
          ss
  choose [] h = tt
  choose (set ∷ ss) h = (
    λ s p t. record {
      cost = mask_cost-eq ev made (Selects set.root) s p costs running running-IsKnown;
      allowed = h.0 (models s.witness) p.selected;
      has_target = sym (has-contains ev (Selects set.root) s target made p target-IsKnown) ∙ t;
      proper = p;
    },
    choose ss h.1,
  )

  pub best-IsChoice : IfAny IsChoice best
  best-IsChoice =
      sets-IfAny program ev costs target running (λ set. IsProjection ev (Selects set.root))
        IsChoice (λ set. evaluate-IsProjection ev made set.root) program.sets
        (choose program.sets (unfold new_program in All-allow _ sets (λ xs a. a))) none tt

contains-visit :
    (w : Witness) (found : List String) (m : String)
    → m ≢ ""
    → contains (visit w found) m ≡ (contains found m || contains (models w) m)
unfolding visit contains
contains-visit nothing found m ne = ground arith
contains-visit (model x) found m ne = ground (
  arith,
  eq_iff x m,
  eq_iff x "",
  contains-append found (x ∷ []) m,
  Bool-cases (contains found m),
  Bool-cases (x == m),
)
contains-visit (pair l r) found m ne = ground (
  arith,
  contains-visit l found m ne,
  contains-visit r (visit l found) m ne,
  contains-append (models l) (models r) m,
)

-- flattenWitness names the models of the witness.
pub contains-flatten_witness :
    (w : Witness) (m : String) → m ≢ "" → contains (flatten_witness w) m ≡ contains (models w) m
unfolding flatten_witness contains
contains-flatten_witness w m ne = contains-sort_strings (visit w []) m ∙ contains-visit w [] m ne
