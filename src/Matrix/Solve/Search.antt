-- ===== src/Matrix/Solve/Search.antt =====
-- internal/matrix/program.go, Solve: the loops keep a cheapest state among those that have the target.
use llemon_swap.Base.{
  ℕ, ◌≤◌, String, ◌≡◌, Bool, true, false, not, Option, none, some, List, [], ◌∷◌, arith, ltb, All,
  Any, Bool-cases, inl, inr, if◌then◌else◌,
}
use llemon_swap.Matrix.Mask.{has}
use llemon_swap.Matrix.Registry.{Bits}
use llemon_swap.Matrix.Evaluate.{State, Evaluator, evaluate}
use llemon_swap.Matrix.Program.{SupportedSet, Program}
use llemon_swap.Matrix.Solve.{
  Best, better, bit_of, mask_cost, consider_states, mentions, consider_sets,
}

-- There is a best state, and it costs at most `c`.
abbrev pub AtMost : ℕ → Option Best → Type 0
AtMost c none = ⊥
AtMost c (some best) = best.cost ≤ c

-- Every best state satisfies `Q`.
abbrev pub IfAny : (Best → Type 0) → Option Best → Type 0
IfAny Q none = Unit
IfAny Q (some best) = Q best

better-keeps :
    (c : ℕ) (new : Best) (best : Option Best) → AtMost c best → AtMost c (better new best)
unfolding better
better-keeps c new none h = absurd h
better-keeps c new (some best) h = ground arith

better-new : (c : ℕ) (new : Best) (best : Option Best) → new.cost ≤ c → AtMost c (better new best)
unfolding better
better-new c new none h = h
better-new c new (some best) h = ground arith

better-IfAny :
    (Q : Best → Type 0) (new : Best) (best : Option Best)
    → Q new
    → IfAny Q best
    → IfAny Q (better new best)
unfolding better
better-IfAny Q new none q h = q
better-IfAny Q new (some best) q h = elim (Bool-cases (ltb new.cost best.cost)) [
  | inl e ↦ rw e q
  | inr e ↦ rw e h
]

module _ (bits : Bits) (costs : List (String × ℕ)) (target_bit : ℕ) (running : List String)
    (set : SupportedSet) where
  -- A state that has the target and costs at most `c`.
  abbrev pub IsOffer : ℕ → State → Type 0
  IsOffer c s = (has s.mask target_bit ≡ true) × (mask_cost bits costs running s.mask ≤ c)

  abbrev offer : State → Best
  offer s = record { cost = mask_cost bits costs running s.mask; set = set; state = s }

  states-keeps :
      (c : ℕ) (states : List State) (best : Option Best)
      → AtMost c best
      → AtMost c (consider_states bits costs target_bit running set states best)
  unfolding consider_states
  states-keeps c [] best h = h
  states-keeps c (s ∷ states) best h = states-keeps c states _ (kept (has s.mask target_bit))
    where
      kept : (b : Bool) → AtMost c (if not b then best else better (offer s) best)
      kept true = better-keeps c (offer s) best h
      kept false = h

  states-new :
      (c : ℕ) (states : List State) (best : Option Best)
      → Any (IsOffer c) states
      → AtMost c (consider_states bits costs target_bit running set states best)
  unfolding consider_states
  states-new c [] best h = absurd h
  states-new c (s ∷ states) best (inl (t, l)) =
      states-keeps c states _ (rw t (better-new c (offer s) best l))
  states-new c (s ∷ states) best (inr h) = states-new c states _ h

  states-IfAny :
      (P : State → Type 0) (Q : Best → Type 0)
      → ((s : State) → P s → has s.mask target_bit ≡ true → Q (offer s))
      → (states : List State) (best : Option Best) → All P states
      → IfAny Q best
      → IfAny Q (consider_states bits costs target_bit running set states best)
  unfolding consider_states
  states-IfAny P Q offers [] best h q = q
  states-IfAny P Q offers (s ∷ states) best h q =
      states-IfAny P Q offers states _ h.1 (elim (Bool-cases (has s.mask target_bit)) [
        | inl t ↦ rw t (better-IfAny Q (offer s) best (offers s h.0 t) q)
        | inr t ↦ rw t q
      ])

module _ (p : Program) (ev : Evaluator) (costs : List (String × ℕ)) (target : String)
    (running : List String) where
  -- A set that mentions the target and has such a state.
  abbrev pub HasOffer : ℕ → SupportedSet → Type 0
  HasOffer c set =
      (mentions p set target ≡ true)
      × Any (IsOffer ev.model_bits costs (bit_of ev.model_bits target) running set c)
          (evaluate ev set.root)

  sets-keeps :
      (c : ℕ) (sets : List SupportedSet) (best : Option Best)
      → AtMost c best
      → AtMost c (consider_sets p ev costs target running sets best)
  unfolding consider_sets
  sets-keeps c [] best h = h
  sets-keeps c (set ∷ sets) best h = sets-keeps c sets _ (kept (mentions p set target))
    where
      kept :
          (b : Bool)
          → AtMost c (
              if not b
              then best
              else consider_states ev.model_bits costs
                  (bit_of ev.model_bits target)
                  running
                  set
                  (evaluate ev set.root)
                  best)
      kept true =
          states-keeps ev.model_bits costs (bit_of ev.model_bits target) running set c
            (evaluate ev set.root) best h
      kept false = h

  pub sets-new :
      (c : ℕ) (sets : List SupportedSet) (best : Option Best)
      → Any (HasOffer c) sets
      → AtMost c (consider_sets p ev costs target running sets best)
  unfolding consider_sets
  sets-new c [] best h = absurd h
  sets-new c (set ∷ sets) best (inl (t, h)) = sets-keeps c sets _ (
      rw t (
        states-new ev.model_bits costs (bit_of ev.model_bits target) running set c
          (evaluate ev set.root) best h))
  sets-new c (set ∷ sets) best (inr h) = sets-new c sets _ h

  pub sets-IfAny :
      (P : SupportedSet → State → Type 0) (Q : Best → Type 0)
      → ((set : SupportedSet) → All (P set) (evaluate ev set.root))
      → (sets : List SupportedSet)
      → All
          (λ set.
            (s : State)
            → P set s
            → has s.mask (bit_of ev.model_bits target) ≡ true
            → Q (record {
              cost = mask_cost ev.model_bits costs running s.mask;
              set = set;
              state = s;
            }))
          sets
      → (best : Option Best) → IfAny Q best
      → IfAny Q (consider_sets p ev costs target running sets best)
  unfolding consider_sets
  sets-IfAny P Q states [] offers best q = q
  sets-IfAny P Q states (set ∷ sets) offers best q =
      sets-IfAny P Q states sets offers.1 _ (elim (Bool-cases (mentions p set target)) [
        | inr t ↦ rw t q
        | inl t ↦ rw t (
            states-IfAny ev.model_bits costs (bit_of ev.model_bits target) running set (P set) Q
              offers.0 (evaluate ev set.root) best (states set) q)
      ])
