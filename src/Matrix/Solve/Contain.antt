-- ===== src/Matrix/Solve/Contain.antt =====
-- internal/matrix/program.go: CanContainAll asks whether one allowed model set has all the models.
use llemon_swap.Base.{
  ℕ, zero, suc, ◌+◌, ◌*◌, ◌≤◌, String, ◌≡◌, ◌≢◌, refl, sym, ap, subst, ◌∙◌, true, false, ◌&&◌, ◌||◌,
  eq_iff, Option, none, some, List, [], ◌∷◌, arith, ltb, leb, length, length-replicate, contains,
  is_empty, All, Any, Bool-cases, Option-cases, inl, inr, ◌↔◌,
}
use llemon_swap.Matrix.Mask.{
  BitMask, empty_mask, has, set_bit, subset_of, has-set_bit, has-subset_of, has-empty_mask,
  length-set_bit,
}
use llemon_swap.Matrix.Mask.Word.{AreWords, empty_mask-AreWords, set_bit-AreWords, subset_of-has}
use llemon_swap.Matrix.Registry.{Bits, register-IsOnto, IsOnto}
use llemon_swap.Matrix.Node.{Selects}
use llemon_swap.Matrix.Evaluate.{State, Evaluator, new_evaluator, evaluate}
use llemon_swap.Matrix.Frontier.{OfMask}
use llemon_swap.Matrix.Program.{
  CompiledSet, SupportedSet, Program, add_support, new_program, supports_all,
}
use llemon_swap.Matrix.Program.Support.{IsSupported, new_program-IsSupported, Selects-supported}
use llemon_swap.Matrix.Projection.{models, Covers, IsEvaluator, IsProjection}
use llemon_swap.Matrix.Projection.Sound.{evaluate-IsProjection}
use llemon_swap.Matrix.Projection.Complete.{evaluate-Covers}
use llemon_swap.Matrix.Solve.{
  bit_of, full_mask_from, full_mask, any_holds, first_containing, can_contain_all,
}
use llemon_swap.Matrix.Solve.Cost.{projection-contains, has-contains}
use llemon_swap.Matrix.Solve.Optimal.{
  Allows, All-allow, new_evaluator-IsEvaluator, new_evaluator-IsKnown,
}

-- The loop of fullMask.
record IsFull (from upto : ℕ) (mask result : BitMask) : Type 0 where
  sized : length result ≡ length mask
  words : AreWords result
  bits : (j : ℕ) → has result j ≡ (has mask j || (leb from j && ltb j upto))

full_mask_from-IsFull :
    (b n : ℕ) (mask : BitMask)
    → b + n ≤ 64 * length mask
    → AreWords mask
    → IsFull b (b + n) mask (full_mask_from b n mask)
unfolding full_mask_from
full_mask_from-IsFull b zero mask h w = record {
  sized = refl;
  words = w;
  bits = λ j. ground (arith, Bool-cases (has mask j));
}
full_mask_from-IsFull b (suc n) mask h w =
    let l = length-set_bit mask b in
    let r =
      full_mask_from-IsFull (suc b) n (set_bit mask b) (omega arith)
        (set_bit-AreWords mask b (omega arith) w) in
    record {
      sized = r.sized ∙ l;
      words = r.words;
      bits = λ j. ground (arith, r.bits j, has-set_bit mask b j, Bool-cases (has mask j));
    }

module _ (ev : Evaluator) (made : IsEvaluator ev) where
  full : IsFull 0 (0 + length ev.model_bits) (empty_mask ev.words) (full_mask ev)
  unfolding full_mask
  full =
      full_mask_from-IsFull 0 (length ev.model_bits) (empty_mask ev.words)
        (omega (arith, length-replicate {A = ℕ} ev.words 0, made.sized))
        (empty_mask-AreWords ev.words)

  has-full_mask : (j : ℕ) → has (full_mask ev) j ≡ ltb j (length ev.model_bits)
  has-full_mask j = ground (arith, full.bits j, has-empty_mask ev.words j)

  length-full_mask : length (full_mask ev) ≡ ev.words
  length-full_mask = full.sized ∙ length-replicate ev.words 0

-- A set whose evaluation has a state with the whole mask.
any_holds-state :
    (required : BitMask) (Q : State → Type 0) (states : List State)
    → any_holds required states ≡ true
    → All Q states
    → (s : State) × Q s × (subset_of required s.mask ≡ true)
unfolding any_holds
any_holds-state required Q [] h q = cc
any_holds-state required Q (s ∷ states) h q = elim (Bool-cases (subset_of required s.mask)) [
  | inl e ↦ (s, q.0, e)
  | inr e ↦ any_holds-state required Q states (ground arith) q.1
]

state-any_holds :
    (required : BitMask) (states : List State)
    → Any (λ s. subset_of required s.mask ≡ true) states
    → any_holds required states ≡ true
unfolding any_holds
state-any_holds required [] h = absurd h
state-any_holds required (s ∷ states) (inl e) = ground arith
state-any_holds required (s ∷ states) (inr h) = ground (arith, state-any_holds required states h)

answered_no : false ≢ true
answered_no e = cc

some-injective : {A : Type 0} (a b : A) → ◌≡◌ {A = Option A} (some a) (some b) → a ≡ b
some-injective a b e = ap (λ o. elim o [ none ↦ a | some x ↦ x ]) e

module _ (p : Program) (ev : Evaluator) (ms : List String) where
  abbrev Holds : SupportedSet → Type 0
  Holds set =
      (supports_all p set ms ≡ true) × (any_holds (full_mask ev) (evaluate ev set.root) ≡ true)

  first_containing-none :
      (ss : List SupportedSet) → Any Holds ss → first_containing p ev ms ss ≢ none
  unfolding first_containing
  first_containing-none [] h e = absurd h
  first_containing-none (set ∷ ss) (inl h) e = ground (arith, h.0, h.1, e)
  first_containing-none (set ∷ ss) (inr h) e = ground (arith, first_containing-none ss h, e)

  first_containing-some :
      (P : SupportedSet → Type 0) (ss : List SupportedSet) (set : SupportedSet)
      → All P ss
      → first_containing p ev ms ss ≡ some set
      → P set × Holds set
  unfolding first_containing
  first_containing-some P [] set h e = cc
  first_containing-some P (x ∷ ss) set h e =
      elim (Bool-cases (supports_all p x ms && any_holds (full_mask ev) (evaluate ev x.root))) [
        | inl t ↦
            let same : x ≡ set = some-injective x set (rw (t, first_containing) at e) in
            subst (λ y. P y × Holds y) same (h.0, (ground arith, ground arith))
        | inr t ↦ first_containing-some P ss set h.1 (rw (t, first_containing) at e)
      ]

-- A model set that has all the models.
abbrev pub HasAll : List String → List String → Type 0
HasAll xs ms = (m : String) → contains ms m ≡ true → contains xs m ≡ true

module _ (sets : List CompiledSet) (ms : List String) where
  abbrev q : Evaluator
  q = new_evaluator ms

  abbrev p : Program
  p = new_program sets

  q_made : IsEvaluator q
  q_made = new_evaluator-IsEvaluator ms

  -- The states that hold the whole mask come from sets that have all the models, and every such set
  -- has one.
  full-HasAll :
      (Q : List String → Type 0) (s : State)
      → IsProjection q Q s
      → subset_of (full_mask q) s.mask ≡ true
      → HasAll (models s.witness) ms
  full-HasAll Q s pr sub m h =
      let (b, e) = new_evaluator-IsKnown ms m h in
      let below = q_made.registry.below m b e in
      let there =
        has-subset_of (full_mask q) s.mask b sub (ground (arith, has-full_mask q q_made b)) in
      sym (has-contains q Q s m q_made pr (b, e)) ∙ rw (e, bit_of) there

  onto : IsOnto q.model_bits (contains ms)
  unfolding new_evaluator
  onto = register-IsOnto [] ms (contains ms) (λ m h. h) (λ j h. absurd (omega arith))

  Covers-full :
      (xs : List String) (mask : BitMask)
      → length mask ≡ q.words
      → HasAll xs ms
      → Covers q.model_bits xs mask
      → subset_of (full_mask q) mask ≡ true
  Covers-full xs mask l h c =
      subset_of-has (full_mask q) mask (length-full_mask q q_made ∙ sym l) (full q q_made).words
        (λ j t.
          let (m, e, k) = onto j (ground (arith, has-full_mask q q_made j)) in
          c j (projection-contains q.model_bits xs m j q_made.registry e ∙ h m k))

  covering_states :
      (xs : List String) (Q : List String → Type 0) (states : List State)
      → HasAll xs ms
      → All (IsProjection q Q) states
      → Any (OfMask (Covers q.model_bits xs)) states
      → Any (λ s. subset_of (full_mask q) s.mask ≡ true) states
  covering_states xs Q [] h a c = absurd c
  covering_states xs Q (s ∷ states) h a (inl c) = inl (Covers-full xs s.mask a.0.sized h c)
  covering_states xs Q (s ∷ states) h a (inr c) = inr (covering_states xs Q states h a.1 c)

  supported_all :
      (xs : List String) (set : SupportedSet) (ns : List String)
      → IsSupported p.model_bits set
      → Selects set.root xs
      → HasAll xs ns
      → supports_all p set ns ≡ true
  unfolding supports_all contains
  supported_all xs set [] ok s h = refl
  supported_all xs set (m ∷ ns) ok s h =
      let (b, e, t) =
        Selects-supported p.model_bits set xs m ok s (h m (ground (arith, eq_iff m m))) in
      let rest = supported_all xs set ns ok s (λ x k. h x (ground arith)) in rw (e, t, rest) refl

  holding_sets :
      (xs : List String) (bits : Bits) (cs : List CompiledSet)
      → All (IsSupported p.model_bits) (add_support bits cs)
      → HasAll xs ms
      → Allows cs xs
      → Any (Holds p q ms) (add_support bits cs)
  unfolding add_support
  holding_sets xs bits [] ok h a = absurd a
  holding_sets xs bits (c ∷ cs) ok h (inl s) = inl (
    supported_all xs _ ms ok.0 s h,
    state-any_holds (full_mask q) (evaluate q c.root) (
        covering_states xs (Selects c.root) (evaluate q c.root) h
          (evaluate-IsProjection q q_made c.root) (evaluate-Covers q q_made s)),
  )
  holding_sets xs bits (c ∷ cs) ok h (inr a) = inr (holding_sets xs bits cs ok.1 h a)

  -- The set that is found, as a model set.
  found_set :
      (set : SupportedSet)
      → ((xs : List String) → Selects set.root xs → Allows sets xs)
      → Holds p q ms set
      → (xs : List String) × Allows sets xs × HasAll xs ms
  found_set set allow h =
      let (s, pr, sub) =
        any_holds-state (full_mask q) (IsProjection q (Selects set.root)) (evaluate q set.root) h.1
          (evaluate-IsProjection q q_made set.root) in
      (
        models s.witness,
        allow (models s.witness) pr.selected,
        full-HasAll (Selects set.root) s pr sub,
      )

  described : All (λ set. (xs : List String) → Selects set.root xs → Allows sets xs) p.sets
  unfolding new_program
  described = All-allow sets "" [] [] _ sets (λ xs a. a)

  found_somewhere : (xs : List String) → HasAll xs ms → Allows sets xs → Any (Holds p q ms) p.sets
  unfolding new_program
  found_somewhere xs h a = holding_sets xs _ sets (new_program-IsSupported sets) h a

  -- For models that are not none, CanContainAll answers yes exactly where one allowed model set has all
  -- of them.
  pub can_contain_all_iff :
      is_empty ms ≡ false
      → (can_contain_all (new_program sets) ms ≡ true)
        ↔ ((xs : List String) × Allows sets xs × HasAll xs ms)
  unfolding can_contain_all
  can_contain_all_iff some_model = rw some_model (
    λ h. elim (Option-cases (first_containing p q ms p.sets)) [
      | inl e ↦ absurd (answered_no (rw e at h))
      | inr (set, e) ↦
          let (allow, holds) =
            first_containing-some p q ms
              (λ set. (xs : List String) → Selects set.root xs → Allows sets xs) p.sets set
              described e in
          found_set set allow holds
    ],
    λ (xs, a, h). elim (Option-cases (first_containing p q ms p.sets)) [
      | inl e ↦ absurd (first_containing-none p q ms p.sets (found_somewhere xs h a) e)
      | inr (set, e) ↦ rw e refl
    ],
  )
