-- ===== src/Server/Selector/Warm.antt =====
-- internal/server/selector.go: the warm strategy.
use llemon_swap.Base.{
  ℕ, ◌≤◌, ◌≡◌, refl, ap, ◌∙◌, subst, String, Bool, true, false, Option, none, some, List, [], ◌∷◌,
  if◌then◌else◌, All, All-map, Any, arith, Bool-cases, Option-cases, inl, inr,
}
use llemon_swap.Scheduler.State.{ProcessState, stopped, starting, ready, stopping, shutdown}
use llemon_swap.Server.Selector.{Running, Resolve, in_state, first_in, or_next, strategy_warm}

-- How soon a process answers: it is ready, it is starting, or neither.
abbrev pub warmth : Option ProcessState → ℕ
warmth (some ready) = 2
warmth (some starting) = 1
warmth _ = 0

first_eq :
    {b : Bool} (n : String) (later : Option String) {t : String}
    → b ≡ true
    → (if b then some n else later) ≡ some t
    → n ≡ t
first_eq n later f e = ground arith

later_eq :
    {b : Bool} (n : String) (later : Option String) {t : String}
    → b ≡ false
    → (if b then some n else later) ≡ some t
    → later ≡ some t
later_eq n later f e = ground arith

module _ (resolve : Resolve) (running : Running) where
  abbrev pub heat : String → ℕ
  heat t = warmth (running (resolve t).0)

  -- A target of the list that no other one is warmer than.
  pub record IsWarmest (names : List String) (t : String) : Type 0 where
    pub is_in : Any (λ n. n ≡ t) names
    pub warmest : All (λ n. heat n ≤ heat t) names

  first_in-some :
      (state : ProcessState) (names : List String) {t : String}
      → first_in resolve running state names ≡ some t
      → Any (λ n. n ≡ t) names × (in_state state (running (resolve t).0) ≡ true)
  unfolding first_in
  first_in-some state [] e = cc
  first_in-some state (n ∷ names) e = elim (Bool-cases (in_state state (running (resolve n).0))) [
    | inl f ↦
        let same = first_eq n (first_in resolve running state names) f e in
        (inl same, subst (λ t. in_state state (running (resolve t).0) ≡ true) same f)
    | inr f ↦
        let k = first_in-some state names (later_eq n (first_in resolve running state names) f e) in
        (inr k.0, k.1)
  ]

  first_in-none :
      (state : ProcessState) (names : List String)
      → first_in resolve running state names ≡ none
      → All (λ n. in_state state (running (resolve n).0) ≡ false) names
  unfolding first_in
  first_in-none state [] e = tt
  first_in-none state (n ∷ names) e = elim (Bool-cases (in_state state (running (resolve n).0))) [
    | inl f ↦ absurd (ground arith)
    | inr f ↦ (f, first_in-none state names (ground arith))
  ]

heat_ready : (o : Option ProcessState) → in_state ready o ≡ true → warmth o ≡ 2
heat_ready (some ready) h = refl
heat_ready none h = cc
heat_ready (some stopped) h = cc
heat_ready (some starting) h = cc
heat_ready (some stopping) h = cc
heat_ready (some shutdown) h = cc

heat_starting : (o : Option ProcessState) → in_state starting o ≡ true → warmth o ≡ 1
heat_starting (some starting) h = refl
heat_starting none h = cc
heat_starting (some stopped) h = cc
heat_starting (some ready) h = cc
heat_starting (some stopping) h = cc
heat_starting (some shutdown) h = cc

heat_most : (o : Option ProcessState) → warmth o ≤ 2
heat_most none = omega arith
heat_most (some ready) = omega arith
heat_most (some starting) = omega arith
heat_most (some stopped) = omega arith
heat_most (some stopping) = omega arith
heat_most (some shutdown) = omega arith

not_ready : (o : Option ProcessState) → in_state ready o ≡ false → warmth o ≤ 1
not_ready none h = omega arith
not_ready (some ready) h = cc
not_ready (some starting) h = omega arith
not_ready (some stopped) h = omega arith
not_ready (some stopping) h = omega arith
not_ready (some shutdown) h = omega arith

neither :
    (o : Option ProcessState)
    → in_state ready o ≡ false
    → in_state starting o ≡ false
    → warmth o ≤ 0
neither none h k = omega arith
neither (some ready) h k = cc
neither (some starting) h k = cc
neither (some stopped) h k = omega arith
neither (some stopping) h k = omega arith
neither (some shutdown) h k = omega arith

every : (names : List String) → All (λ n. Unit {0}) names
every [] = tt
every (n ∷ names) = (tt, every names)

module _ (resolve : Resolve) (running : Running) where
  All-both :
      (f g : ProcessState) (names : List String)
      → All (λ n. in_state f (running (resolve n).0) ≡ false) names
      → All (λ n. in_state g (running (resolve n).0) ≡ false) names
      → All
          (λ n.
            (in_state f (running (resolve n).0) ≡ false)
            × (in_state g (running (resolve n).0) ≡ false))
          names
  All-both f g [] h k = tt
  All-both f g (n ∷ names) h k = ((h.0, k.0), All-both f g names h.1 k.1)

  -- The warm strategy answers with one of the targets, where there is any, and no other target is warmer:
  -- it is ready if any is, and otherwise starting if any is.
  pub strategy_warm-IsWarmest :
      (n : String) (names : List String)
      → (t : String) × (strategy_warm resolve running (n ∷ names) ≡ some t)
        × IsWarmest resolve running (n ∷ names) t
  unfolding strategy_warm
  strategy_warm-IsWarmest n names =
      elim (Option-cases (first_in resolve running ready (n ∷ names))) [
        | inr (t, e) ↦
            let k = first_in-some resolve running ready (n ∷ names) e in
            (
              t,
              ap (λ o. or_next o (or_next (first_in resolve running starting (n ∷ names)) (some n)))
                  e,
              record {
                is_in = k.0;
                warmest =
                    All-map (n ∷ names)
                      (λ u _. omega (
                        arith,
                        heat_ready (running (resolve t).0) k.1,
                        heat_most (running (resolve u).0),
                      ))
                      (every (n ∷ names));
              },
            )
        | inl e ↦ elim (Option-cases (first_in resolve running starting (n ∷ names))) [
          | inr (t, f) ↦
              let k = first_in-some resolve running starting (n ∷ names) f in
              (
                t,
                ap
                      (λ o.
                        or_next o
                          (or_next (first_in resolve running starting (n ∷ names)) (some n)))
                      e
                    ∙ ap (λ o. or_next o (some n)) f,
                record {
                  is_in = k.0;
                  warmest =
                      All-map (n ∷ names)
                        (λ u no. omega (
                          arith,
                          heat_starting (running (resolve t).0) k.1,
                          not_ready (running (resolve u).0) no,
                        ))
                        (first_in-none resolve running ready (n ∷ names) e);
                },
              )
          | inl f ↦ (
            n,
            ap (λ o. or_next o (or_next (first_in resolve running starting (n ∷ names)) (some n))) e
                ∙ ap (λ o. or_next o (some n)) f,
            record {
              is_in = inl refl;
              warmest =
                  All-map (n ∷ names)
                    (λ u no. omega (arith, neither (running (resolve u).0) no.0 no.1))
                    (All-both ready starting (n ∷ names)
                      (first_in-none resolve running ready (n ∷ names) e)
                      (first_in-none resolve running starting (n ∷ names) f));
            },
          )
        ]
      ]
