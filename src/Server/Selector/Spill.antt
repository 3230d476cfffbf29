-- ===== src/Server/Selector/Spill.antt =====
-- internal/server/selector.go: the spillover strategy fills the busy targets before it starts another.
use llemon_swap.Base.{
  ℕ, ◌+◌, ◌%◌, ◌^◌, ◌≤◌, ◌<◌, ◌≡◌, refl, sym, ap, subst, String, true, false, none, some, List, [],
  ◌∷◌, ltb, update, is_empty, if◌then◌else◌, All, All-map, Any, arith, Bool-cases, ◌⊎◌, inl, inr,
}
use llemon_swap.Server.Selector.{
  SpilloverTarget, SpilloverState, Running, reserve, minimum_from, reserve_least_busy, Use, active,
  cold, unusable, use_of, with_use, Choice, unavailable, chosen, to_choice, below,
  strategy_spillover,
}
use llemon_swap.Server.Selector.Least.{
  IsIn, with_use-All, with_use-IsIn, minimum_of, reserve_least_busy-least,
}

-- A target with one more request.
abbrev pub counted : SpilloverTarget → ℕ → SpilloverState → SpilloverState
counted u rr s = record s {
  inflight = update s.inflight u.model_id (s.inflight u.model_id + 1);
  rr = rr;
}

le_attained :
    (f : String → ℕ) (k m : ℕ) (ts : List SpilloverTarget)
    → All (λ v. k ≤ f v.model_id) ts
    → Any (λ v. f v.model_id ≡ m) ts
    → k ≤ m
le_attained f k m [] h a = absurd a
le_attained f k m (t ∷ ts) h (inl e) = omega (arith, h.0)
le_attained f k m (t ∷ ts) h (inr a) = le_attained f k m ts h.1 a

Use-last : (u : Use) → (u ≡ active → ⊥) → (u ≡ cold → ⊥) → u ≡ unusable
Use-last active h k = absurd (h refl)
Use-last cold h k = absurd (k refl)
Use-last unusable h k = refl

unusable-All :
    (running : Running) (f : String → ℕ) (ts : List SpilloverTarget)
    → All (λ v. use_of running f v ≡ active → ⊥) ts
    → All (λ v. use_of running f v ≡ cold → ⊥) ts
    → All (λ v. use_of running f v ≡ unusable) ts
unusable-All running f [] h k = tt
unusable-All running f (t ∷ ts) h k =
    (Use-last (use_of running f t) h.0 k.0, unusable-All running f ts h.1 k.1)

module _ (running : Running) (s : SpilloverState) where
  abbrev UseIs : Use → SpilloverTarget → Type 0
  UseIs x t = use_of running s.inflight t ≡ x

  -- What the strategy chooses. It does not panic.
  pub data Spills : Choice → Type 0 where
    gives_up : All (UseIs unusable) s.targets → Spills unavailable
    -- An active target with the fewest requests, below the limit or with no cold target left.
    stays :
        (u : SpilloverTarget) (rr : ℕ)
        → IsIn s.targets u
        → UseIs active u
        → All (λ v. UseIs active v → s.inflight u.model_id ≤ s.inflight v.model_id) s.targets
        → (s.inflight u.model_id < s.spillover) ⊎ (with_use running s.inflight cold s.targets ≡ [])
        → Spills (chosen u.target (counted u rr s))
    -- The first cold target, when every active one is at the limit.
    spreads :
        (u : SpilloverTarget) (others : List SpilloverTarget)
        → IsIn s.targets u
        → with_use running s.inflight cold s.targets ≡ u ∷ others
        → All (λ v. UseIs active v → s.spillover ≤ s.inflight v.model_id) s.targets
        → Spills (chosen u.target (counted u s.rr s))

  none_with :
      (x : Use) → with_use running s.inflight x s.targets ≡ [] → All (λ v. UseIs x v → ⊥) s.targets
  none_with x e =
      with_use-All running s.inflight (λ v. ⊥) x s.targets (subst (All (λ v. ⊥)) (sym e) tt)

  -- The minimum of the active targets is the count of a least busy one.
  lowest :
      (t : SpilloverTarget) (ts : List SpilloverTarget) (u : SpilloverTarget)
      → IsIn (t ∷ ts) u
      → All (λ v. s.inflight u.model_id ≤ s.inflight v.model_id) (t ∷ ts)
      → below (minimum_from s.inflight none (t ∷ ts)) s.spillover ≡ true
      → s.inflight u.model_id < s.spillover
  lowest t ts u is_in least b =
      let (m, h, each, at) = minimum_of s.inflight t ts in
      let m_below : ltb m s.spillover ≡ true = subst (λ o. below o s.spillover ≡ true) h b in
      let le = le_attained s.inflight (s.inflight u.model_id) m (t ∷ ts) least at in ground arith

  first_cold :
      (u : SpilloverTarget) (us : List SpilloverTarget)
      → with_use running s.inflight cold s.targets ≡ u ∷ us
      → IsIn s.targets u
  first_cold u us f =
      (with_use-IsIn running s.inflight cold s.targets u
        (subst (λ l. IsIn l u) (sym f) (inl refl))).0

  busiest :
      (t : SpilloverTarget) (ts : List SpilloverTarget)
      → with_use running s.inflight active s.targets ≡ t ∷ ts
      → (below (minimum_from s.inflight none (t ∷ ts)) s.spillover ≡ true)
        ⊎ (with_use running s.inflight cold s.targets ≡ [])
      → Spills (to_choice (reserve_least_busy (t ∷ ts) s))
  unfolding reserve
  busiest t ts e why =
      let (u, picked, is_in, least) = reserve_least_busy-least t ts s in
      let found =
        with_use-IsIn running s.inflight active s.targets u (subst (λ l. IsIn l u) (sym e) is_in) in
      let each =
        with_use-All running s.inflight (λ v. s.inflight u.model_id ≤ s.inflight v.model_id) active
          s.targets
          (subst (All (λ v. s.inflight u.model_id ≤ s.inflight v.model_id)) (sym e) least) in
      subst Spills (sym (ap to_choice picked)) (
        stays u ((s.rr + 1) % 2 ^ 64) found.0 found.1 each
          (elim why [ inl b ↦ inl (lowest t ts u is_in least b) | inr b ↦ inr b ]))

  -- Every active target is at the limit.
  at_limit :
      (t : SpilloverTarget) (ts : List SpilloverTarget)
      → with_use running s.inflight active s.targets ≡ t ∷ ts
      → below (minimum_from s.inflight none (t ∷ ts)) s.spillover ≡ false
      → All (λ v. UseIs active v → s.spillover ≤ s.inflight v.model_id) s.targets
  at_limit t ts e b =
      let (m, h, each, at) = minimum_of s.inflight t ts in
      let m_above : ltb m s.spillover ≡ false = subst (λ o. below o s.spillover ≡ false) h b in
      let enough : All (λ v. s.spillover ≤ s.inflight v.model_id) (t ∷ ts) =
        All-map (t ∷ ts) (λ v k. ground arith) each in
      with_use-All running s.inflight (λ v. s.spillover ≤ s.inflight v.model_id) active s.targets
        (subst (All (λ v. s.spillover ≤ s.inflight v.model_id)) (sym e) enough)

  full :
      (t : SpilloverTarget) (ts colds : List SpilloverTarget)
      → with_use running s.inflight active s.targets ≡ t ∷ ts
      → with_use running s.inflight cold s.targets ≡ colds
      → below (minimum_from s.inflight none (t ∷ ts)) s.spillover ≡ false
      → Spills (elim colds [
        | [] ↦ to_choice (reserve_least_busy (t ∷ ts) s)
        | u ∷ us ↦ to_choice (some (reserve u s))
      ])
  unfolding reserve
  full t ts [] e f b = busiest t ts e (inr f)
  full t ts (u ∷ us) e f b = spreads u us (first_cold u us f) f (at_limit t ts e b)

  by_lists :
      (actives colds : List SpilloverTarget)
      → with_use running s.inflight active s.targets ≡ actives
      → with_use running s.inflight cold s.targets ≡ colds
      → Spills (
          if is_empty actives
          then elim colds [ [] ↦ unavailable | t ∷ ts ↦ to_choice (some (reserve t s)) ]
          else if below (minimum_from s.inflight none actives) s.spillover
          then to_choice (reserve_least_busy actives s)
          else elim colds [
            | [] ↦ to_choice (reserve_least_busy actives s)
            | t ∷ ts ↦ to_choice (some (reserve t s))
          ])
  unfolding reserve
  by_lists [] [] e f =
      gives_up (unusable-All running s.inflight s.targets (none_with active e) (none_with cold f))
  by_lists [] (u ∷ us) e f =
      spreads u us (first_cold u us f) f
        (All-map s.targets (λ v k g. absurd (k g)) (none_with active e))
  by_lists (t ∷ ts) colds e f =
      elim (Bool-cases (below (minimum_from s.inflight none (t ∷ ts)) s.spillover)) [
        | inl b ↦ rw b (busiest t ts e (inl b))
        | inr b ↦ rw b (full t ts colds e f b)
      ]

  -- Whatever the states of the processes and the counts are: the strategy gives up only when every
  -- target is stopping or shut down; it stays with an active target (ready, starting, or with a request
  -- in flight) only if none has fewer requests, and if that one is below the limit or no cold target is
  -- left; it starts a cold target, the first one, only if every active one is at the limit. It reserves
  -- one request more of the target, and does not panic.
  pub strategy_spillover-Spills : Spills (strategy_spillover running s)
  unfolding strategy_spillover
  strategy_spillover-Spills = by_lists _ _ refl refl
