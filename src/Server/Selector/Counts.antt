-- ===== src/Server/Selector/Counts.antt =====
-- internal/server/selector.go: the counts of the spillover strategy, over reservations and releases.
use llemon_swap.Base.{
  ℕ, ◌+◌, ◌-◌, ◌<◌, ◌≡◌, refl, ap, ◌∙◌, subst, String, List, [], ◌∷◌, ◌++◌, ◌==◌, eq_iff, update,
  if◌then◌else◌, All, Any, arith, Bool-cases, inl, inr,
}
use llemon_swap.Server.Selector.{
  SpilloverTarget, SpilloverState, Running, Resolve, new_targets, new_spillover, Choice, chosen,
  strategy_spillover, release_in, release_target,
}
use llemon_swap.Server.Selector.Least.{IsIn}
use llemon_swap.Server.Selector.Spill.{
  Spills, gives_up, stays, spreads, counted, strategy_spillover-Spills,
}

-- The requests that were sent to a target and are not yet done, after any choices and releases.
pub data Serving (resolve : Resolve) (spillover : ℕ) (names : List String)
    : List String → SpilloverState → Type 0 where
  fresh : Serving resolve spillover names [] (new_spillover resolve spillover names)
  sent :
      {out : List String} {s s' : SpilloverState} {t : String}
      → Serving resolve spillover names out s
      → (running : Running) → strategy_spillover running s ≡ chosen t s'
      → Serving resolve spillover names (t ∷ out) s'
  done :
      {s : SpilloverState} (xs ys : List String) (t : String)
      → Serving resolve spillover names (xs ++ t ∷ ys) s
      → Serving resolve spillover names (xs ++ ys) (release_target t s)

module _ (resolve : Resolve) where
  -- How many of the requests go to a model.
  unfoldable pub count_of : String → List String → ℕ
  count_of m [] = 0
  count_of m (t ∷ ts) = (if (resolve t).0 == m then 1 else 0) + count_of m ts

  count_of-middle :
      (m t : String) (xs ys : List String)
      → count_of m (xs ++ t ∷ ys) ≡ (if (resolve t).0 == m then 1 else 0) + count_of m (xs ++ ys)
  unfolding count_of
  count_of-middle m t [] ys = refl
  count_of-middle m t (x ∷ xs) ys = omega (arith, count_of-middle m t xs ys)

  abbrev IsName : List String → String → Type 0
  IsName names t = Any (λ n. n ≡ t) names

  -- A target is known by its name.
  target_of :
      (names : List String) (u : SpilloverTarget)
      → IsIn (new_targets resolve names) u
      → IsName names u.target × (u.model_id ≡ (resolve u.target).0)
  unfolding new_targets
  target_of [] u h = absurd h
  target_of (n ∷ names) u (inl e) = (
    inl (ap (λ v. v.target) e),
    subst (λ (v : SpilloverTarget). v.model_id ≡ (resolve v.target).0) e refl,
  )
  target_of (n ∷ names) u (inr h) = let k = target_of names u h in (inr k.0, k.1)

  -- A release of a name takes one from the count of its model.
  release_in-name :
      (t : String) (names : List String) (f : String → ℕ)
      → IsName names t
      → 0 < f (resolve t).0
      → (m : String)
      → release_in t (new_targets resolve names) f m
        ≡ update f (resolve t).0 (f (resolve t).0 - 1) m
  unfolding release_in new_targets
  release_in-name t [] f h p m = absurd h
  release_in-name t (n ∷ names) f h p m = elim (Bool-cases (n == t)) [
    | inl e ↦ ground (arith, eq_iff n t)
    | inr e ↦ rw e (
        release_in-name t names f
          (elim h [ inl g ↦ absurd (ground (arith, eq_iff n t)) | inr k ↦ k ]) p m)
  ]

chosen_pair :
    {a b : String} {x y : SpilloverState}
    → chosen a x ≡ chosen b y
    → (let p : String × SpilloverState = (a, x) in p) ≡ (b, y)
chosen_pair e = ground arith

All-middle :
    (P : String → Type 0) (t : String) (xs ys : List String)
    → All P (xs ++ t ∷ ys)
    → P t × All P (xs ++ ys)
All-middle P t [] ys h = (h.0, h.1)
All-middle P t (x ∷ xs) ys h = let k = All-middle P t xs ys h.1 in (k.0, (h.0, k.1))

module _ (resolve : Resolve) (spillover : ℕ) (names : List String) where
  -- The state of the strategy, by the requests that are out.
  record IsBalanced (out : List String) (s : SpilloverState) : Type 0 where
    targets : s.targets ≡ new_targets resolve names
    known : All (IsName resolve names) out
    counts : (m : String) → s.inflight m ≡ count_of resolve m out

  sent-IsBalanced :
      (out : List String) (s : SpilloverState) (u : SpilloverTarget) (rr : ℕ)
      → IsBalanced out s
      → IsIn s.targets u
      → IsBalanced (u.target ∷ out) (counted u rr s)
  unfolding count_of
  sent-IsBalanced out s u rr b is_in =
      let k = target_of resolve names u (subst (λ ts. IsIn ts u) b.targets is_in) in
      record {
        targets = b.targets;
        known = (k.0, b.known);
        counts = λ m. ground (arith, k.1, b.counts m, b.counts u.model_id, eq_iff u.model_id m);
      }

  choice-IsBalanced :
      (out : List String) (s : SpilloverState) (running : Running) (c : Choice)
      → IsBalanced out s
      → Spills running s c
      → (t : String) (s' : SpilloverState) → c ≡ chosen t s'
      → IsBalanced (t ∷ out) s'
  choice-IsBalanced out s running c b (gives_up h) t s' e = cc
  choice-IsBalanced out s running c b (stays u rr is_in _ _ _) t s' e =
      subst (λ p. IsBalanced (p.0 ∷ out) p.1) (chosen_pair e) (sent-IsBalanced out s u rr b is_in)
  choice-IsBalanced out s running c b (spreads u _ is_in _ _) t s' e =
      subst (λ p. IsBalanced (p.0 ∷ out) p.1) (chosen_pair e) (sent-IsBalanced out s u s.rr b is_in)

  release_count :
      (xs ys : List String) (t : String) (s : SpilloverState)
      → IsBalanced (xs ++ t ∷ ys) s
      → (m : String) → (release_target t s).inflight m ≡ count_of resolve m (xs ++ ys)
  unfolding release_target
  release_count xs ys t s b m =
      let k = (resolve t).0 in
      let one : 0 < s.inflight k =
        ground (arith, b.counts k, count_of-middle resolve k t xs ys, eq_iff k k) in
      ap (λ ts. release_in t ts s.inflight m) b.targets
      ∙ release_in-name resolve t names s.inflight
          (All-middle (IsName resolve names) t xs ys b.known).0 one m
      ∙ ground (
        arith,
        b.counts k,
        b.counts m,
        count_of-middle resolve k t xs ys,
        count_of-middle resolve m t xs ys,
        eq_iff k m,
        eq_iff k k,
      )

  done-IsBalanced :
      (xs ys : List String) (t : String) (s : SpilloverState)
      → IsBalanced (xs ++ t ∷ ys) s
      → IsBalanced (xs ++ ys) (release_target t s)
  unfolding release_target
  done-IsBalanced xs ys t s b = record {
    targets = b.targets;
    known = (All-middle (IsName resolve names) t xs ys b.known).1;
    counts = λ m. release_count xs ys t s b m;
  }

  Serving-IsBalanced :
      {out : List String} {s : SpilloverState}
      → Serving resolve spillover names out s
      → IsBalanced out s
  unfolding new_spillover count_of
  Serving-IsBalanced fresh = record { targets = refl; known = tt; counts = λ m. refl }
  Serving-IsBalanced (sent {out} {s} {s'} {t} r running e) =
      choice-IsBalanced out s running (strategy_spillover running s) (Serving-IsBalanced r)
        (strategy_spillover-Spills running s) t s' e
  Serving-IsBalanced (done xs ys t r) = done-IsBalanced xs ys t _ (Serving-IsBalanced r)

  -- After any choices of the spillover strategy and releases of requests that were sent, in any order
  -- and with any states of the processes, the count of each model is the number of requests that were
  -- sent to its targets and not released yet.
  pub inflight-count_of :
      {out : List String} {s : SpilloverState}
      → Serving resolve spillover names out s
      → (m : String) → s.inflight m ≡ count_of resolve m out
  inflight-count_of r m = (Serving-IsBalanced r).counts m
