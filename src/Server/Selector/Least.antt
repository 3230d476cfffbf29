-- ===== src/Server/Selector/Least.antt =====
-- internal/server/selector.go: what the spillover strategy chooses.
use native.Mathlib.Nat.{mod-lt}
use llemon_swap.Base.{
  ℕ, zero, suc, ◌+◌, ◌%◌, ◌^◌, ◌≤◌, ◌<◌, ◌≡◌, refl, sym, ap, ◌∙◌, subst, String, true, false, none,
  some, List, [], ◌∷◌, ltb, eqb, length, if◌then◌else◌, All, Any, arith, Bool-cases, ◌⊎◌, inl, inr,
}
use llemon_swap.Server.Selector.{
  SpilloverTarget, SpilloverState, Running, reserve, minimum_from, tied_with, get_elem?, pick_tied,
  reserve_picked, reserve_least_busy, Use, active, cold, unusable, use_of, same_use, with_use,
}

module _ (f : String → ℕ) where
  -- The minimum with a first value is at most that and every count, and is one of them.
  pub record IsMinimum (least m : ℕ) (ts : List SpilloverTarget) : Type 0 where
    pub below_first : m ≤ least
    pub below_each : All (λ t. m ≤ f t.model_id) ts
    pub attained : (m ≡ least) ⊎ Any (λ t. f t.model_id ≡ m) ts

  pub minimum_from-IsMinimum :
      (least : ℕ) (ts : List SpilloverTarget)
      → (m : ℕ) × (minimum_from f (some least) ts ≡ some m) × IsMinimum least m ts
  unfolding minimum_from
  minimum_from-IsMinimum least [] =
      (least, refl, record { below_first = omega arith; below_each = tt; attained = inl refl })
  minimum_from-IsMinimum least (t ∷ ts) = elim (Bool-cases (ltb (f t.model_id) least)) [
    | inl e ↦
        let (m, h, k) = minimum_from-IsMinimum (f t.model_id) ts in
        (
          m,
          rw e h,
          record {
            below_first = ground arith;
            below_each = (k.below_first, k.below_each);
            attained = elim k.attained [ inl g ↦ inr (inl (sym g)) | inr g ↦ inr (inr g) ];
          },
        )
    | inr e ↦
        let (m, h, k) = minimum_from-IsMinimum least ts in
        (
          m,
          rw e h,
          record {
            below_first = k.below_first;
            below_each = (ground arith, k.below_each);
            attained = elim k.attained [ inl g ↦ inl g | inr g ↦ inr (inr g) ];
          },
        )
  ]

  -- Of at least one target.
  pub minimum_of :
      (t : SpilloverTarget) (ts : List SpilloverTarget)
      → (m : ℕ) × (minimum_from f none (t ∷ ts) ≡ some m)
        × All (λ u. m ≤ f u.model_id) (t ∷ ts)
        × Any (λ u. f u.model_id ≡ m) (t ∷ ts)
  unfolding minimum_from
  minimum_of t ts =
      let (m, h, k) = minimum_from-IsMinimum (f t.model_id) ts in
      (m, h, (k.below_first, k.below_each), elim k.attained [ inl g ↦ inl (sym g) | inr g ↦ inr g ])

  tied_with-All :
      (m : ℕ) (P : SpilloverTarget → Type 0) (ts : List SpilloverTarget)
      → All P ts
      → All (λ u. P u × (f u.model_id ≡ m)) (tied_with f (some m) ts)
  unfolding tied_with
  tied_with-All m P [] h = tt
  tied_with-All m P (t ∷ ts) h = elim (Bool-cases (eqb (f t.model_id) m)) [
    | inl e ↦ rw e ((h.0, ground arith), tied_with-All m P ts h.1)
    | inr e ↦ rw e (tied_with-All m P ts h.1)
  ]

  tied_with-inhabited :
      (m : ℕ) (ts : List SpilloverTarget)
      → Any (λ u. f u.model_id ≡ m) ts
      → 0 < length (tied_with f (some m) ts)
  unfolding tied_with
  tied_with-inhabited m [] h = absurd h
  tied_with-inhabited m (t ∷ ts) (inl e) = ground arith
  tied_with-inhabited m (t ∷ ts) (inr h) = ground (arith, tied_with-inhabited m ts)

get_elem?-lt :
    {A : Type 0} (P : A → Type 0) (xs : List A) (i : ℕ)
    → i < length xs
    → All P xs
    → (x : A) × (get_elem? xs i ≡ some x) × P x
get_elem?-lt P [] i h k = absurd (omega arith)
get_elem?-lt P (x ∷ xs) zero h k = (x, refl, k.0)
get_elem?-lt P (x ∷ xs) (suc i) h k = get_elem?-lt P xs i (omega arith) k.1

abbrev pub IsIn : List SpilloverTarget → SpilloverTarget → Type 0
IsIn ts u = Any (λ v. v ≡ u) ts

All-later :
    (t : SpilloverTarget) (ts us : List SpilloverTarget) → All (IsIn ts) us → All (IsIn (t ∷ ts)) us
All-later t ts [] h = tt
All-later t ts (u ∷ us) h = (inr h.0, All-later t ts us h.1)

All-self : (ts : List SpilloverTarget) → All (IsIn ts) ts
All-self [] = tt
All-self (t ∷ ts) = (inl refl, All-later t ts ts (All-self ts))

-- One of the least busy targets is reserved, and there is one.
pub reserve_least_busy-least :
    (t : SpilloverTarget) (ts : List SpilloverTarget) (s : SpilloverState)
    → (u : SpilloverTarget) × (reserve_least_busy (t ∷ ts) s
        ≡ some (reserve u (record s { rr = (s.rr + 1) % 2 ^ 64 })))
      × IsIn (t ∷ ts) u
      × All (λ v. s.inflight u.model_id ≤ s.inflight v.model_id) (t ∷ ts)
unfolding reserve_least_busy pick_tied
reserve_least_busy-least t ts s =
    let (m, h, each, at) = minimum_of s.inflight t ts in
    let tied = tied_with s.inflight (some m) (t ∷ ts) in
    let ok = tied_with-inhabited s.inflight m (t ∷ ts) at in
    let (u, e, found) =
      get_elem?-lt (λ v. IsIn (t ∷ ts) v × (s.inflight v.model_id ≡ m)) tied (s.rr % length tied)
        (mod-lt s.rr ok)
        (tied_with-All s.inflight m (IsIn (t ∷ ts)) (t ∷ ts) (All-self (t ∷ ts))) in
    (
      u,
      ap (λ o. reserve_picked (pick_tied s o (t ∷ ts)) s) h ∙ ap (λ o. reserve_picked o s) e,
      found.0,
      subst (λ c. All (λ v. c ≤ s.inflight v.model_id) (t ∷ ts)) (sym found.1) each,
    )

same_use_same : (a b : Use) → a ≡ b → same_use a b ≡ false → ⊥
same_use_same active active e h = cc
same_use_same cold cold e h = cc
same_use_same unusable unusable e h = cc
same_use_same active cold e h = cc
same_use_same active unusable e h = cc
same_use_same cold active e h = cc
same_use_same cold unusable e h = cc
same_use_same unusable active e h = cc
same_use_same unusable cold e h = cc

same_use_sound : (a b : Use) → same_use a b ≡ true → a ≡ b
same_use_sound active active h = refl
same_use_sound cold cold h = refl
same_use_sound unusable unusable h = refl
same_use_sound active cold h = cc
same_use_sound active unusable h = cc
same_use_sound cold active h = cc
same_use_sound cold unusable h = cc
same_use_sound unusable active h = cc
same_use_sound unusable cold h = cc

module _ (running : Running) (f : String → ℕ) where
  pub with_use-All :
      (P : SpilloverTarget → Type 0) (x : Use) (ts : List SpilloverTarget)
      → All P (with_use running f x ts)
      → All (λ v. use_of running f v ≡ x → P v) ts
  unfolding with_use
  with_use-All P x [] h = tt
  with_use-All P x (t ∷ ts) h = elim (Bool-cases (same_use (use_of running f t) x)) [
    | inl e ↦
        let k : All P (t ∷ with_use running f x ts) =
          subst (λ b. All P (if b then t ∷ with_use running f x ts else with_use running f x ts)) e
            h in
        ((λ _. k.0), with_use-All P x ts k.1)
    | inr e ↦
        let k : All P (with_use running f x ts) =
          subst (λ b. All P (if b then t ∷ with_use running f x ts else with_use running f x ts)) e
            h in
        ((λ g. absurd (same_use_same (use_of running f t) x g e)), with_use-All P x ts k)
  ]

  pub with_use-IsIn :
      (x : Use) (ts : List SpilloverTarget) (u : SpilloverTarget)
      → IsIn (with_use running f x ts) u
      → IsIn ts u × (use_of running f u ≡ x)
  unfolding with_use
  with_use-IsIn x [] u h = absurd h
  with_use-IsIn x (t ∷ ts) u h = elim (Bool-cases (same_use (use_of running f t) x)) [
    | inl e ↦
        elim (subst
          (λ b. IsIn (if b then t ∷ with_use running f x ts else with_use running f x ts) u) e h) [
            | inl g ↦ (
              inl g,
              subst (λ v. use_of running f v ≡ x) g (same_use_sound (use_of running f t) x e),
            )
            | inr g ↦ let k = with_use-IsIn x ts u g in (inr k.0, k.1)
          ]
    | inr e ↦
        let k = with_use-IsIn x ts u (
          subst (λ b. IsIn (if b then t ∷ with_use running f x ts else with_use running f x ts) u) e
            h) in
        (inr k.0, k.1)
  ]
