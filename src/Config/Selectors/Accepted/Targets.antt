-- ===== src/Config/Selectors/Accepted/Targets.antt =====
-- selectors.go: what the checks of the targets accept.
use llemon_swap.Base.{
  String, ◌≡◌, refl, ap, ◌∙◌, false, Option, none, some, List, [], ◌∷◌, ◌==◌, eq_iff, ◌⊎◌, inl, inr,
  contains, arith, Bool-cases, All,
}
use llemon_swap.Config.Names.{ModelNames, real_model_name, resolve_base_model}
use llemon_swap.Config.Selectors.{
  SelectorError, and_then, check_known, check_local, check_target, check_targets, check_distinct,
  chained, duplicate_target,
}
use llemon_swap.Config.Selectors.Coexist.{passed_else}

pub and_then-inr :
    {A B : Type 0} (m : SelectorError ⊎ A) (f : A → SelectorError ⊎ B) {b : B}
    → and_then m f ≡ inr b
    → (a : A) × (m ≡ inr a) × (f a ≡ inr b)
and_then-inr (inl e) f h = cc
and_then-inr (inr a) f h = (a, refl, h)

-- No name comes twice.
abbrev pub AreDistinct : List String → Type 0
AreDistinct [] = Unit
AreDistinct (x ∷ xs) = (contains xs x ≡ false) × AreDistinct xs

abbrev pub Unseen : List String → List String → Type 0
Unseen seen xs = All (λ x. contains seen x ≡ false) xs

-- Taking a name off what was seen, and putting it on.
less-Unseen :
    (t : String) (seen xs : List String)
    → Unseen (t ∷ seen) xs
    → Unseen seen xs × (contains xs t ≡ false)
unfolding contains
less-Unseen t seen [] h = (tt, refl)
less-Unseen t seen (x ∷ xs) h =
    let k = less-Unseen t seen xs h.1 in
    ((ground arith, k.0), ground (arith, eq_iff t x, eq_iff x t, h.0, k.1))

more-Unseen :
    (t : String) (seen xs : List String)
    → Unseen seen xs
    → contains xs t ≡ false
    → Unseen (t ∷ seen) xs
unfolding contains
more-Unseen t seen [] h k = tt
more-Unseen t seen (x ∷ xs) h k =
    (ground (arith, eq_iff t x, eq_iff x t, h.0, k), more-Unseen t seen xs h.1 (ground arith))

pub check_distinct-AreDistinct :
    (seen xs : List String) → check_distinct seen xs ≡ inr tt → AreDistinct xs × Unseen seen xs
unfolding check_distinct
check_distinct-AreDistinct seen [] e = (tt, tt)
check_distinct-AreDistinct seen (x ∷ xs) e =
    let p = passed_else (contains seen x) (duplicate_target x) (check_distinct (x ∷ seen) xs) e in
    let k = check_distinct-AreDistinct (x ∷ seen) xs p.1 in
    let l = less-Unseen x seen xs k.1 in ((l.1, k.0), (p.0, l.0))

pub AreDistinct-check_distinct :
    (seen xs : List String) → AreDistinct xs → Unseen seen xs → check_distinct seen xs ≡ inr tt
unfolding check_distinct
AreDistinct-check_distinct seen [] d u = refl
AreDistinct-check_distinct seen (x ∷ xs) d u =
    rw u.0 (AreDistinct-check_distinct (x ∷ seen) xs d.1 (more-Unseen x seen xs u.1 d.0))

known_of :
    (t : String) (o : Option String) (more : SelectorError ⊎ Unit {0})
    → check_known t o more ≡ inr tt
    → (base : String) × (o ≡ some base) × (more ≡ inr tt)
known_of t none more e = cc
known_of t (some base) more e = (base, refl, e)

local_of :
    (strategy t : String) (o : Option String)
    → check_local strategy t o ≡ inr tt
    → strategy ≡ "warm"
    → (name : String) × (o ≡ some name)
local_of strategy t (some name) e w = (name, refl)
local_of strategy t none e w = absurd (ground (arith, eq_iff strategy "warm"))

of_local :
    (strategy t : String) (o : Option String)
    → (strategy ≡ "warm" → (name : String) × (o ≡ some name))
    → check_local strategy t o ≡ inr tt
of_local strategy t (some name) l = refl
of_local strategy t none l = elim (Bool-cases (strategy == "warm")) [
  | inl w ↦ absurd (ground (arith, (l ((eq_iff strategy "warm").0 w)).1))
  | inr w ↦ rw w refl
]

module _ (names : ModelNames) (selectors : List String) (strategy : String) where
  -- A target that is a model or a peer's, and no selector: a local one for the warm strategy.
  pub record IsTarget (t : String) : Type 0 where
    pub no_selector : contains selectors t ≡ false
    pub known : (base : String) × (resolve_base_model names t ≡ some base)
    pub local : strategy ≡ "warm" → (name : String) × (real_model_name names t ≡ some name)

  check_target-IsTarget :
      (t : String) → check_target names selectors strategy t ≡ inr tt → IsTarget t
  unfolding check_target
  check_target-IsTarget t e =
      let p = passed_else (contains selectors t) (chained t) _ e in
      let (base, k, l) =
        known_of t (resolve_base_model names t) (check_local strategy t (real_model_name names t))
          p.1 in
      record {
        no_selector = p.0;
        known = (base, k);
        local = λ w. local_of strategy t (real_model_name names t) l w;
      }

  IsTarget-check_target :
      (t : String) → IsTarget t → check_target names selectors strategy t ≡ inr tt
  unfolding check_target
  IsTarget-check_target t g = rw g.no_selector (
      ap (λ o. check_known t o (check_local strategy t (real_model_name names t))) g.known.1
      ∙ of_local strategy t (real_model_name names t) g.local)

  pub check_targets-IsTarget :
      (ts : List String) → check_targets names selectors strategy ts ≡ inr tt → All IsTarget ts
  unfolding check_targets
  check_targets-IsTarget [] e = tt
  check_targets-IsTarget (t ∷ ts) e =
      let (_, one, others) = and_then-inr (check_target names selectors strategy t) _ e in
      (check_target-IsTarget t one, check_targets-IsTarget ts others)

  pub IsTarget-check_targets :
      (ts : List String) → All IsTarget ts → check_targets names selectors strategy ts ≡ inr tt
  unfolding check_targets
  IsTarget-check_targets [] g = refl
  IsTarget-check_targets (t ∷ ts) g =
      ap (λ r. and_then r (λ _. check_targets names selectors strategy ts))
        (IsTarget-check_target t g.0)
      ∙ IsTarget-check_targets ts g.1
