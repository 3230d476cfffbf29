-- ===== src/Router/Unload/Order.antt =====
-- base.go: the order of durations, and sort.Slice over the timeouts.
use llemon_swap.Base.{
  ◌≡◌, refl, ◌∙◌, Bool, true, false, ◌||◌, List, [], ◌∷◌, arith, All, All-map, Bool-cases, inl, inr,
}
use llemon_swap.Scheduler.State.{ℤ, eqb_ℤ, pos, negsuc, ltb_ℤ}
use llemon_swap.Router.Unload.{insert_duration, sort_durations}

pub eqb-eq : (a b : ℤ) → eqb_ℤ a b ≡ true → a ≡ b
eqb-eq (pos a) (pos b) h = ground arith
eqb-eq (pos a) (negsuc b) h = cc
eqb-eq (negsuc a) (pos b) h = cc
eqb-eq (negsuc a) (negsuc b) h = ground arith

pub eqb_refl : (a : ℤ) → eqb_ℤ a a ≡ true
eqb_refl (pos a) = ground arith
eqb_refl (negsuc a) = ground arith

ltb_trans : (a b c : ℤ) → ltb_ℤ a b ≡ true → ltb_ℤ b c ≡ true → ltb_ℤ a c ≡ true
ltb_trans (pos a) (pos b) (pos c) h k = ground arith
ltb_trans (negsuc a) (negsuc b) (negsuc c) h k = ground arith
ltb_trans (negsuc a) (pos b) (pos c) h k = refl
ltb_trans (negsuc a) (negsuc b) (pos c) h k = refl
ltb_trans (pos a) (negsuc b) c h k = cc
ltb_trans a (pos b) (negsuc c) h k = cc

ltb_total : (a b : ℤ) → ltb_ℤ a b ≡ false → eqb_ℤ a b ≡ false → ltb_ℤ b a ≡ true
ltb_total (pos a) (pos b) h k = ground arith
ltb_total (negsuc a) (negsuc b) h k = ground arith
ltb_total (pos a) (negsuc b) h k = refl
ltb_total (negsuc a) (pos b) h k = cc

abbrev pub has : List ℤ → ℤ → Bool
has [] t = false
has (u ∷ us) t = eqb_ℤ u t || has us t

-- Each element is below all that follow.
abbrev pub IsIncreasing : List ℤ → Type 0
IsIncreasing [] = Unit
IsIncreasing (t ∷ ts) = All (λ u. ltb_ℤ t u ≡ true) ts × IsIncreasing ts

-- No element comes twice.
abbrev pub IsDistinct : List ℤ → Type 0
IsDistinct [] = Unit
IsDistinct (t ∷ ts) = (has ts t ≡ false) × IsDistinct ts

pub has-insert_duration :
    (t u : ℤ) (us : List ℤ) → has (insert_duration t us) u ≡ (eqb_ℤ t u || has us u)
unfolding insert_duration
has-insert_duration t u [] = refl
has-insert_duration t u (x ∷ us) = ground (arith, has-insert_duration t u us)

pub has-sort_durations : (ts : List ℤ) (u : ℤ) → has (sort_durations ts) u ≡ has ts u
unfolding sort_durations
has-sort_durations [] u = refl
has-sort_durations (t ∷ ts) u =
    ground (arith, has-insert_duration t u (sort_durations ts), has-sort_durations ts u)

All-insert_duration :
    (P : ℤ → Type 0) (t : ℤ) (us : List ℤ) → P t → All P us → All P (insert_duration t us)
unfolding insert_duration
All-insert_duration P t [] p h = (p, tt)
All-insert_duration P t (u ∷ us) p h = elim (Bool-cases (ltb_ℤ u t)) [
  | inl e ↦ rw e (h.0, All-insert_duration P t us p h.1)
  | inr e ↦ rw e (p, h)
]

insert_duration-IsIncreasing :
    (t : ℤ) (us : List ℤ) → has us t ≡ false → IsIncreasing us → IsIncreasing (insert_duration t us)
unfolding insert_duration
insert_duration-IsIncreasing t [] n h = (tt, tt)
insert_duration-IsIncreasing t (u ∷ us) n h = elim (Bool-cases (ltb_ℤ u t)) [
  | inl e ↦ rw e (
    All-insert_duration (λ v. ltb_ℤ u v ≡ true) t us e h.0,
    insert_duration-IsIncreasing t us (ground arith) h.1,
  )
  | inr e ↦
      let below : ltb_ℤ t u ≡ true = ltb_total u t e (ground arith) in
      rw e ((below, All-map us (λ v k. ltb_trans t u v below k) h.0), h)
]

pub sort_durations-IsIncreasing : (ts : List ℤ) → IsDistinct ts → IsIncreasing (sort_durations ts)
unfolding sort_durations
sort_durations-IsIncreasing [] d = tt
sort_durations-IsIncreasing (t ∷ ts) d =
    insert_duration-IsIncreasing t (sort_durations ts) (has-sort_durations ts t ∙ d.0)
      (sort_durations-IsIncreasing ts d.1)
