-- ===== src/Matrix/Mask/Word.antt =====
-- internal/matrix/program.go: masks whose words have 64 bits, and subsetOf as inclusion.
use Prim.Native.Nat.{bit_or}
use llemon_swap.Base.{
  ℕ, suc, ◌+◌, ◌*◌, ◌/◌, ◌%◌, ◌^◌, ◌≤◌, ◌<◌, ◌≡◌, refl, ap, true, [], ◌∷◌, arith, eqb, ltb,
  Bool-cases, inl, inr, ◌∙◌, length, get_or, get_or-set, get_or-replicate,
}
use llemon_swap.Matrix.Bits.{bit, bit-le-one, bit-bit_or, bit-two-pow, bit_and-eq_left}
use llemon_swap.Matrix.Mask.{
  BitMask, empty_mask, has, and_not, subset_of, set_bit, has-bit_at, bit-zero,
}

-- No word has a bit from the 64th up.
abbrev pub AreWords : BitMask → Type 0
AreWords m = (i k : ℕ) → 64 ≤ k → bit (get_or m i 0) k ≡ 0

pub empty_mask-AreWords : (words : ℕ) → AreWords (empty_mask words)
empty_mask-AreWords words i k h =
    omega (arith, ap (λ (w : ℕ). bit w k) (get_or-replicate {A = ℕ} words i 0), bit-zero k)

pub set_bit-AreWords :
    (m : BitMask) (b : ℕ) → b < 64 * length m → AreWords m → AreWords (set_bit m b)
unfolding set_bit
set_bit-AreWords m b h w i k g = ground (
  arith,
  get_or-set m (b / 64) i (bit_or (get_or m (b / 64) 0) (2 ^ (b % 64))) 0,
  bit-bit_or (get_or m (b / 64) 0) (2 ^ (b % 64)) k,
  bit-two-pow (b % 64) k,
  w (b / 64) k g,
  w i k g,
)

subset-words :
    (m o : BitMask)
    → length m ≡ length o
    → ((i k : ℕ) → bit (get_or m i 0) k ≤ bit (get_or o i 0) k)
    → subset_of m o ≡ true
unfolding subset_of
subset-words [] o l h = refl
subset-words (x ∷ m) [] l h = absurd (omega arith)
subset-words (x ∷ m) (y ∷ o) l h =
    let rest = subset-words m o (omega arith) (λ i k. h (suc i) k) in
    let first : and_not x y ≡ 0 = omega (arith, bit_and-eq_left x x y (omega arith) (λ k. h 0 k)) in
    ground (arith, rest, first)

has-at : (m : BitMask) (i k : ℕ) → k < 64 → has m (64 * i + k) ≡ eqb (bit (get_or m i 0) k) 1
has-at m i k h =
    has-bit_at m (64 * i + k)
    ∙ ap (λ (w : ℕ). eqb (bit (get_or m w 0) ((64 * i + k) % 64)) 1) {x = (64 * i + k) / 64} {y = i}
        (omega arith)
    ∙ ap (λ (b : ℕ). eqb (bit (get_or m i 0) b) 1) {x = (64 * i + k) % 64} {y = k} (omega arith)

word_bits :
    (m o : BitMask) (i k : ℕ)
    → AreWords m
    → ((j : ℕ) → has m j ≡ true → has o j ≡ true)
    → bit (get_or m i 0) k ≤ bit (get_or o i 0) k
word_bits m o i k w h = elim (Bool-cases (ltb k 64)) [
  | inl e ↦ ground (
    arith,
    h (64 * i + k),
    has-at m i k (ground arith),
    has-at o i k (ground arith),
    bit-le-one (get_or m i 0) k,
    bit-le-one (get_or o i 0) k,
  )
  | inr e ↦ omega (arith, w i k (ground arith))
]

-- A mask of words is a subset of each mask that holds its positions.
pub subset_of-has :
    (m o : BitMask)
    → length m ≡ length o
    → AreWords m
    → ((j : ℕ) → has m j ≡ true → has o j ≡ true)
    → subset_of m o ≡ true
subset_of-has m o l w h = subset-words m o l (λ i k. word_bits m o i k w h)
