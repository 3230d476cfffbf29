-- ===== src/Matrix/Mask.antt =====
-- internal/matrix/program.go: bitMask, a set of bit positions over 64-bit words.
-- The masks of one query have one length, so an index out of range, a panic in Go, does not occur;
-- the clauses for lists of different lengths stand for it.
pub mod Word
use Prim.Native.Nat.{bit_and, bit_or, max}
use native.Mathlib.Nat.{one-le-pow}
use llemon_swap.Base.{
  ℕ, zero, suc, ◌-◌, ◌*◌, ◌/◌, ◌%◌, ◌^◌, ◌≤◌, ◌<◌, ◌≡◌, refl, ap, Bool, true, false, not, ◌&&◌,
  ◌||◌, List, [], ◌∷◌, arith, eqb, length, get_or, set, replicate, get_or-set, length-set,
  get_or-replicate,
}
use llemon_swap.Matrix.Bits.{
  bit, bit-le-one, bit-bit_and, bit-bit_or, bit-two-pow, bit_and-two-pow, bit_and-le,
}

abbrev pub BitMask : Type 0
BitMask = List ℕ

-- make(bitMask, words)
abbrev pub empty_mask : ℕ → BitMask
empty_mask words = replicate words 0

unfoldable pub has : BitMask → ℕ → Bool
has m b = not (eqb (bit_and (get_or m (b / 64) 0) (2 ^ (b % 64))) 0)

-- `x &^ y`: what x & y holds is taken off x.
abbrev pub and_not : ℕ → ℕ → ℕ
and_not x y = x - bit_and x y

unfoldable pub subset_of : BitMask → BitMask → Bool
subset_of [] other = true
subset_of (x ∷ m) [] = false
subset_of (x ∷ m) (y ∷ other) = eqb (and_not x y) 0 && subset_of m other

unfoldable pub union_mask : BitMask → BitMask → BitMask
union_mask [] right = []
union_mask (x ∷ left) [] = x ∷ left
union_mask (x ∷ left) (y ∷ right) = bit_or x y ∷ union_mask left right

-- `mask[bit/64] |= uint64(1) << uint(bit%64)`
unfoldable pub set_bit : BitMask → ℕ → BitMask
set_bit m b = set m (b / 64) (bit_or (get_or m (b / 64) 0) (2 ^ (b % 64)))

-- The bit of a position, as 0 or 1.
abbrev bit_at : BitMask → ℕ → ℕ
bit_at m b = bit (get_or m (b / 64) 0) (b % 64)

has-bit_at : (m : BitMask) (b : ℕ) → has m b ≡ eqb (bit_at m b) 1
unfolding has
has-bit_at m b = ground (
  arith,
  bit_and-two-pow (get_or m (b / 64) 0) (b % 64),
  bit-le-one (get_or m (b / 64) 0) (b % 64),
  one-le-pow (b % 64) 2,
)

union-word :
    (l r : BitMask) (i k : ℕ)
    → length l ≡ length r
    → bit (get_or (union_mask l r) i 0) k ≡ max (bit (get_or l i 0) k) (bit (get_or r i 0) k)
unfolding union_mask
union-word [] [] i k h = omega arith
union-word [] (y ∷ r) i k h = absurd (omega arith)
union-word (x ∷ l) [] i k h = absurd (omega arith)
union-word (x ∷ l) (y ∷ r) zero k h = bit-bit_or x y k
union-word (x ∷ l) (y ∷ r) (suc i) k h = union-word l r i k (omega arith)

pub has-union_mask :
    (l r : BitMask) (b : ℕ) → length l ≡ length r → has (union_mask l r) b ≡ (has l b || has r b)
has-union_mask l r b h = ground (
  arith,
  has-bit_at (union_mask l r) b,
  has-bit_at l b,
  has-bit_at r b,
  union-word l r (b / 64) (b % 64) h,
  bit-le-one (get_or l (b / 64) 0) (b % 64),
  bit-le-one (get_or r (b / 64) 0) (b % 64),
)

pub length-union_mask : (l r : BitMask) → length (union_mask l r) ≡ length l
unfolding union_mask
length-union_mask [] r = refl
length-union_mask (x ∷ l) [] = refl
length-union_mask (x ∷ l) (y ∷ r) = omega (arith, length-union_mask l r)

bit-zero : (k : ℕ) → bit 0 k ≡ 0
bit-zero zero = refl
bit-zero (suc k) = bit-zero k

pub has-empty_mask : (words b : ℕ) → has (empty_mask words) b ≡ false
has-empty_mask words b = ground (
  arith,
  has-bit_at (empty_mask words) b,
  get_or-replicate {A = ℕ} words (b / 64) 0,
  bit-zero (b % 64),
)

subset-bits : (x y k : ℕ) → and_not x y ≡ 0 → bit x k ≤ bit y k
subset-bits x y k h =
    let same : bit_and x y ≡ x = omega (arith, bit_and-le x x y (omega arith)) in
    omega (arith, ap (λ (w : ℕ). bit w k) same, bit-bit_and x y k)

subset-word :
    (m o : BitMask) (i k : ℕ) → subset_of m o ≡ true → bit (get_or m i 0) k ≤ bit (get_or o i 0) k
unfolding subset_of
subset-word [] o i k h = omega (arith, bit-zero k)
subset-word (x ∷ m) [] i k h = cc
subset-word (x ∷ m) (y ∷ o) zero k h = subset-bits x y k (ground arith)
subset-word (x ∷ m) (y ∷ o) (suc i) k h = subset-word m o i k (ground arith)

pub has-subset_of : (m o : BitMask) (b : ℕ) → subset_of m o ≡ true → has m b ≡ true → has o b ≡ true
has-subset_of m o b h k = ground (
  arith,
  has-bit_at m b,
  has-bit_at o b,
  subset-word m o (b / 64) (b % 64) h,
  bit-le-one (get_or m (b / 64) 0) (b % 64),
  bit-le-one (get_or o (b / 64) 0) (b % 64),
)

pub has-set_bit :
    (m : BitMask) (b j : ℕ) → b < 64 * length m → has (set_bit m b) j ≡ (eqb b j || has m j)
unfolding set_bit
has-set_bit m b j h = ground (
  arith,
  has-bit_at (set_bit m b) j,
  has-bit_at m j,
  get_or-set m (b / 64) (j / 64) (bit_or (get_or m (b / 64) 0) (2 ^ (b % 64))) 0,
  bit-bit_or (get_or m (b / 64) 0) (2 ^ (b % 64)) (j % 64),
  bit-two-pow (b % 64) (j % 64),
  bit-le-one (get_or m (j / 64) 0) (j % 64),
)

pub length-set_bit : (m : BitMask) (b : ℕ) → length (set_bit m b) ≡ length m
unfolding set_bit
length-set_bit m b = length-set m (b / 64) (bit_or (get_or m (b / 64) 0) (2 ^ (b % 64)))
