-- ===== src/Matrix/Bits.antt =====
-- The bits of a machine word, for the masks of internal/matrix/program.go.
use Prim.Native.Nat.{bit_and, bit_or, min, max, digits, bit_and-bitwise, bit_or-bitwise}
use native.Mathlib.Nat.{pow-suc}
use llemon_swap.Base.{
  ℕ, zero, suc, ◌+◌, ◌*◌, ◌/◌, ◌%◌, ◌^◌, ◌≤◌, ◌≡◌, refl, ap, arith, eqb, if◌then◌else◌,
}

-- Bit `k` of a word, as 0 or 1.
abbrev pub bit : ℕ → ℕ → ℕ
bit w zero = w % 2
bit w (suc k) = bit (w / 2) k

pub bit-le-one : (w k : ℕ) → bit w k ≤ 1
bit-le-one w zero = omega arith
bit-le-one w (suc k) = bit-le-one (w / 2) k

bit-zero : (k : ℕ) → bit 0 k ≡ 0
bit-zero zero = refl
bit-zero (suc k) = bit-zero k

-- The native operations stand for a recursion on binary digits, which any fuel from the first
-- operand up lets finish; so each has one equation for the lowest digit.
module _ (rest : ℕ → ℕ) (join : ℕ → ℕ → ℕ) where
  settled : (a b n m : ℕ) → a ≤ n → a ≤ m → digits rest join n a b ≡ digits rest join m a b
  settled (suc a) b zero m h k = absurd (omega arith)
  settled (suc a) b (suc n) zero h k = absurd (omega arith)
  settled (suc a) b (suc n) (suc m) h k =
      omega (arith, settled (suc a / 2) (b / 2) n m (omega arith) (omega arith))
  settled zero b (suc n) (suc m) h k = refl
  settled zero b (suc n) zero h k = refl
  settled zero b zero (suc m) h k = refl
  settled zero b zero zero h k = refl

and_none : (b : ℕ) → bit_and 0 b ≡ 0
and_none b = bit_and-bitwise 0 b

or_none : (b : ℕ) → bit_or 0 b ≡ b
or_none b = bit_or-bitwise 0 b

bit_and-digit : (a b : ℕ) → bit_and a b ≡ bit_and (a / 2) (b / 2) * 2 + min (a % 2) (b % 2)
bit_and-digit zero b = omega (arith, and_none b, and_none (b / 2))
bit_and-digit (suc a) b =
    let h = suc a / 2 in
    omega (
      arith,
      settled (λ _. 0) min h (b / 2) a h (omega arith) (omega arith),
      bit_and-bitwise (suc a) b,
      bit_and-bitwise h (b / 2),
    )

bit_or-digit : (a b : ℕ) → bit_or a b ≡ bit_or (a / 2) (b / 2) * 2 + max (a % 2) (b % 2)
bit_or-digit zero b = omega (arith, or_none b, or_none (b / 2))
bit_or-digit (suc a) b =
    let h = suc a / 2 in
    omega (
      arith,
      settled (λ c. c) max h (b / 2) a h (omega arith) (omega arith),
      bit_or-bitwise (suc a) b,
      bit_or-bitwise h (b / 2),
    )

bit_and-half : (a b : ℕ) → bit_and a b / 2 ≡ bit_and (a / 2) (b / 2)
bit_and-half a b = omega (arith, bit_and-digit a b)

bit_or-half : (a b : ℕ) → bit_or a b / 2 ≡ bit_or (a / 2) (b / 2)
bit_or-half a b = omega (arith, bit_or-digit a b)

pub bit-bit_and : (a b k : ℕ) → bit (bit_and a b) k ≡ min (bit a k) (bit b k)
bit-bit_and a b zero = omega (arith, bit_and-digit a b)
bit-bit_and a b (suc k) = rw bit_and-half (bit-bit_and (a / 2) (b / 2) k)

pub bit-bit_or : (a b k : ℕ) → bit (bit_or a b) k ≡ max (bit a k) (bit b k)
bit-bit_or a b zero = omega (arith, bit_or-digit a b)
bit-bit_or a b (suc k) = rw bit_or-half (bit-bit_or (a / 2) (b / 2) k)

two-pow-half : (k : ℕ) → 2 ^ suc k / 2 ≡ 2 ^ k
two-pow-half k = omega (arith, pow-suc 2 k)

-- `1 << k` has bit `k` alone.
pub bit-two-pow : (k j : ℕ) → bit (2 ^ k) j ≡ (if eqb k j then 1 else 0)
bit-two-pow zero zero = refl
bit-two-pow zero (suc j) = ground (arith, bit-zero j)
bit-two-pow (suc k) zero = ground (arith, pow-suc 2 k)
bit-two-pow (suc k) (suc j) = rw two-pow-half (ground (arith, bit-two-pow k j))

and_nothing : (n a : ℕ) → a ≤ n → bit_and a 0 ≡ 0
and_nothing n zero h = refl
and_nothing zero (suc a) h = absurd (omega arith)
and_nothing (suc n) (suc a) h =
    omega (arith, bit_and-digit (suc a) 0, and_nothing n (suc a / 2) (omega arith))

-- `w & (1 << k)` is the bit in its place.
pub bit_and-two-pow : (w k : ℕ) → bit_and w (2 ^ k) ≡ bit w k * 2 ^ k
bit_and-two-pow w zero = omega (arith, bit_and-digit w 1, and_nothing (w / 2) (w / 2) (omega arith))
bit_and-two-pow w (suc k) = omega (
  arith,
  bit_and-digit w (2 ^ suc k),
  ap (bit_and (w / 2)) (two-pow-half k),
  bit_and-two-pow (w / 2) k,
  pow-suc 2 k,
  ap (λ (t : ℕ). bit (w / 2) k * t) (pow-suc 2 k),
)

-- The bits of `x & y` are among those of `x`.
pub bit_and-le : (n x y : ℕ) → x ≤ n → bit_and x y ≤ x
bit_and-le n zero y h = omega (arith, and_none y)
bit_and-le zero (suc x) y h = absurd (omega arith)
bit_and-le (suc n) (suc x) y h =
    omega (arith, bit_and-digit (suc x) y, bit_and-le n (suc x / 2) (y / 2) (omega arith))

-- `x & y` is `x` where `y` has the bits of `x`; fuel above `x`.
pub bit_and-eq_left : (n x y : ℕ) → x ≤ n → ((k : ℕ) → bit x k ≤ bit y k) → bit_and x y ≡ x
bit_and-eq_left n zero y h sub = and_none y
bit_and-eq_left zero (suc x) y h sub = absurd (omega arith)
bit_and-eq_left (suc n) (suc x) y h sub = omega (
  arith,
  bit_and-digit (suc x) y,
  sub 0,
  bit_and-eq_left n (suc x / 2) (y / 2) (omega arith) (λ k. sub (suc k)),
)
