-- ===== src/Matrix/Registry.antt =====
-- internal/matrix/program.go: the bit positions that a query, or a program, gives to its models.
use llemon_swap.Base.{
  ℕ, ◌+◌, ◌<◌, ◌*◌, ◌/◌, String, Bool, eqb, ◌≡◌, true, none, some, List, [], ◌∷◌, arith, ◌==◌,
  eq_iff, length, lookup, contains, Option-cases, Bool-cases, inl, inr,
}

abbrev pub Bits : Type 0
Bits = List (String × ℕ)

-- A model that has no position gets the next one. The order of the entries is of no effect: a Go
-- map has none.
unfoldable pub assign : Bits → String → Bits
unfolding lookup
assign bits m = elim (lookup m bits) [ some b ↦ bits | none ↦ (m, length bits) ∷ bits ]

-- The loop of newEvaluator.
unfoldable pub register : Bits → List String → Bits
unfolding assign
register bits [] = bits
register bits (m ∷ models) = register (assign bits m) models

-- `(len(modelBits) + 63) / 64`
abbrev pub words_for : Bits → ℕ
words_for bits = (length bits + 63) / 64

-- Positions are below the number of models, and two models have two of them.
pub record IsRegistry (bits : Bits) : Type 0 where
  pub below : (m : String) (b : ℕ) → lookup m bits ≡ some b → b < length bits
  pub injective :
      (m m' : String) (b : ℕ) → lookup m bits ≡ some b → lookup m' bits ≡ some b → m ≡ m'

nil-IsRegistry : IsRegistry []
unfolding lookup
nil-IsRegistry = record { below = λ m b h. cc; injective = λ m m' b h k. cc }

cons-IsRegistry :
    (m : String) (bits : Bits) → IsRegistry bits → IsRegistry ((m, length bits) ∷ bits)
unfolding lookup
cons-IsRegistry m bits r = record {
  below = λ x b h. ground (arith, eq_iff m x, r.below x b);
  injective = λ x y b h k.
      ground (arith, eq_iff m x, eq_iff m y, r.below x b, r.below y b, r.injective x y b);
}

assign-IsRegistry : (bits : Bits) (m : String) → IsRegistry bits → IsRegistry (assign bits m)
unfolding assign
assign-IsRegistry bits m r = elim (Option-cases (lookup m bits)) [
  | inl e ↦ rw (e, assign) (cons-IsRegistry m bits r)
  | inr (b, e) ↦ rw (e, assign) r
]

pub register-IsRegistry :
    (bits : Bits) (models : List String) → IsRegistry bits → IsRegistry (register bits models)
unfolding register
register-IsRegistry bits [] r = r
register-IsRegistry bits (m ∷ models) r =
    register-IsRegistry (assign bits m) models (assign-IsRegistry bits m r)

pub new-IsRegistry : (models : List String) → IsRegistry (register [] models)
new-IsRegistry models = register-IsRegistry [] models nil-IsRegistry

-- A registered model keeps its position.
assign-keeps :
    (bits : Bits) (m x : String) (b : ℕ)
    → lookup x bits ≡ some b
    → lookup x (assign bits m) ≡ some b
unfolding assign lookup
assign-keeps bits m x b h = ground (arith, eq_iff m x)

pub register-keeps :
    (bits : Bits) (models : List String) (x : String) (b : ℕ)
    → lookup x bits ≡ some b
    → lookup x (register bits models) ≡ some b
unfolding register
register-keeps bits [] x b h = h
register-keeps bits (m ∷ models) x b h =
    register-keeps (assign bits m) models x b (assign-keeps bits m x b h)

assign-some : (bits : Bits) (m : String) → (b : ℕ) × (lookup m (assign bits m) ≡ some b)
unfolding assign lookup
assign-some bits m = elim (Option-cases (lookup m bits)) [
  | inl e ↦ (length bits, ground (arith, eq_iff m m))
  | inr (b, e) ↦ (b, ground arith)
]

-- Every model of the list gets a position.
pub register-some :
    (bits : Bits) (models : List String) (m : String)
    → contains models m ≡ true
    → (b : ℕ) × (lookup m (register bits models) ≡ some b)
unfolding register contains
register-some bits [] m h = cc
register-some bits (x ∷ models) m h = elim (Bool-cases (x == m)) [
  | inl p ↦
      let (b, e) = assign-some bits x in
      (b, register-keeps (assign bits x) models m b (rw (← (eq_iff x m).0 p) e))
  | inr p ↦ register-some (assign bits x) models m (ground arith)
]

-- A position fits the words that are made for it.
pub below-words :
    (bits : Bits) (m : String) (b : ℕ)
    → IsRegistry bits
    → lookup m bits ≡ some b
    → b < 64 * words_for bits
below-words bits m b r h = omega (arith, r.below m b h)

-- Every position below the number of models belongs to one of them.
abbrev pub IsOnto : Bits → (String → Bool) → Type 0
IsOnto bits known =
    (j : ℕ) → j < length bits → (m : String) × (lookup m bits ≡ some j) × (known m ≡ true)

assign-IsOnto :
    (bits : Bits) (m : String) (known : String → Bool)
    → known m ≡ true
    → IsOnto bits known
    → IsOnto (assign bits m) known
unfolding assign lookup
assign-IsOnto bits m known h r = elim (Option-cases (lookup m bits)) [
  | inl e ↦
      rw (e, assign)
        (λ j q. elim (Bool-cases (eqb (length bits) j)) [
          | inl p ↦ (m, ground (arith, eq_iff m m), h)
          | inr p ↦ let (x, k, t) = r j (ground arith) in (x, ground (arith, eq_iff m x), t)
        ])
  | inr (b, e) ↦ rw (e, assign) r
]

pub register-IsOnto :
    (bits : Bits) (models : List String) (known : String → Bool)
    → ((m : String) → contains models m ≡ true → known m ≡ true)
    → IsOnto bits known
    → IsOnto (register bits models) known
unfolding register contains
register-IsOnto bits [] known h r = r
register-IsOnto bits (m ∷ models) known h r =
    register-IsOnto (assign bits m) models known (λ x k. h x (ground arith))
      (assign-IsOnto bits m known (h m (ground (arith, eq_iff m m))) r)
