-- ===== src/Matrix/Program/Support.antt =====
-- internal/matrix/program.go, computeSupport: a model that a set can select is in its support, so a
-- query that passes a set over loses no selection.
use llemon_swap.Base.{
  ℕ, String, ◌≡◌, true, ◌==◌, eq_iff, some, List, [], ◌∷◌, arith, length, length-replicate, lookup,
  contains, contains-append, All, Bool-cases, Option-cases, inl, inr,
}
use llemon_swap.Matrix.Mask.{BitMask, empty_mask, has, set_bit, has-set_bit, length-set_bit}
use llemon_swap.Matrix.Registry.{
  Bits, register, words_for, IsRegistry, register-IsRegistry, new-IsRegistry, register-keeps,
  register-some, below-words,
}
use llemon_swap.Matrix.Node.{
  Node, Nodes, Selects, SelectsAny, SelectsAll, one, via, choice, union, here, there, done, both,
}
use llemon_swap.Matrix.Program.{
  CompiledSet, SupportedSet, collect, collect_each, register_sets, mark, add_support, new_program,
}

mutual
  unfolding collect collect_each contains

  collects :
      {n : Node} {xs : List String}
      → Selects n xs
      → (m : String) → contains xs m ≡ true
      → contains (collect n) m ≡ true
  collects (one x) m h = h
  collects (via name s) m h = collects s m h
  collects (choice s) m h = collects_any s m h
  collects (union s) m h = collects_all s m h

  collects_any :
      {ns : Nodes} {xs : List String}
      → SelectsAny ns xs
      → (m : String) → contains xs m ≡ true
      → contains (collect_each ns) m ≡ true
  collects_any (here {n} {ns} s) m h =
      ground (arith, contains-append (collect n) (collect_each ns) m, collects s m h)
  collects_any (there {n} {ns} s) m h =
      ground (arith, contains-append (collect n) (collect_each ns) m, collects_any s m h)

  collects_all :
      {ns : Nodes} {xs : List String}
      → SelectsAll ns xs
      → (m : String) → contains xs m ≡ true
      → contains (collect_each ns) m ≡ true
  collects_all done m h = h
  collects_all (both {n} {ns} {xs} {ys} s t) m h = ground (
    arith,
    contains-append (collect n) (collect_each ns) m,
    contains-append xs ys m,
    collects s m,
    collects_all t m,
  )

module _ (bits : Bits) (r : IsRegistry bits) where
  mark-keeps :
      (ms : List String) (mask : BitMask) (j : ℕ)
      → length mask ≡ words_for bits
      → has mask j ≡ true
      → has (mark bits ms mask) j ≡ true
  unfolding mark
  mark-keeps [] mask j l h = h
  mark-keeps (m ∷ ms) mask j l h = elim (Option-cases (lookup m bits)) [
    | inl e ↦ rw (e, mark) (mark-keeps ms mask j l h)
    | inr (b, e) ↦
        rw (e, mark)
          (mark-keeps ms (set_bit mask b) j (rw length-set_bit l)
            (ground (arith, has-set_bit mask b j, below-words bits m b r e)))
  ]

  mark-marks :
      (ms : List String) (mask : BitMask) (m : String) (b : ℕ)
      → length mask ≡ words_for bits
      → contains ms m ≡ true
      → lookup m bits ≡ some b
      → has (mark bits ms mask) b ≡ true
  unfolding mark contains
  mark-marks [] mask m b l h e = cc
  mark-marks (x ∷ ms) mask m b l h e = elim (Bool-cases (x == m)) [
    | inl p ↦
        let e' : lookup x bits ≡ some b = rw ((eq_iff x m).0 p) e in
        rw (e', mark)
          (mark-keeps ms (set_bit mask b) b (rw length-set_bit l)
            (ground (arith, has-set_bit mask b b, below-words bits m b r e)))
    | inr p ↦ elim (Option-cases (lookup x bits)) [
      | inl k ↦ rw (k, mark) (mark-marks ms mask m b l (ground arith) e)
      | inr (c, k) ↦
          rw (k, mark) (mark-marks ms (set_bit mask c) m b (rw length-set_bit l) (ground arith) e)
    ]
  ]

-- The support holds every model that the expression mentions.
abbrev pub IsSupported : Bits → SupportedSet → Type 0
IsSupported bits set =
    (m : String)
    → contains (collect set.root) m ≡ true
    → (b : ℕ) × (lookup m bits ≡ some b) × (has set.support b ≡ true)

register_sets-keeps :
    (bits : Bits) (sets : List CompiledSet) (x : String) (b : ℕ)
    → lookup x bits ≡ some b
    → lookup x (register_sets bits sets) ≡ some b
unfolding register_sets
register_sets-keeps bits [] x b h = h
register_sets-keeps bits (set ∷ sets) x b h =
    register_sets-keeps (register bits (collect set.root)) sets x b
      (register-keeps bits (collect set.root) x b h)

register_sets-IsRegistry :
    (bits : Bits) (sets : List CompiledSet) → IsRegistry bits → IsRegistry (register_sets bits sets)
unfolding register_sets
register_sets-IsRegistry bits [] r = r
register_sets-IsRegistry bits (set ∷ sets) r =
    register_sets-IsRegistry (register bits (collect set.root)) sets
      (register-IsRegistry bits (collect set.root) r)

-- Every model of every set has a position.
abbrev IsRegistered : Bits → CompiledSet → Type 0
IsRegistered bits set =
    (m : String) → contains (collect set.root) m ≡ true → (b : ℕ) × (lookup m bits ≡ some b)

register_sets-IsRegistered :
    (bits : Bits) (sets : List CompiledSet) → All (IsRegistered (register_sets bits sets)) sets
unfolding register_sets
register_sets-IsRegistered bits [] = tt
register_sets-IsRegistered bits (set ∷ sets) = (
  λ m h.
      let (b, e) = register-some bits (collect set.root) m h in
      (b, register_sets-keeps (register bits (collect set.root)) sets m b e),
  register_sets-IsRegistered (register bits (collect set.root)) sets,
)

add_support-IsSupported :
    (bits : Bits) (sets : List CompiledSet)
    → IsRegistry bits
    → All (IsRegistered bits) sets
    → All (IsSupported bits) (add_support bits sets)
unfolding add_support
add_support-IsSupported bits [] r h = tt
add_support-IsSupported bits (set ∷ sets) r h = (
  λ m k.
      let (b, e) = h.0 m k in
      (
        b,
        e,
        mark-marks bits r (collect set.root) (empty_mask (words_for bits)) m b
            (length-replicate (words_for bits) 0) k e,
      ),
  add_support-IsSupported bits sets r h.1,
)

-- A program's sets are supported.
pub new_program-IsSupported :
    (sets : List CompiledSet)
    → All (IsSupported (new_program sets).model_bits) (new_program sets).sets
unfolding new_program
new_program-IsSupported sets =
    add_support-IsSupported (register_sets [] sets) sets
      (register_sets-IsRegistry [] sets (unfold register in new-IsRegistry []))
      (register_sets-IsRegistered [] sets)

-- A model that a supported set selects is in its support.
pub Selects-supported :
    (bits : Bits) (set : SupportedSet) (xs : List String) (m : String)
    → IsSupported bits set
    → Selects set.root xs
    → contains xs m ≡ true
    → (b : ℕ) × (lookup m bits ≡ some b) × (has set.support b ≡ true)
Selects-supported bits set xs m ok s h = ok m (collects s m h)
