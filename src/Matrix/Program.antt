-- ===== src/Matrix/Program.antt =====
-- internal/matrix/program.go: the linked sets of a program, and the support masks by which a query
-- passes sets over.
pub mod Support
use llemon_swap.Base.{
  ℕ, String, Bool, true, false, ◌&&◌, Option, none, some, List, [], ◌∷◌, ◌++◌, lookup,
}
use llemon_swap.Matrix.Mask.{BitMask, empty_mask, has, set_bit}
use llemon_swap.Matrix.Registry.{Bits, register, words_for}
use llemon_swap.Matrix.Node.{Node, Nodes, leaf, ref, conj, disj, nil, cons}

pub record CompiledSet : Type 0 where
  pub name : String
  pub dsl : String
  pub root : Node

-- A set with its support.
pub record SupportedSet : Type 0 where
  pub set : CompiledSet
  pub open set use *
  pub support : BitMask

pub record Program : Type 0 where
  pub sets : List SupportedSet
  pub model_bits : Bits
  pub words : ℕ

-- The models that an expression can mention; a Go map as a list.
unfoldable mutual
  pub collect : Node → List String
  collect (leaf m) = m ∷ []
  collect (ref name n) = collect n
  collect (conj ns) = collect_each ns
  collect (disj ns) = collect_each ns

  pub collect_each : Nodes → List String
  collect_each nil = []
  collect_each (cons n ns) = collect n ++ collect_each ns

unfoldable pub register_sets : Bits → List CompiledSet → Bits
unfolding register collect
register_sets bits [] = bits
register_sets bits (set ∷ sets) = register_sets (register bits (collect set.root)) sets

-- The bits of the models set in a mask.
unfoldable pub mark : Bits → List String → BitMask → BitMask
unfolding lookup set_bit
mark bits [] mask = mask
mark bits (m ∷ ms) mask =
    mark bits ms (elim (lookup m bits) [ none ↦ mask | some b ↦ set_bit mask b ])

unfoldable pub add_support : Bits → List CompiledSet → List SupportedSet
unfolding mark collect
add_support bits [] = []
add_support bits (set ∷ sets) =
    record { set = set; support = mark bits (collect set.root) (empty_mask (words_for bits)) }
    ∷ add_support bits sets

-- computeSupport
unfoldable pub new_program : List CompiledSet → Program
unfolding register_sets add_support
new_program sets =
    let bits = register_sets [] sets in
    record { sets = add_support bits sets; model_bits = bits; words = words_for bits }

unfoldable pub supports_all : Program → SupportedSet → List String → Bool
unfolding lookup has
supports_all p set [] = true
supports_all p set (m ∷ ms) =
    elim (lookup m p.model_bits) [ none ↦ false | some b ↦ has set.support b ]
    && supports_all p set ms
