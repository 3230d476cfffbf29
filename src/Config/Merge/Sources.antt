-- ===== src/Config/Merge/Sources.antt =====
-- internal/config/merge.go: parseSource and the loop of LoadConfigSources over the parsed files.
use llemon_swap.Base.{
  String, ◌≡◌, refl, sym, ap, ◌∙◌, subst, Option, none, some, List, [], ◌∷◌, arith, ◌⊎◌, ◌↔◌, inl,
  inr, Any,
}
use llemon_swap.Config.Merge.{
  Yaml, scalar, mapping, sequence, other, none_left, entry, nil, cons, MergeError, not_a_mapping,
  checked, merge_value,
}
use llemon_swap.Config.Merge.Union.{Leaf, IsGiven, Has}
use llemon_swap.Config.Merge.Values.{merge_value-Union, inverse}

-- The root of a parsed file: a root without content (a scalar, too) counts as an empty file.
unfoldable pub parse_source : Yaml → MergeError ⊎ Option Yaml
parse_source (other kind) = inr none
parse_source (scalar tag value) = inr none
parse_source (mapping none_left) = inr none
parse_source (mapping (entry k n rest)) = inr (some (mapping (entry k n rest)))
parse_source (sequence nil) = inr none
parse_source (sequence (cons n rest)) = inl (not_a_mapping "")

abbrev pub add_source : Option Yaml → Yaml → MergeError ⊎ Yaml
add_source none n = inr n
add_source (some m) n = merge_value m n ""

unfoldable pub merge_sources : Option Yaml → List Yaml → MergeError ⊎ Option Yaml
unfolding parse_source merge_value
merge_sources merged [] = inr merged
merge_sources merged (file ∷ files) = checked (parse_source file) (λ node. elim node [
  | none ↦ merge_sources merged files
  | some n ↦ checked (add_source merged n) (λ m. merge_sources (some m) files)
])

-- What is in the document of a load, where there is one.
abbrev pub Gives : List String → Leaf → Option Yaml → Type 0
Gives ks x none = ⊥
Gives ks x (some n) = Has ks x n

abbrev pub IsRoot : List String → Leaf → Yaml → Type 0
IsRoot ks x file = (n : Yaml) × (parse_source file ≡ inr (some n)) × Has ks x n

root_eq :
    {a b : Yaml} → (let o : MergeError ⊎ Option Yaml = inr (some a) in o) ≡ inr (some b) → a ≡ b
root_eq e = ground arith

-- What the load of a file and of the others does, by the root of the file.
by_root :
    (node : Option Yaml) (files : List Yaml) (o : Option Yaml) {r : Option Yaml}
    → elim node [
      | none ↦ merge_sources o files
      | some n ↦ checked (add_source o n) (λ m. merge_sources (some m) files)
    ]
      ≡ inr r
    → ((node ≡ none) × (merge_sources o files ≡ inr r))
      ⊎ ((n : Yaml) × (m : Yaml) × (node ≡ some n)
          × (add_source o n ≡ inr m)
          × (merge_sources (some m) files ≡ inr r))
by_root none files o h = inl (refl, h)
by_root (some n) files o h =
    let (m, added, rest) = inverse (add_source o n) _ h in inr (n, m, refl, added, rest)

first_file :
    (file : Yaml) (files : List Yaml) (o : Option Yaml) {r : Option Yaml}
    → merge_sources o (file ∷ files) ≡ inr r
    → ((parse_source file ≡ inr none) × (merge_sources o files ≡ inr r))
      ⊎ ((n : Yaml) × (m : Yaml) × (parse_source file ≡ inr (some n))
          × (add_source o n ≡ inr m)
          × (merge_sources (some m) files ≡ inr r))
unfolding merge_sources
first_file file files o h =
    let (node, parsed, rest) = inverse (parse_source file) _ h in
    elim (by_root node files o rest) [
      | inl (e, f) ↦ inl (parsed ∙ ap inr e, f)
      | inr (n, m, e, added, more) ↦ inr (n, m, parsed ∙ ap inr e, added, more)
    ]

module _ (ks : List String) (x : Leaf) where
  add_left :
      (o : Option Yaml) (n : Yaml) {m : Yaml}
      → add_source o n ≡ inr m
      → IsGiven x
      → Gives ks x o
      → Has ks x m
  add_left none n e g h = absurd h
  add_left (some o) n e g h = (merge_value-Union o n "" e).left ks x g h

  add_right :
      (o : Option Yaml) (n : Yaml) {m : Yaml}
      → add_source o n ≡ inr m
      → IsGiven x
      → Has ks x n
      → Has ks x m
  add_right none n e g h = subst (Has ks x) (ground arith) h
  add_right (some o) n e g h = (merge_value-Union o n "" e).right ks x g h

  add_only :
      (o : Option Yaml) (n : Yaml) {m : Yaml}
      → add_source o n ≡ inr m
      → Has ks x m
      → Gives ks x o ⊎ Has ks x n
  add_only none n e h = inr (subst (Has ks x) (ground arith) h)
  add_only (some o) n e h = (merge_value-Union o n "" e).only ks x h

  keep_all :
      (files : List Yaml) (o : Option Yaml) {r : Option Yaml}
      → merge_sources o files ≡ inr r
      → IsGiven x
      → Gives ks x o ⊎ Any (IsRoot ks x) files
      → Gives ks x r
  unfolding merge_sources
  keep_all [] o h g (inl k) = subst (Gives ks x) (ground arith) k
  keep_all [] o h g (inr k) = absurd k
  keep_all (file ∷ files) o h g k = elim (first_file file files o h) [
    | inl (empty, rest) ↦ keep_all files o rest g (elim k [
      | inl old ↦ inl old
      | inr (inl (n, parsed, has)) ↦ absurd (ground arith)
      | inr (inr later) ↦ inr later
    ])
    | inr (n, m, parsed, added, rest) ↦ keep_all files (some m) rest g (elim k [
      | inl old ↦ inl (add_left o n added g old)
      | inr (inl (n', parsed', has)) ↦
          inl (add_right o n added g (subst (Has ks x) (root_eq (sym parsed' ∙ parsed)) has))
      | inr (inr later) ↦ inr later
    ])
  ]

  only_these :
      (files : List Yaml) (o : Option Yaml) {r : Option Yaml}
      → merge_sources o files ≡ inr r
      → Gives ks x r
      → Gives ks x o ⊎ Any (IsRoot ks x) files
  unfolding merge_sources
  only_these [] o h k = inl (subst (Gives ks x) (ground arith) k)
  only_these (file ∷ files) o h k = elim (first_file file files o h) [
    | inl (empty, rest) ↦ elim (only_these files o rest k) [
      | inl old ↦ inl old
      | inr later ↦ inr (inr later)
    ]
    | inr (n, m, parsed, added, rest) ↦ elim (only_these files (some m) rest k) [
      | inl had ↦ elim (add_only o n added had) [
        | inl old ↦ inl old
        | inr new ↦ inr (inl (n, parsed, new))
      ]
      | inr later ↦ inr (inr later)
    ]
  ]

-- A merge that succeeds gives exactly what its sources give: every scalar that is not null and
-- every item of a sequence, at its path of keys, of every source that is not empty, and no other.
pub merge_sources-Gives :
    (files : List Yaml) (r : Option Yaml)
    → merge_sources none files ≡ inr r
    → (ks : List String) (x : Leaf) → IsGiven x
    → Gives ks x r ↔ Any (IsRoot ks x) files
merge_sources-Gives files r h ks x g = (
  λ k. elim (only_these ks x files none h k) [ inl e ↦ absurd e | inr e ↦ e ],
  λ k. keep_all ks x files none h g (inr k),
)
