-- ===== src/Config/Merge.antt =====
-- internal/config/merge.go: the merge of the configuration's sources.
pub mod Union
pub mod Keys
pub mod Values
pub mod Sources
pub mod Identity
pub mod Tests
use Prim.Native.String
use llemon_swap.Base.{
  ℕ, String, Bool, true, false, not, ◌&&◌, ◌||◌, Option, none, some, List, [], ◌∷◌, ◌==◌, eqb, ◌⊎◌,
  inl, inr, contains, if◌then◌else◌,
}

-- A node of a parsed document. The keys of a mapping are known by their text. `other` is a node of
-- another kind, by its number: an alias, or 0 for no node.
mutual
  pub data Yaml : Type 0 where
    scalar : String → String → Yaml
    mapping : Entries → Yaml
    sequence : Items → Yaml
    other : ℕ → Yaml

  pub data Entries : Type 0 where
    none_left : Entries
    entry : String → Yaml → Entries → Entries

  pub data Items : Type 0 where
    nil : Items
    cons : Yaml → Items → Items

pub data MergeError : Type 0 where
  duplicate : String → String → MergeError
  conflict incompatible not_a_mapping : String → MergeError
  no_sources : MergeError

abbrev pub checked : {A B : Type 0} → MergeError ⊎ A → (A → MergeError ⊎ B) → MergeError ⊎ B
checked (inl e) f = inl e
checked (inr a) f = f a

abbrev pub identity_map_paths : List String
identity_map_paths =
    "models" ∷ "groups" ∷ "profiles" ∷ "selectors" ∷ "peers" ∷ "matrix"
    ∷ "routing.router.settings.groups" ∷ "routing.router.settings.matrix" ∷ []

abbrev pub is_null_scalar : String → String → Bool
is_null_scalar tag value = (tag == "!!null" || tag == "") && value == ""

abbrev pub is_null : Yaml → Bool
is_null (scalar tag value) = is_null_scalar tag value
is_null (other kind) = eqb kind 0
is_null _ = false

abbrev pub or_later : Option Yaml → Option Yaml → Option Yaml
or_later none earlier = earlier
or_later (some n) earlier = some n

-- The value of a key in the index of a mapping: the last one, where the key comes twice.
unfoldable pub index : Entries → String → Option Yaml
index none_left key = none
index (entry k n rest) key = or_later (index rest key) (if k == key then some n else none)

unfoldable pub join_path : String → String → String
join_path parent key = if parent == "" then key else String.◌++◌ parent (String.◌++◌ "." key)

unfoldable pub append_entries : Entries → Entries → Entries
append_entries none_left ys = ys
append_entries (entry k n xs) ys = entry k n (append_entries xs ys)

unfoldable pub append_items : Items → Items → Items
append_items nil ys = ys
append_items (cons n xs) ys = cons n (append_items xs ys)

-- The entries of the source whose keys the destination has not got.
unfoldable pub only_new : Entries → Entries → Entries
unfolding index
only_new dst none_left = none_left
only_new dst (entry k n rest) =
    let others = only_new dst rest in
    elim (index dst k) [ some m ↦ others | none ↦ entry k n others ]

-- A key of the source that the destination has too.
unfoldable pub first_shared : Entries → Entries → Option String
unfolding index
first_shared dst none_left = none
first_shared dst (entry k n rest) = elim (index dst k) [
  | some m ↦ some k
  | none ↦ first_shared dst rest
]

unfoldable pub merge_identity_map : Yaml → Yaml → String → String → MergeError ⊎ Yaml
unfolding first_shared append_entries
merge_identity_map (mapping ds) (mapping ss) path map_name = elim (first_shared ds ss) [
  | some key ↦ inl (duplicate map_name key)
  | none ↦ inr (mapping (append_entries ds ss))
]
merge_identity_map dst src path map_name = inl (not_a_mapping path)

-- An entry of the destination, merged with that of the source if it has one.
abbrev pub at_entry : Yaml → Option Yaml → (Yaml → MergeError ⊎ Yaml) → MergeError ⊎ Yaml
at_entry d none merge = inr d
at_entry d (some s) merge = merge s

-- `mergeNodes` is `merge_shared`, its first pass, and what `only_new` gives, its second.
unfoldable mutual
  unfolding index join_path only_new append_entries append_items merge_identity_map contains

  pub merge_value : Yaml → Yaml → String → MergeError ⊎ Yaml
  merge_value (mapping ds) (mapping ss) path =
      checked (merge_shared ds ss path)
        (λ merged. inr (mapping (append_entries merged (only_new merged ss))))
  merge_value (sequence xs) (sequence ys) path = inr (sequence (append_items xs ys))
  merge_value (scalar dtag dval) (scalar stag sval) path =
      if is_null_scalar dtag dval
      then inr (scalar stag sval)
      else if is_null_scalar stag sval
      then inr (scalar dtag dval)
      else if dval == sval && dtag == stag
      then inr (scalar dtag dval)
      else inl (conflict path)
  merge_value dst src path =
      if is_null dst then inr src else if is_null src then inr dst else inl (incompatible path)

  pub merge_shared : Entries → Entries → String → MergeError ⊎ Entries
  merge_shared none_left ss path = inr none_left
  merge_shared (entry k d ds) ss path =
      let at_key = join_path path k in
      let merge = λ (s : Yaml).
        if contains identity_map_paths at_key
        then merge_identity_map d s at_key k
        else merge_value d s at_key in
      checked (at_entry d (index ss k) merge)
        (λ merged. checked (merge_shared ds ss path) (λ rest. inr (entry k merged rest)))
