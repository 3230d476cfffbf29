-- ===== src/Config/Merge/Identity.antt =====
-- internal/config/merge.go: entities that two sources define.
use llemon_swap.Base.{String, ◌≡◌, true, some, ◌⊎◌, inr, contains, if◌then◌else◌}
use llemon_swap.Config.Merge.{
  Yaml, Entries, MergeError, index, join_path, identity_map_paths, merge_identity_map, merge_value,
  at_entry,
}

module _ (ss : Entries) (path key : String)
    (identity : contains identity_map_paths (join_path path key) ≡ true) (s : Yaml)
    (has : index ss key ≡ some s) where
  abbrev AtKey : Yaml → Type 0
  AtKey d = (m : Yaml) × (merge_identity_map d s (join_path path key) key ≡ inr m)

  abbrev merged_entry : Yaml → String → MergeError ⊎ Yaml
  merged_entry n k = at_entry n (index ss k) (λ t.
      if contains identity_map_paths (join_path path k)
      then merge_identity_map n t (join_path path k) k
      else merge_value n t (join_path path k))
