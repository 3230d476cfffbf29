-- ===== src/Config/Merge/Tests.antt =====
-- The merge of two small documents.
use llemon_swap.Base.{String, ◌≡◌, refl, ◌↔◌, inl, inr, none, some, [], ◌∷◌, Any}
use llemon_swap.Config.Merge.{
  Yaml, Entries, scalar, mapping, sequence, none_left, entry, nil, cons, conflict, merge_value,
}
use llemon_swap.Config.Merge.Union.{value}
use llemon_swap.Config.Merge.Sources.{merge_sources, merge_sources-Gives, Gives, IsRoot}

abbrev text : String → Yaml
text v = scalar "!!str" v

abbrev model : String → Yaml
model cmd = mapping (entry "cmd" (text cmd) none_left)

-- `logLevel: info`, a hook, and the model `a`.
abbrev first_file : Yaml
first_file = mapping (
    entry "logLevel" (text "info") (
      entry "preload" (sequence (cons (text "a") nil))
        (entry "models" (mapping (entry "a" (model "serve a") none_left)) none_left)))

-- Another hook, and the model `b`.
abbrev second_file : Yaml
second_file = mapping (
    entry "preload" (sequence (cons (text "b") nil))
      (entry "models" (mapping (entry "b" (model "serve b") none_left)) none_left))

abbrev both_files : Yaml
both_files = mapping (
    entry "logLevel" (text "info") (
      entry "preload" (sequence (cons (text "a") (cons (text "b") nil))) (
        entry "models"
          (mapping (entry "a" (model "serve a") (entry "b" (model "serve b") none_left)))
          none_left)))

merge-two : merge_sources none (first_file ∷ second_file ∷ []) ≡ inr (some both_files)
unfolding merge_sources
merge-two = refl

-- A document that is one word counts as empty.
merge-word : merge_sources none (text "word" ∷ first_file ∷ []) ≡ inr (some first_file)
unfolding merge_sources
merge-word = refl

-- A null that is written out is a value like any other.
merge-written_null :
    merge_value (scalar "!!null" "null") (text "info") "logLevel" ≡ inl (conflict "logLevel")
unfolding merge_value
merge-written_null = refl

merge_sources-Gives_example :
    Gives ("models" ∷ "b" ∷ "cmd" ∷ []) (value "!!str" "serve b") (some both_files)
    ↔ Any
        (IsRoot ("models" ∷ "b" ∷ "cmd" ∷ []) (value "!!str" "serve b"))
        (first_file ∷ second_file ∷ [])
merge_sources-Gives_example =
    merge_sources-Gives (first_file ∷ second_file ∷ []) (some both_files) merge-two
      ("models" ∷ "b" ∷ "cmd" ∷ []) (value "!!str" "serve b") refl

abbrev first_models : Entries
first_models = entry "a" (model "serve a") none_left
