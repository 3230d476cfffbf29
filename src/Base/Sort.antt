-- ===== src/Base/Sort.antt =====
-- sort.Strings: the order of strings, and a stable sort by it.
use Prim.Native.String.{String, compare}
use mathlib.Core.Path.{◌≡◌, refl, ◌∙◌, ap}
use mathlib.Core.Bool.{Bool, ◌||◌}
use mathlib.Core.List.{List, [], ◌∷◌}
use text.Mathlib.Text.{is_le, ◌==◌}
use native.Mathlib.Omega.{arith}
use llemon_swap.Base.Tests.{if◌then◌else◌, Bool-cases}
use llemon_swap.Base.Lists.{contains}

abbrev pub str_le : String → String → Bool
str_le s t = is_le (compare s t)

unfoldable pub insert_sorted : String → List String → List String
insert_sorted s [] = s ∷ []
insert_sorted s (x ∷ xs) = if str_le s x then s ∷ x ∷ xs else x ∷ insert_sorted s xs

unfoldable pub sort_strings : List String → List String
unfolding insert_sorted
sort_strings [] = []
sort_strings (x ∷ xs) = insert_sorted x (sort_strings xs)

contains-insert_sorted :
    (s : String) (xs : List String) (m : String)
    → contains (insert_sorted s xs) m ≡ (s == m || contains xs m)
unfolding insert_sorted contains
contains-insert_sorted s [] m = refl
contains-insert_sorted s (x ∷ xs) m =
    ground (arith, contains-insert_sorted s xs m, Bool-cases (str_le s x))

-- Sorting keeps the members.
pub contains-sort_strings :
    (xs : List String) (m : String) → contains (sort_strings xs) m ≡ contains xs m
unfolding sort_strings contains
contains-sort_strings [] m = refl
contains-sort_strings (x ∷ xs) m =
    contains-insert_sorted x (sort_strings xs) m
    ∙ ap (λ (b : Bool). x == m || b) (contains-sort_strings xs m)
