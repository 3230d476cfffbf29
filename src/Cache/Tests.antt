-- ===== src/Cache/Tests.antt =====
-- internal/cache: runs of the cache at concrete inputs, and instances of its theorems.
use llemon_swap.Base.{◌≡◌, refl, List, [], ◌∷◌, arith, Returns}
use llemon_swap.Cache.{Cache, Call, add_entry, new_cache, add, run}
use llemon_swap.Cache.Accounts.{IsValid}
use llemon_swap.Cache.Room.{IsAdded, add-IsAdded, run-IsValid}

abbrev demo_calls : List Call
demo_calls = add_entry 1 (7 ∷ 7 ∷ []) ∷ add_entry 2 (8 ∷ 8 ∷ []) ∷ add_entry 1 (7 ∷ 7 ∷ []) ∷ []

-- Four bytes: entry 2 is the oldest once entry 1 is written again.
abbrev demo : Cache
demo = run demo_calls (new_cache 4)

demo_order : (demo.order ≡ 2 ∷ 1 ∷ []) × (demo.size ≡ 4)
unfolding run new_cache
demo_order = (refl, refl)

demo_evicts : (run (add_entry 3 (9 ∷ []) ∷ []) demo).order ≡ 1 ∷ 3 ∷ []
unfolding run new_cache
demo_evicts = refl

run-IsValid_example : IsValid (run demo_calls (new_cache 4))
run-IsValid_example = run-IsValid 4 demo_calls

add-IsAdded_example : Returns (add 3 (9 ∷ []) demo) (IsAdded 3 (9 ∷ []) demo)
unfolding run new_cache
add-IsAdded_example = add-IsAdded 3 (9 ∷ []) demo (run-IsValid 4 demo_calls) (omega arith)
