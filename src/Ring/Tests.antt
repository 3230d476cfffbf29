-- ===== src/Ring/Tests.antt =====
-- internal/ring: runs of the buffer at concrete inputs, and instances of its theorems.
use llemon_swap.Base.{ℕ, ◌≡◌, refl, [], ◌∷◌, last, arith}
use llemon_swap.Ring.{new_buffer, push_all, slice}
use llemon_swap.Ring.Contents.{slice-new_buffer}

demo_slice : slice {A = ℕ} 0 (push_all 0 (1 ∷ 2 ∷ 3 ∷ 4 ∷ 5 ∷ []) (new_buffer 0 3)) ≡ 3 ∷ 4 ∷ 5 ∷ []
unfolding slice new_buffer push_all
demo_slice = refl

slice-new_buffer_example :
    slice {A = ℕ} 0 (push_all 0 (1 ∷ 2 ∷ 3 ∷ 4 ∷ []) (new_buffer 0 3)) ≡ last 3 (1 ∷ 2 ∷ 3 ∷ 4 ∷ [])
slice-new_buffer_example = slice-new_buffer {A = ℕ} 0 3 (1 ∷ 2 ∷ 3 ∷ 4 ∷ []) (omega arith)
