-- ===== src/Chain/Tests.antt =====
-- internal/chain: runs of a chain at concrete inputs, and instances of its theorems.
use llemon_swap.Base.{ℕ, ◌+◌, ◌*◌, ◌≡◌, refl, [], ◌∷◌}
use llemon_swap.Chain.{new_chain, append, around, nested, around-append}

-- A handler is what it answers to a request, here a number.
abbrev double : (ℕ → ℕ) → ℕ → ℕ
double next x = next (x * 2)

abbrev increase : (ℕ → ℕ) → ℕ → ℕ
increase next x = next (x + 1)

demo_order : around (append (new_chain (double ∷ [])) (increase ∷ [])) (λ x. x) 5 ≡ 11
unfolding around append
demo_order = refl

around-append_example :
    around (append (new_chain (double ∷ [])) (increase ∷ [])) (λ x. x)
    ≡ nested (double ∷ []) (nested (increase ∷ []) (λ x. x))
around-append_example = around-append (new_chain (double ∷ [])) (increase ∷ []) (λ x. x)
