-- ===== src/Chain.antt =====
-- internal/chain/chain.go: stacks of middleware around a handler, which is any type here.
pub mod Tests
use llemon_swap.Base.{
  ℕ, zero, suc, ◌+◌, ◌<◌, ◌≤◌, ◌≡◌, refl, sym, ap, ◌∙◌, List, [], ◌∷◌, ◌++◌, arith, length,
  length-append, get_or,
}

pub record Chain {ℓ} (H : Type ℓ) : Type ℓ where
  pub mws : List (H → H)

module _ {ℓ} {H : Type ℓ} where
  abbrev pub new_chain : List (H → H) → Chain H
  new_chain mws = record { mws = mws }

  unfoldable pub append : Chain H → List (H → H) → Chain H
  append c mws = record { mws = c.mws ++ mws }

  -- The loop of Then, with `n` middlewares left to apply, the last of them first.
  unfoldable pub wrap : List (H → H) → ℕ → H → H
  wrap mws zero h = h
  wrap mws (suc n) h = wrap mws n (get_or mws n (λ x. x) h)

  unfoldable pub around : Chain H → H → H
  unfolding wrap
  around c final = wrap c.mws (length c.mws) final

  -- The middleware from left to right, each around the rest.
  abbrev pub nested : List (H → H) → H → H
  nested [] final = final
  nested (m ∷ mws) final = m (nested mws final)

  wrap-cons :
      (m : H → H) (mws : List (H → H)) (n : ℕ) (h : H) → wrap (m ∷ mws) (suc n) h ≡ m (wrap mws n h)
  unfolding wrap
  wrap-cons m mws zero h = refl
  wrap-cons m mws (suc n) h = wrap-cons m mws n (get_or mws n (λ x. x) h)

  wrap-nested : (mws : List (H → H)) (h : H) → wrap mws (length mws) h ≡ nested mws h
  unfolding wrap
  wrap-nested [] h = refl
  wrap-nested (m ∷ mws) h = wrap-cons m mws (length mws) h ∙ ap m (wrap-nested mws h)

  nested-append : (xs ys : List (H → H)) (h : H) → nested (xs ++ ys) h ≡ nested xs (nested ys h)
  nested-append [] ys h = refl
  nested-append (x ∷ xs) ys h = ap x (nested-append xs ys h)

  -- The handler of an extended chain runs the chain's middleware from left to right, then what was added,
  -- then the final handler.
  pub around-append :
      (c : Chain H) (mws : List (H → H)) (final : H)
      → around (append c mws) final ≡ nested c.mws (nested mws final)
  unfolding around append
  around-append c mws final = wrap-nested (c.mws ++ mws) final ∙ nested-append c.mws mws final
