-- ===== src/Matrix/Dsl/Lex/Spell.antt =====
-- internal/matrix/dsl.go: tokens that are written out, each with a space behind it, are read back.
use Prim.Native.Char.{Char}
use Prim.Native.String.{count}
use text.Mathlib.TextLemmas.{length-cons}
use llemon_swap.Base.{
  ℕ, suc, ◌+◌, ◌≡◌, refl, ap, ◌∙◌, String, true, false, some, List, [], ◌∷◌, ◌++◌, ◌⊎◌, inl, inr,
  arith,
}
use llemon_swap.Matrix.Dsl.{Token, ident, and, or, lparen, rparen, reference, eof, SyntaxError}
use llemon_swap.Matrix.Dsl.Lex.{
  Classes, is_ident_char, is_space_char, name_at, lex_at, lex, tokenize,
}

-- A text before another.
abbrev pub glue : String → String → String
glue String.[] s = s
glue (String.◌∷◌ c t) s = String.◌∷◌ c (glue t s)

abbrev pub spaced : String → String → String
spaced t s = glue t (String.◌∷◌ " " s)

pub spell : List Token → String
spell [] = String.[]
spell (ident name ∷ tokens) = spaced name (spell tokens)
spell (reference name ∷ tokens) = String.◌∷◌ "+" (spaced name (spell tokens))
spell (and ∷ tokens) = spaced "&" (spell tokens)
spell (or ∷ tokens) = spaced "|" (spell tokens)
spell (lparen ∷ tokens) = spaced "(" (spell tokens)
spell (rparen ∷ tokens) = spaced ")" (spell tokens)
spell (eof ∷ tokens) = spell tokens

module _ (cls : Classes) where
  -- Characters of a name; no table takes a space for one.
  abbrev pub AreNameChars : String → Type 0
  AreNameChars String.[] = Unit
  AreNameChars (String.◌∷◌ c s) =
      (is_ident_char cls c ≡ true) × (is_space_char cls c ≡ false) × AreNameChars s

  abbrev pub IsName : String → Type 0
  IsName String.[] = ⊥
  IsName (String.◌∷◌ c s) =
      (is_ident_char cls c ≡ true) × (is_space_char cls c ≡ false) × AreNameChars s

  abbrev pub IsSpelled : Token → Type 0
  IsSpelled (ident name) = IsName name
  IsSpelled (reference name) = IsName name
  IsSpelled eof = ⊥
  IsSpelled _ = Unit

  name_at-spaced : (t s : String) → AreNameChars t → name_at cls (spaced t s) ≡ t
  unfolding name_at is_ident_char
  name_at-spaced String.[] s h = refl
  name_at-spaced (String.◌∷◌ c t) s h = ground (arith, h, name_at-spaced t s h.2)

  lex-skip :
      (pos : ℕ) (t s : String) → lex cls pos (count t) (glue t s) ≡ lex cls (pos + count t) 0 s
  unfolding lex
  lex-skip pos String.[] s = ap (λ (p : ℕ). lex cls p 0 s) {x = pos} {y = pos + 0} (omega arith)
  lex-skip pos (String.◌∷◌ c t) s = rw length-cons (
      lex-skip (suc pos) t s
      ∙ ap (λ (p : ℕ). lex cls p 0 s) {x = suc pos + count t} {y = pos + suc (count t)}
          (omega arith))

  pushed :
      (r : SyntaxError ⊎ List Token)
      → ◌≡◌ {A = SyntaxError ⊎ List Token} (elim r [ inl e ↦ inl e | inr tokens ↦ inr tokens ]) r
  pushed (inl e) = refl
  pushed (inr tokens) = refl

  lex-space : (pos : ℕ) (s : String) → lex cls pos 0 (String.◌∷◌ " " s) ≡ lex cls (suc pos) 0 s
  unfolding lex
  lex-space pos s = pushed (lex cls (suc pos) 0 s)

  lex_at-ident :
      (pos : ℕ) (c : Char) (s : String)
      → is_ident_char cls c ≡ true
      → is_space_char cls c ≡ false
      → lex_at cls pos c s
        ≡ inr (some (ident (String.◌∷◌ c (name_at cls s))), count (name_at cls s))
  unfolding lex_at is_ident_char
  lex_at-ident pos c s h k = ground (arith, h, k)

  lex_at-reference :
      (pos : ℕ) (c : Char) (t s : String)
      → IsName (String.◌∷◌ c t)
      → lex_at cls pos "+" (spaced (String.◌∷◌ c t) s)
        ≡ inr (some (reference (String.◌∷◌ c t)), count (String.◌∷◌ c t))
  unfolding lex_at
  lex_at-reference pos c t s h =
      rw (name_at-spaced (String.◌∷◌ c t) s h) (rw length-cons (ground arith))

  -- A step of the loop that makes a token.
  lex-token :
      (pos : ℕ) (c : Char) (s : String) (t : Token) (skip : ℕ) (tokens : List Token)
      → lex_at cls pos c s ≡ inr (some t, skip)
      → lex cls (suc pos) skip s ≡ inr tokens
      → lex cls pos 0 (String.◌∷◌ c s) ≡ inr (t ∷ tokens)
  unfolding lex
  lex-token pos c s t skip tokens h k = rw (h, lex) (rw k refl)

  -- What follows a name of `t` characters, and the space behind it.
  lex-rest :
      (pos : ℕ) (t s : String) (tokens : List Token)
      → ((p : ℕ) → lex cls p 0 s ≡ inr tokens)
      → lex cls pos (count t) (spaced t s) ≡ inr tokens
  lex-rest pos t s tokens h =
      lex-skip pos t (String.◌∷◌ " " s) ∙ lex-space (pos + count t) s ∙ h (suc (pos + count t))

  unfoldable pub AreSpelled : List Token → Type 0
  AreSpelled [] = Unit
  AreSpelled (t ∷ tokens) = IsSpelled t × AreSpelled tokens

  lex-spell :
      (tokens : List Token) (pos : ℕ)
      → AreSpelled tokens
      → lex cls pos 0 (spell tokens) ≡ inr (tokens ++ eof ∷ [])
  unfolding lex lex_at is_space_char spell AreSpelled
  lex-spell [] pos h = refl
  lex-spell (ident String.[] ∷ tokens) pos h = absurd h.0
  lex-spell (ident (String.◌∷◌ c t) ∷ tokens) pos h =
      lex-token pos c (spaced t (spell tokens)) (ident (String.◌∷◌ c t)) (count t)
        (tokens ++ eof ∷ [])
        (lex_at-ident pos c (spaced t (spell tokens)) h.0.0 h.0.1
          ∙ ap (λ (x : String). inr (some (ident (String.◌∷◌ c x)), count x))
              (name_at-spaced t (spell tokens) h.0.2))
        (lex-rest (suc pos) t (spell tokens) (tokens ++ eof ∷ []) (λ p. lex-spell tokens p h.1))
  lex-spell (reference String.[] ∷ tokens) pos h = absurd h.0
  lex-spell (reference (String.◌∷◌ c t) ∷ tokens) pos h =
      let name = String.◌∷◌ c t in
      lex-token pos "+" (spaced name (spell tokens)) (reference name) (count name)
        (tokens ++ eof ∷ []) (lex_at-reference pos c t (spell tokens) h.0)
        (lex-rest (suc pos) name (spell tokens) (tokens ++ eof ∷ []) (λ p. lex-spell tokens p h.1))
  lex-spell (and ∷ tokens) pos h =
      lex-token pos "&" (spaced "" (spell tokens)) and 0 (tokens ++ eof ∷ []) refl
        (lex-rest (suc pos) "" (spell tokens) (tokens ++ eof ∷ []) (λ p. lex-spell tokens p h.1))
  lex-spell (or ∷ tokens) pos h =
      lex-token pos "|" (spaced "" (spell tokens)) or 0 (tokens ++ eof ∷ []) refl
        (lex-rest (suc pos) "" (spell tokens) (tokens ++ eof ∷ []) (λ p. lex-spell tokens p h.1))
  lex-spell (lparen ∷ tokens) pos h =
      lex-token pos "(" (spaced "" (spell tokens)) lparen 0 (tokens ++ eof ∷ []) refl
        (lex-rest (suc pos) "" (spell tokens) (tokens ++ eof ∷ []) (λ p. lex-spell tokens p h.1))
  lex-spell (rparen ∷ tokens) pos h =
      lex-token pos ")" (spaced "" (spell tokens)) rparen 0 (tokens ++ eof ∷ []) refl
        (lex-rest (suc pos) "" (spell tokens) (tokens ++ eof ∷ []) (λ p. lex-spell tokens p h.1))
  lex-spell (eof ∷ tokens) pos h = absurd h.0

  -- Tokens without an end, whose names are of identifier characters, are read back from a text with a
  -- space behind each, with the end behind them.
  pub tokenize-spell :
      (tokens : List Token)
      → AreSpelled tokens
      → tokenize cls (spell tokens) ≡ inr (tokens ++ eof ∷ [])
  unfolding tokenize
  tokenize-spell tokens h = lex-spell tokens 0 h
