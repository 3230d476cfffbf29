-- ===== src/Matrix/Dsl/Lex.antt =====
-- internal/matrix/dsl.go: tokenize.
pub mod Spell
use Prim.Native.Char.{Char, code}
use Prim.Native.String.{count}
use llemon_swap.Base.{
  ℕ, zero, suc, ◌+◌, String, Bool, true, false, not, ◌&&◌, ◌||◌, Option, none, some, List, [], ◌∷◌,
  ◌⊎◌, inl, inr, ltb, leb, eqb, is_empty, if◌then◌else◌,
}
use llemon_swap.Matrix.Dsl.{
  Token, ident, and, or, lparen, rparen, reference, eof, SyntaxError, expected_name,
  unexpected_character,
}

-- The tables of the unicode package, for code points from 128 up.
pub record Classes : Type 0 where
  pub wide_space : ℕ → Bool
  pub wide_letter : ℕ → Bool
  pub wide_digit : ℕ → Bool

module _ (cls : Classes) where
  abbrev pub is_space : ℕ → Bool
  is_space n = if ltb n 128 then (leb 9 n && leb n 13) || eqb n 32 else cls.wide_space n

  abbrev pub is_letter : ℕ → Bool
  is_letter n =
      if ltb n 128
      then (leb b'A' n && leb n b'Z') || (leb b'a' n && leb n b'z')
      else cls.wide_letter n

  abbrev pub is_digit : ℕ → Bool
  is_digit n = if ltb n 128 then leb b'0' n && leb n b'9' else cls.wide_digit n

  unfoldable pub is_ident_char : Char → Bool
  is_ident_char c =
      let n = code c in is_letter n || is_digit n || eqb n b'_' || eqb n b'-' || eqb n b'.'

  unfoldable pub is_space_char : Char → Bool
  is_space_char c = is_space (code c)

  -- The longest run of identifier characters at the front.
  unfoldable pub name_at : String → String
  unfolding is_ident_char
  name_at String.[] = String.[]
  name_at (String.◌∷◌ c s) =
      let rest = name_at s in if is_ident_char c then String.◌∷◌ c rest else String.[]

  -- What stands at `c`, before `s`: a token or a space, and how many characters of `s` it takes.
  unfoldable pub lex_at : ℕ → Char → String → SyntaxError ⊎ (Option Token × ℕ)
  unfolding is_space_char is_ident_char name_at
  lex_at pos c s =
      let n = code c in
      if is_space_char c
      then inr (none, 0)
      else if eqb n b'&'
      then inr (some and, 0)
      else if eqb n b'|'
      then inr (some or, 0)
      else if eqb n b'('
      then inr (some lparen, 0)
      else if eqb n b')'
      then inr (some rparen, 0)
      else if eqb n b'+'
      then (if eqb (count (name_at s)) 0
          then inl (expected_name (suc pos))
          else inr (some (reference (name_at s)), count (name_at s)))
      else if not (is_ident_char c)
      then inl (unexpected_character c pos)
      else inr (some (ident (String.◌∷◌ c (name_at s))), count (name_at s))

  abbrev pub with_token : Option Token → List Token → List Token
  with_token none tokens = tokens
  with_token (some t) tokens = t ∷ tokens

  -- The loop at position `pos`, with `skip` characters that belong to the last token.
  unfoldable pub lex : ℕ → ℕ → String → SyntaxError ⊎ List Token
  unfolding lex_at
  lex pos skip String.[] = inr (eof ∷ [])
  lex pos (suc skip) (String.◌∷◌ c s) = lex (suc pos) skip s
  lex pos zero (String.◌∷◌ c s) = elim (lex_at pos c s) [
    | inl e ↦ inl e
    | inr (t, skip) ↦ elim (lex (suc pos) skip s) [
      | inl e ↦ inl e
      | inr tokens ↦ inr (with_token t tokens)
    ]
  ]

  unfoldable pub tokenize : String → SyntaxError ⊎ List Token
  unfolding lex
  tokenize = lex 0 0

  -- strings.TrimSpace
  unfoldable pub trim_left : String → String
  unfolding is_space_char
  trim_left String.[] = String.[]
  trim_left (String.◌∷◌ c s) =
      let rest = trim_left s in if is_space_char c then rest else String.◌∷◌ c s

  unfoldable pub trim_right : String → String
  unfolding is_space_char
  trim_right String.[] = String.[]
  trim_right (String.◌∷◌ c s) =
      let rest = trim_right s in
      if eqb (count rest) 0 && is_space_char c then String.[] else String.◌∷◌ c rest
