-- ===== src/Matrix/Dsl/Parse.antt =====
-- internal/matrix/dsl.go: the recursive-descent parser. Its position is the list of the tokens left.
pub mod Fuel
pub mod RoundTrip
use Prim.Native.String.{count}
use llemon_swap.Base.{
  ℕ, zero, suc, ◌+◌, ◌*◌, String, Bool, true, false, List, [], ◌∷◌, ◌⊎◌, inl, inr, eqb, length,
  if◌then◌else◌,
}
use llemon_swap.Matrix.Dsl.{
  Token, ident, and, or, lparen, rparen, reference, eof, Expr, Exprs, leaf, ref, conj, disj, nil,
  cons, SyntaxError, empty, unexpected_token, missing_parenthesis, trailing_token, out_of_fuel,
}
use llemon_swap.Matrix.Dsl.Lex.{Classes, tokenize, trim_left, trim_right}

abbrev pub Parsed : Type 0 → Type 0
Parsed A = SyntaxError ⊎ (A × List Token)

abbrev pub and_then : {A B : Type 0} → Parsed A → (A → List Token → Parsed B) → Parsed B
and_then (inl e) f = inl e
and_then (inr (a, tokens)) f = f a tokens

abbrev pub peek : List Token → Token
peek [] = eof
peek (t ∷ tokens) = t

-- The tokens after the next one, which stays if it is the end.
abbrev pub next : List Token → List Token
next [] = []
next (eof ∷ tokens) = eof ∷ tokens
next (_ ∷ tokens) = tokens

abbrev pub is_or : Token → Bool
is_or or = true
is_or _ = false

abbrev pub is_and : Token → Bool
is_and and = true
is_and _ = false

abbrev pub is_rparen : Token → Bool
is_rparen rparen = true
is_rparen _ = false

abbrev pub is_eof : Token → Bool
is_eof eof = true
is_eof _ = false

-- The last step of a parenthesis.
abbrev pub close : Expr → List Token → Parsed Expr
close root tokens =
    if is_rparen (peek tokens) then inr (root, next tokens) else inl missing_parenthesis

unfoldable mutual
  pub parse_or : ℕ → List Token → Parsed Expr
  parse_or zero tokens = inl out_of_fuel
  parse_or (suc n) tokens = and_then (parse_and n tokens) (λ left more. elim (is_or (peek more)) [
    | true ↦ and_then (or_rest n more) (λ rights end. inr (disj (cons left rights), end))
    | false ↦ inr (left, more)
  ])

  -- The loop over the further alternatives.
  pub or_rest : ℕ → List Token → Parsed Exprs
  or_rest zero tokens = inl out_of_fuel
  or_rest (suc n) tokens = elim (is_or (peek tokens)) [
    | true ↦
        and_then (parse_and n (next tokens))
          (λ right more. and_then (or_rest n more) (λ rights end. inr (cons right rights, end)))
    | false ↦ inr (nil, tokens)
  ]

  pub parse_and : ℕ → List Token → Parsed Expr
  parse_and zero tokens = inl out_of_fuel
  parse_and (suc n) tokens = and_then (parse_atom n tokens) (λ left more.
      elim (is_and (peek more)) [
        | true ↦ and_then (and_rest n more) (λ rights end. inr (conj (cons left rights), end))
        | false ↦ inr (left, more)
      ])

  pub and_rest : ℕ → List Token → Parsed Exprs
  and_rest zero tokens = inl out_of_fuel
  and_rest (suc n) tokens = elim (is_and (peek tokens)) [
    | true ↦
        and_then (parse_atom n (next tokens))
          (λ right more. and_then (and_rest n more) (λ rights end. inr (cons right rights, end)))
    | false ↦ inr (nil, tokens)
  ]

  pub parse_atom : ℕ → List Token → Parsed Expr
  parse_atom zero tokens = inl out_of_fuel
  parse_atom (suc n) tokens = elim (peek tokens) [
    | ident name ↦ inr (leaf name, next tokens)
    | reference name ↦ inr (ref name, next tokens)
    | lparen ↦ and_then (parse_or n (next tokens)) close
    | t ↦ inl (unexpected_token t)
  ]

-- Three calls lie between two tokens.
abbrev pub enough : List Token → ℕ
enough tokens = 3 * length tokens + 3

-- The check that nothing is left.
abbrev pub finish : Parsed Expr → SyntaxError ⊎ Expr
finish (inl e) = inl e
finish (inr (root, tokens)) =
    if is_eof (peek tokens) then inr root else inl (trailing_token (peek tokens))

unfoldable pub parse_tokens : List Token → SyntaxError ⊎ Expr
unfolding parse_or
parse_tokens tokens = finish (parse_or (enough tokens) tokens)

module _ (cls : Classes) where
  unfoldable pub parse_dsl : String → SyntaxError ⊎ Expr
  unfolding tokenize parse_tokens trim_left trim_right
  parse_dsl input =
      let text = trim_right cls (trim_left cls input) in
      if eqb (count text) 0
      then inl empty
      else elim (tokenize cls text) [ inl e ↦ inl e | inr tokens ↦ parse_tokens tokens ]
