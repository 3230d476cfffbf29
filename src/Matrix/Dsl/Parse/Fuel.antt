-- ===== src/Matrix/Dsl/Parse/Fuel.antt =====
-- internal/matrix/dsl.go: the parser takes tokens from the front, so the fuel lasts.
use Prim.Native.Char.{Char}
use Prim.Native.String.{count}
use llemon_swap.Base.{
  String, eqb, Option, ℕ, zero, suc, ◌+◌, ◌*◌, ◌≤◌, ◌<◌, ◌≡◌, ◌≢◌, refl, Bool, true, false, List,
  [], ◌∷◌, ◌⊎◌, inl, inr, arith, length, Bool-cases, if◌then◌else◌,
}
use llemon_swap.Matrix.Dsl.{
  Token, ident, and, or, lparen, rparen, reference, eof, Expr, SyntaxError, empty, trailing_token,
  out_of_fuel,
}
use llemon_swap.Matrix.Dsl.Parse.{
  Parsed, and_then, peek, next, is_or, is_and, is_rparen, is_eof, close, parse_or, or_rest,
  parse_and, and_rest, parse_atom, enough, finish, parse_tokens, parse_dsl,
}
use llemon_swap.Matrix.Dsl.Lex.{Classes, lex_at, lex, tokenize, with_token, trim_left, trim_right}

abbrev is_fuel : SyntaxError → Bool
is_fuel out_of_fuel = true
is_fuel _ = false

-- Another error than of fuel, or fewer than `bound` tokens left.
abbrev pub Below : {A : Type 0} → ℕ → Parsed A → Type 0
Below bound (inl e) = is_fuel e ≡ false
Below bound (inr (a, tokens)) = length tokens < bound

and_then-Below :
    {A B : Type 0} (k k' : ℕ) (r : Parsed A) (f : A → List Token → Parsed B)
    → Below k r
    → ((a : A) (tokens : List Token) → length tokens < k → Below k' (f a tokens))
    → Below k' (and_then r f)
and_then-Below k k' (inl e) f h g = h
and_then-Below k k' (inr (a, tokens)) f h g = g a tokens h

-- A token that is not the end is taken.
length-next :
    (tokens : List Token)
    → is_eof (peek tokens) ≡ false
    → suc (length (next tokens)) ≡ length tokens
length-next [] h = cc
length-next (ident s ∷ tokens) h = refl
length-next (and ∷ tokens) h = refl
length-next (or ∷ tokens) h = refl
length-next (lparen ∷ tokens) h = refl
length-next (rparen ∷ tokens) h = refl
length-next (reference s ∷ tokens) h = refl
length-next (eof ∷ tokens) h = cc

or-eof : (t : Token) → is_or t ≡ true → is_eof t ≡ false
or-eof (ident s) h = refl
or-eof and h = refl
or-eof or h = refl
or-eof lparen h = refl
or-eof rparen h = refl
or-eof (reference s) h = refl
or-eof eof h = cc

and-eof : (t : Token) → is_and t ≡ true → is_eof t ≡ false
and-eof (ident s) h = refl
and-eof and h = refl
and-eof or h = refl
and-eof lparen h = refl
and-eof rparen h = refl
and-eof (reference s) h = refl
and-eof eof h = cc

rparen-eof : (t : Token) → is_rparen t ≡ true → is_eof t ≡ false
rparen-eof (ident s) h = refl
rparen-eof and h = refl
rparen-eof or h = refl
rparen-eof lparen h = refl
rparen-eof rparen h = refl
rparen-eof (reference s) h = refl
rparen-eof eof h = cc

close-Below :
    (k : ℕ) (root : Expr) (tokens : List Token) → length tokens < k → Below k (close root tokens)
close-Below k root tokens h = elim (Bool-cases (is_rparen (peek tokens))) [
  | inl e ↦ rw e (omega (arith, length-next tokens (rparen-eof (peek tokens) e)))
  | inr e ↦ rw e refl
]

mutual
  unfolding parse_or or_rest parse_and and_rest parse_atom

  pub parse_or-Below :
      (n : ℕ) (tokens : List Token)
      → 3 * length tokens + 3 ≤ n
      → Below (length tokens) (parse_or n tokens)
  parse_or-Below zero tokens h = absurd (omega arith)
  parse_or-Below (suc n) tokens h =
      and_then-Below (length tokens) (length tokens) (parse_and n tokens) _
        (parse_and-Below n tokens (omega arith))
        (λ left more k. elim (Bool-cases (is_or (peek more))) [
          | inl e ↦ rw e (
              and_then-Below (suc (length more)) (length tokens) (or_rest n more) _
                (or_rest-Below n more (omega arith)) (λ rights end q. omega arith))
          | inr e ↦ rw e k
        ])

  pub or_rest-Below :
      (n : ℕ) (tokens : List Token)
      → 3 * length tokens + 3 ≤ n
      → Below (suc (length tokens)) (or_rest n tokens)
  or_rest-Below zero tokens h = absurd (omega arith)
  or_rest-Below (suc n) tokens h = elim (Bool-cases (is_or (peek tokens))) [
    | inl e ↦
        rw (e, Below)
          (let l = length-next tokens (or-eof (peek tokens) e) in
            and_then-Below (length (next tokens)) (suc (length tokens)) (parse_and n (next tokens))
              _ (parse_and-Below n (next tokens) (omega arith))
              (λ right more k.
                and_then-Below (suc (length more)) (suc (length tokens)) (or_rest n more) _
                  (or_rest-Below n more (omega arith)) (λ rights end q. omega arith)))
    | inr e ↦ rw (e, Below) (omega arith)
  ]

  pub parse_and-Below :
      (n : ℕ) (tokens : List Token)
      → 3 * length tokens + 2 ≤ n
      → Below (length tokens) (parse_and n tokens)
  parse_and-Below zero tokens h = absurd (omega arith)
  parse_and-Below (suc n) tokens h =
      and_then-Below (length tokens) (length tokens) (parse_atom n tokens) _
        (parse_atom-Below n tokens (omega arith))
        (λ left more k. elim (Bool-cases (is_and (peek more))) [
          | inl e ↦ rw e (
              and_then-Below (suc (length more)) (length tokens) (and_rest n more) _
                (and_rest-Below n more (omega arith)) (λ rights end q. omega arith))
          | inr e ↦ rw e k
        ])

  pub and_rest-Below :
      (n : ℕ) (tokens : List Token)
      → 3 * length tokens + 2 ≤ n
      → Below (suc (length tokens)) (and_rest n tokens)
  and_rest-Below zero tokens h = absurd (omega arith)
  and_rest-Below (suc n) tokens h = elim (Bool-cases (is_and (peek tokens))) [
    | inl e ↦
        rw (e, Below)
          (let l = length-next tokens (and-eof (peek tokens) e) in
            and_then-Below (length (next tokens)) (suc (length tokens)) (parse_atom n (next tokens))
              _ (parse_atom-Below n (next tokens) (omega arith))
              (λ right more k.
                and_then-Below (suc (length more)) (suc (length tokens)) (and_rest n more) _
                  (and_rest-Below n more (omega arith)) (λ rights end q. omega arith)))
    | inr e ↦ rw (e, Below) (omega arith)
  ]

  pub parse_atom-Below :
      (n : ℕ) (tokens : List Token)
      → 3 * length tokens + 1 ≤ n
      → Below (length tokens) (parse_atom n tokens)
  parse_atom-Below zero tokens h = absurd (omega arith)
  parse_atom-Below (suc n) [] h = refl
  parse_atom-Below (suc n) (ident s ∷ tokens) h = omega arith
  parse_atom-Below (suc n) (and ∷ tokens) h = refl
  parse_atom-Below (suc n) (or ∷ tokens) h = refl
  parse_atom-Below (suc n) (lparen ∷ tokens) h =
      and_then-Below (length tokens) (suc (length tokens)) (parse_or n tokens) close
        (parse_or-Below n tokens (omega arith))
        (λ root more k. close-Below (suc (length tokens)) root more (omega arith))
  parse_atom-Below (suc n) (rparen ∷ tokens) h = refl
  parse_atom-Below (suc n) (reference s ∷ tokens) h = omega arith
  parse_atom-Below (suc n) (eof ∷ tokens) h = refl

-- Any other error than of fuel.
abbrev OwnError : {A : Type 0} → SyntaxError ⊎ A → Type 0
OwnError (inl e) = is_fuel e ≡ false
OwnError (inr a) = Unit

OwnError-if :
    {A : Type 0} (b : Bool) (x y : SyntaxError ⊎ A)
    → OwnError x
    → OwnError y
    → OwnError (if b then x else y)
OwnError-if true x y h k = h
OwnError-if false x y h k = k

finish-OwnError : (k : ℕ) (r : Parsed Expr) → Below k r → OwnError (finish r)
finish-OwnError k (inl e) h = h
finish-OwnError k (inr (root, tokens)) h =
    OwnError-if (is_eof (peek tokens)) (inr root) (inl (trailing_token (peek tokens))) tt refl

parse_tokens-OwnError : (tokens : List Token) → OwnError (parse_tokens tokens)
unfolding parse_tokens
parse_tokens-OwnError tokens =
    finish-OwnError (length tokens) (parse_or (enough tokens) tokens)
      (parse_or-Below (enough tokens) tokens (omega arith))

module _ (cls : Classes) where
  lex_at-OwnError : (pos : ℕ) (c : Char) (s : String) → OwnError (lex_at cls pos c s)
  unfolding lex_at
  lex_at-OwnError pos c s = ground arith

  pushed :
      (t : Option Token) (r : SyntaxError ⊎ List Token)
      → OwnError r
      → OwnError {A = List Token}
          (elim r [ inl e ↦ inl e | inr tokens ↦ inr (with_token cls t tokens) ])
  pushed t (inl e) h = h
  pushed t (inr tokens) h = tt

  lexed :
      (pos : ℕ) (s : String) (r : SyntaxError ⊎ (Option Token × ℕ))
      → OwnError r
      → ((skip : ℕ) → OwnError (lex cls (suc pos) skip s))
      → OwnError {A = List Token} (elim r [
        | inl e ↦ inl e
        | inr (t, skip) ↦ elim (lex cls (suc pos) skip s) [
          | inl e ↦ inl e
          | inr tokens ↦ inr (with_token cls t tokens)
        ]
      ])
  lexed pos s (inl e) h k = h
  lexed pos s (inr (t, skip)) h k = pushed t (lex cls (suc pos) skip s) (k skip)

  lex-OwnError : (pos skip : ℕ) (s : String) → OwnError (lex cls pos skip s)
  unfolding lex
  lex-OwnError pos skip String.[] = tt
  lex-OwnError pos (suc skip) (String.◌∷◌ c s) = lex-OwnError (suc pos) skip s
  lex-OwnError pos zero (String.◌∷◌ c s) =
      lexed pos s (lex_at cls pos c s) (lex_at-OwnError pos c s)
        (λ skip. lex-OwnError (suc pos) skip s)

  parsed :
      (r : SyntaxError ⊎ List Token)
      → OwnError r
      → OwnError {A = Expr} (elim r [ inl e ↦ inl e | inr tokens ↦ parse_tokens tokens ])
  parsed (inl e) h = h
  parsed (inr tokens) h = parse_tokens-OwnError tokens

  not_fuel : (r : SyntaxError ⊎ Expr) → OwnError r → r ≢ inl out_of_fuel
  not_fuel r h e = let k : true ≡ false = rw e at h in cc

  -- parseDSL always ends with an expression or with one of its own errors: the parser never runs out
  -- of fuel.
  pub parse_dsl-fuel : (input : String) → parse_dsl cls input ≢ inl out_of_fuel
  unfolding parse_dsl tokenize
  parse_dsl-fuel input =
      let text = trim_right cls (trim_left cls input) in
      not_fuel (parse_dsl cls input) (
        OwnError-if (eqb (count text) 0) (inl empty) _ refl
          (parsed (tokenize cls text) (lex-OwnError 0 0 text)))
