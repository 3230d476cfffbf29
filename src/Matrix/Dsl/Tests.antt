-- ===== src/Matrix/Dsl/Tests.antt =====
-- internal/matrix/dsl.go: runs of the parser at concrete inputs, and instances of its theorems.
use llemon_swap.Base.{◌≡◌, ◌≢◌, refl, false, List, [], ◌∷◌, ◌++◌, inl, inr}
use llemon_swap.Matrix.Dsl.{
  Token, ident, and, reference, eof, Expr, leaf, ref, conj, disj, nil, cons, out_of_fuel,
  expected_name, missing_parenthesis,
}
use llemon_swap.Matrix.Dsl.Lex.{Classes, tokenize}
use llemon_swap.Matrix.Dsl.Lex.Spell.{AreSpelled, spell, tokenize-spell}
use llemon_swap.Matrix.Dsl.Parse.{parse_tokens, parse_dsl}
use llemon_swap.Matrix.Dsl.Parse.Fuel.{parse_dsl-fuel}
use llemon_swap.Matrix.Dsl.Parse.RoundTrip.{print, IsCanonical, parse_tokens-print}

-- No wide character is of any class.
abbrev ascii : Classes
ascii = record { wide_space = λ n. false; wide_letter = λ n. false; wide_digit = λ n. false }

abbrev demo_expr : Expr
demo_expr = conj (cons (disj (cons (leaf "a") (cons (leaf "b") nil))) (cons (ref "base") nil))

demo_parse : parse_dsl ascii " (a | b) & +base" ≡ inr demo_expr
unfolding parse_dsl
demo_parse = refl

demo_no_name : parse_dsl ascii "a & +" ≡ inl (expected_name 5)
unfolding parse_dsl
demo_no_name = refl

demo_open : parse_dsl ascii "(a" ≡ inl missing_parenthesis
unfolding parse_dsl
demo_open = refl

parse_dsl-fuel_example : parse_dsl ascii "a & (b" ≢ inl out_of_fuel
parse_dsl-fuel_example = parse_dsl-fuel ascii "a & (b"

parse_tokens-print_example : parse_tokens (print demo_expr (eof ∷ [])) ≡ inr demo_expr
unfolding IsCanonical
parse_tokens-print_example = parse_tokens-print demo_expr ((tt, (tt, tt)), (tt, tt))

abbrev demo_tokens : List Token
demo_tokens = ident "a1" ∷ and ∷ reference "b" ∷ []

demo_spelled : AreSpelled ascii demo_tokens
unfolding AreSpelled parse_dsl
demo_spelled = ((refl, refl, (refl, refl, tt)), (tt, ((refl, refl, tt), tt)))

tokenize-spell_example : tokenize ascii (spell demo_tokens) ≡ inr (demo_tokens ++ eof ∷ [])
tokenize-spell_example = tokenize-spell ascii demo_tokens demo_spelled
