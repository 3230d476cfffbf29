-- ===== src/Matrix/Dsl.antt =====
-- internal/matrix/dsl.go: the tokens and the syntax of an expression.
pub mod Lex
pub mod Parse
pub mod Tests
use Prim.Native.Char.{Char}
use llemon_swap.Base.{ℕ, String, List}

pub data Token : Type 0 where
  ident : String → Token
  and or lparen rparen : Token
  reference : String → Token
  eof : Token

-- A parsed expression, whose references are not linked yet.
mutual
  pub data Expr : Type 0 where
    leaf : String → Expr
    ref : String → Expr
    conj disj : Exprs → Expr

  pub data Exprs : Type 0 where
    nil : Exprs
    cons : Expr → Exprs → Exprs

-- The errors of parseDSL, and one that Parse.Fuel shows not to occur.
pub data SyntaxError : Type 0 where
  empty : SyntaxError
  expected_name : ℕ → SyntaxError
  unexpected_character : Char → ℕ → SyntaxError
  unexpected_token : Token → SyntaxError
  missing_parenthesis : SyntaxError
  trailing_token : Token → SyntaxError
  out_of_fuel : SyntaxError
