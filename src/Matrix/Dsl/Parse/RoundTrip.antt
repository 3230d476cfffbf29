-- ===== src/Matrix/Dsl/Parse/RoundTrip.antt =====
-- internal/matrix/dsl.go: an expression that is written out is parsed back.
use llemon_swap.Base.{
  ℕ, zero, suc, ◌+◌, ◌*◌, ◌≤◌, ◌<◌, ◌≡◌, refl, Bool, true, false, List, [], ◌∷◌, inr, arith, length,
}
use llemon_swap.Matrix.Dsl.{
  Token, ident, and, or, lparen, rparen, reference, eof, Expr, Exprs, leaf, ref, conj, disj, nil,
  cons,
}
use llemon_swap.Matrix.Dsl.Parse.{
  Parsed, peek, is_or, is_and, parse_or, or_rest, parse_and, and_rest, parse_atom, enough,
  parse_tokens,
}
use llemon_swap.Matrix.Dsl.Parse.Fuel.{Below, parse_atom-Below, parse_and-Below}

-- The tokens of an expression, before others: an inner AND or OR stands in parentheses.
mutual
  pub atom : Expr → List Token → List Token
  atom (leaf name) more = ident name ∷ more
  atom (ref name) more = reference name ∷ more
  atom (conj es) more = lparen ∷ join and es (rparen ∷ more)
  atom (disj es) more = lparen ∷ join or es (rparen ∷ more)

  pub join : Token → Exprs → List Token → List Token
  join separator nil more = more
  join separator (cons e es) more = atom e (join_rest separator es more)

  pub join_rest : Token → Exprs → List Token → List Token
  join_rest separator nil more = more
  join_rest separator (cons e es) more = separator ∷ atom e (join_rest separator es more)

pub print : Expr → List Token → List Token
print (leaf name) more = ident name ∷ more
print (ref name) more = reference name ∷ more
print (conj es) more = join and es more
print (disj es) more = join or es more

-- An AND or an OR has two operands or more, as the parser makes them.
unfoldable mutual
  pub IsCanonical : Expr → Type 0
  IsCanonical (leaf name) = Unit
  IsCanonical (ref name) = Unit
  IsCanonical (conj es) = AreOperands es
  IsCanonical (disj es) = AreOperands es

  pub AreOperands : Exprs → Type 0
  AreOperands nil = ⊥
  AreOperands (cons e nil) = ⊥
  AreOperands (cons e (cons e' es)) = IsCanonical e × AreCanonical (cons e' es)

  pub AreCanonical : Exprs → Type 0
  AreCanonical nil = Unit
  AreCanonical (cons e es) = IsCanonical e × AreCanonical es

-- What follows an expression: the end, or a closing parenthesis.
abbrev pub Ends : List Token → Type 0
Ends more = (is_and (peek more) ≡ false) × (is_or (peek more) ≡ false)

-- The branch of a loop that ends.
stops :
    {A : Type 0} (b : Bool) (x y : A) → b ≡ false → ◌≡◌ {A = A} (elim b [ true ↦ x | false ↦ y ]) y
stops true x y h = absurd (ground (arith, h))
stops false x y h = refl

shorter :
    {A : Type 0} (tokens more : List Token) (r : Parsed A) (a : A)
    → Below (length tokens) r
    → r ≡ inr (a, more)
    → length more < length tokens
shorter tokens more r a h e = rw e at h

join_rest-no_and :
    (es : Exprs) (more : List Token) → Ends more → is_and (peek (join_rest or es more)) ≡ false
unfolding join_rest
join_rest-no_and nil more k = k.0
join_rest-no_and (cons e es) more k = refl

mutual
  unfolding parse_or or_rest parse_and and_rest parse_atom atom join join_rest IsCanonical
      AreOperands AreCanonical

  parse_atom-atom :
      (n : ℕ) (e : Expr) (more : List Token)
      → 3 * length (atom e more) + 1 ≤ n
      → IsCanonical e
      → parse_atom n (atom e more) ≡ inr (e, more)
  parse_atom-atom zero e more h c = absurd (omega arith)
  parse_atom-atom (suc n) (leaf name) more h c = refl
  parse_atom-atom (suc n) (ref name) more h c = refl
  parse_atom-atom (suc n) (conj (cons e (cons e' es))) more h c =
      rw (parse_or-conj n e e' es (rparen ∷ more) (omega arith) c.0 c.1 (refl, refl)) refl
  parse_atom-atom (suc n) (disj (cons e (cons e' es))) more h c =
      rw (parse_or-disj n e e' es (rparen ∷ more) (omega arith) c.0 c.1 (refl, refl)) refl
  parse_atom-atom (suc n) (conj nil) more h c = absurd c
  parse_atom-atom (suc n) (conj (cons e nil)) more h c = absurd c
  parse_atom-atom (suc n) (disj nil) more h c = absurd c
  parse_atom-atom (suc n) (disj (cons e nil)) more h c = absurd c

  parse_and-atom :
      (n : ℕ) (e : Expr) (more : List Token)
      → 3 * length (atom e more) + 2 ≤ n
      → IsCanonical e
      → is_and (peek more) ≡ false
      → parse_and n (atom e more) ≡ inr (e, more)
  parse_and-atom zero e more h c k = absurd (omega arith)
  parse_and-atom (suc n) e more h c k =
      rw (parse_atom-atom n e more (omega arith) c) (stops (is_and (peek more)) _ _ k)

  and_rest-join_rest :
      (n : ℕ) (es : Exprs) (more : List Token)
      → 3 * length (join_rest and es more) + 2 ≤ n
      → AreCanonical es
      → is_and (peek more) ≡ false
      → and_rest n (join_rest and es more) ≡ inr (es, more)
  and_rest-join_rest zero es more h c k = absurd (omega arith)
  and_rest-join_rest (suc n) nil more h c k = stops (is_and (peek more)) _ _ k
  and_rest-join_rest (suc n) (cons e es) more h c k =
      let later = join_rest and es more in
      let p = parse_atom-atom n e later (omega arith) c.0 in
      let l =
        shorter (atom e later) later (parse_atom n (atom e later)) e
          (parse_atom-Below n (atom e later) (omega arith)) p in
      rw (p, and_rest-join_rest n es more (omega arith) c.1 k) refl

  or_rest-join_rest :
      (n : ℕ) (es : Exprs) (more : List Token)
      → 3 * length (join_rest or es more) + 3 ≤ n
      → AreCanonical es
      → Ends more
      → or_rest n (join_rest or es more) ≡ inr (es, more)
  or_rest-join_rest zero es more h c k = absurd (omega arith)
  or_rest-join_rest (suc n) nil more h c k = stops (is_or (peek more)) _ _ k.1
  or_rest-join_rest (suc n) (cons e es) more h c k =
      let later = join_rest or es more in
      let p = parse_and-atom n e later (omega arith) c.0 (join_rest-no_and es more k) in
      let l =
        shorter (atom e later) later (parse_and n (atom e later)) e
          (parse_and-Below n (atom e later) (omega arith)) p in
      rw (p, or_rest-join_rest n es more (omega arith) c.1 k) refl

  parse_and-conj :
      (n : ℕ) (e e' : Expr) (es : Exprs) (more : List Token)
      → 3 * length (join and (cons e (cons e' es)) more) + 2 ≤ n
      → IsCanonical e
      → AreCanonical (cons e' es)
      → Ends more
      → parse_and n (join and (cons e (cons e' es)) more) ≡ inr (conj (cons e (cons e' es)), more)
  parse_and-conj zero e e' es more h c cs k = absurd (omega arith)
  parse_and-conj (suc n) e e' es more h c cs k =
      let later = join_rest and (cons e' es) more in
      let p = parse_atom-atom n e later (omega arith) c in
      let l =
        shorter (atom e later) later (parse_atom n (atom e later)) e
          (parse_atom-Below n (atom e later) (omega arith)) p in
      rw (p, and_rest-join_rest n (cons e' es) more (omega arith) cs k.0) refl

  parse_or-conj :
      (n : ℕ) (e e' : Expr) (es : Exprs) (more : List Token)
      → 3 * length (join and (cons e (cons e' es)) more) + 3 ≤ n
      → IsCanonical e
      → AreCanonical (cons e' es)
      → Ends more
      → parse_or n (join and (cons e (cons e' es)) more) ≡ inr (conj (cons e (cons e' es)), more)
  parse_or-conj zero e e' es more h c cs k = absurd (omega arith)
  parse_or-conj (suc n) e e' es more h c cs k =
      rw (parse_and-conj n e e' es more (omega arith) c cs k) (stops (is_or (peek more)) _ _ k.1)

  parse_or-disj :
      (n : ℕ) (e e' : Expr) (es : Exprs) (more : List Token)
      → 3 * length (join or (cons e (cons e' es)) more) + 3 ≤ n
      → IsCanonical e
      → AreCanonical (cons e' es)
      → Ends more
      → parse_or n (join or (cons e (cons e' es)) more) ≡ inr (disj (cons e (cons e' es)), more)
  parse_or-disj zero e e' es more h c cs k = absurd (omega arith)
  parse_or-disj (suc n) e e' es more h c cs k =
      let later = join_rest or (cons e' es) more in
      let p = parse_and-atom n e later (omega arith) c refl in
      let l =
        shorter (atom e later) later (parse_and n (atom e later)) e
          (parse_and-Below n (atom e later) (omega arith)) p in
      rw (p, or_rest-join_rest n (cons e' es) more (omega arith) cs k) refl

parse_or-atom :
    (n : ℕ) (e : Expr) (more : List Token)
    → 3 * length (atom e more) + 3 ≤ n
    → IsCanonical e
    → Ends more
    → parse_or n (atom e more) ≡ inr (e, more)
unfolding parse_or
parse_or-atom zero e more h c k = absurd (omega arith)
parse_or-atom (suc n) e more h c k =
    rw (parse_and-atom n e more (omega arith) c k.0) (stops (is_or (peek more)) _ _ k.1)

parse_or-print :
    (n : ℕ) (e : Expr) (more : List Token)
    → 3 * length (print e more) + 3 ≤ n
    → IsCanonical e
    → Ends more
    → parse_or n (print e more) ≡ inr (e, more)
unfolding print atom IsCanonical
parse_or-print n (leaf name) more h c k = parse_or-atom n (leaf name) more h c k
parse_or-print n (ref name) more h c k = parse_or-atom n (ref name) more h c k
parse_or-print n (conj (cons e (cons e' es))) more h c k = parse_or-conj n e e' es more h c.0 c.1 k
parse_or-print n (disj (cons e (cons e' es))) more h c k = parse_or-disj n e e' es more h c.0 c.1 k
parse_or-print n (conj nil) more h c k = absurd c
parse_or-print n (conj (cons e nil)) more h c k = absurd c
parse_or-print n (disj nil) more h c k = absurd c
parse_or-print n (disj (cons e nil)) more h c k = absurd c

-- The tokens of an expression, each AND and OR of which has two operands or more, parse to that
-- expression.
pub parse_tokens-print : (e : Expr) → IsCanonical e → parse_tokens (print e (eof ∷ [])) ≡ inr e
unfolding parse_tokens
parse_tokens-print e c =
    rw (parse_or-print (enough (print e (eof ∷ []))) e (eof ∷ []) (omega arith) c (refl, refl)) refl
