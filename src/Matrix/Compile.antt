-- ===== src/Matrix/Compile.antt =====
-- internal/matrix/program.go: Compile, which resolves, orders and links the parsed definitions.
pub mod Order
pub mod Cycles
pub mod Fuel
pub mod Tests
use llemon_swap.Base.{
  ℕ, zero, suc, ◌+◌, String, ◌≡◌, Bool, true, false, Option, none, some, List, [], ◌∷◌, ◌++◌, ◌⊎◌,
  inl, inr, length, lookup, insert, contains, is_empty, if◌then◌else◌,
}
use llemon_swap.Matrix.Dsl.{Expr, Exprs, SyntaxError}
use llemon_swap.Matrix.Dsl.Lex.{Classes}
use llemon_swap.Matrix.Dsl.Parse.{parse_dsl}
use llemon_swap.Matrix.Node.{Node, Nodes}
use llemon_swap.Matrix.Program.{CompiledSet, Program, new_program}

pub record Definition : Type 0 where
  pub name : String
  pub dsl : String

abbrev pub Resolver : Type 0
Resolver = String → Option String

-- `unlinked` and `out_of_fuel` stand for a missing pointer and for an order that is not finished.
pub data CompileError : Type 0 where
  no_sets : CompileError
  bad_dsl : String → SyntaxError → CompileError
  unknown_model undefined_set : String → String → CompileError
  circular : String → CompileError
  unlinked : String → CompileError
  out_of_fuel : CompileError

abbrev pub bind : {A B : Type 0} → CompileError ⊎ A → (A → CompileError ⊎ B) → CompileError ⊎ B
bind (inl e) f = inl e
bind (inr a) f = f a

-- The first walk over a set's expression: models for identifiers, and the references, each once.
module _ (set : String) (names : List String) (resolve : Resolver) where
  unfoldable mutual
    unfolding contains

    pub resolve_expr : Expr → List String → CompileError ⊎ (Expr × List String)
    resolve_expr (Expr.leaf name) refs = elim (resolve name) [
      | none ↦ inl (unknown_model set name)
      | some m ↦ inr (Expr.leaf m, refs)
    ]
    resolve_expr (Expr.ref name) refs =
        if contains names name
        then inr (Expr.ref name, (if contains refs name then refs else refs ++ name ∷ []))
        else inl (undefined_set set name)
    resolve_expr (Expr.conj es) refs =
        bind (resolve_each es refs) (λ (es', refs'). inr (Expr.conj es', refs'))
    resolve_expr (Expr.disj es) refs =
        bind (resolve_each es refs) (λ (es', refs'). inr (Expr.disj es', refs'))

    pub resolve_each : Exprs → List String → CompileError ⊎ (Exprs × List String)
    resolve_each Exprs.nil refs = inr (Exprs.nil, refs)
    resolve_each (Exprs.cons e es) refs = bind (resolve_expr e refs) (λ (e', refs').
        bind (resolve_each es refs') (λ (es', refs''). inr (Exprs.cons e' es', refs'')))

-- A definition that was read: its text, its expression and the sets it refers to.
pub record Source : Type 0 where
  pub dsl : String
  pub root : Expr
  pub deps : List String

abbrev pub set_names : List Definition → List String
set_names [] = []
set_names (d ∷ definitions) = d.name ∷ set_names definitions

abbrev pub parsed_or_error : String → SyntaxError ⊎ Expr → CompileError ⊎ Expr
parsed_or_error set (inl e) = inl (bad_dsl set e)
parsed_or_error set (inr root) = inr root

-- The loop that reads the definitions; a later one of the same name replaces an earlier one.
unfoldable pub read_sources :
    Classes
    → List String
    → Resolver
    → List Definition
    → List (String × Source)
    → CompileError ⊎ List (String × Source)
unfolding parse_dsl resolve_expr insert
read_sources cls names resolve [] sources = inr sources
read_sources cls names resolve (d ∷ definitions) sources =
    bind (parsed_or_error d.name (parse_dsl cls d.dsl)) (λ parsed.
      bind (resolve_expr d.name names resolve parsed []) (λ (root, refs).
        read_sources cls names resolve definitions
          (insert d.name (record { dsl = d.dsl; root = root; deps = refs }) sources)))

pub data Mark : Type 0 where
  visiting finished : Mark

abbrev pub Walk : Type 0
Walk = List (String × Mark) × List String

-- A loop of visits.
abbrev pub visit_each :
    (String → Walk → CompileError ⊎ Walk) → List String → Walk → CompileError ⊎ Walk
visit_each visit [] o = inr o
visit_each visit (name ∷ names) o = bind (visit name o) (visit_each visit names)

module _ (deps_of : String → List String) where
  -- The closure `visit` of topologicalOrder, on fuel.
  unfoldable pub visit_set : ℕ → String → Walk → CompileError ⊎ Walk
  unfolding lookup insert
  visit_set zero name o = inl out_of_fuel
  visit_set (suc n) name (marks, order) = elim (lookup name marks) [
    | some visiting ↦ inl (circular name)
    | some finished ↦ inr (marks, order)
    | none ↦
        bind (visit_each (visit_set n) (deps_of name) (insert name visiting marks, order))
          (λ (marks', order'). inr (insert name finished marks', order' ++ name ∷ []))
  ]

  -- A visit of a finished set does nothing, so the test of the loop is that of `visit`. One level
  -- more than there are sets finds every cycle.
  unfoldable pub topological_order : List String → CompileError ⊎ List String
  unfolding visit_set
  topological_order names =
      bind (visit_each (visit_set (suc (length names))) names ([], []))
        (λ (marks, order). inr order)

-- The linked form of an expression, given the linked sets before it in the order.
unfoldable mutual
  unfolding lookup

  pub link : List (String × Node) → Expr → CompileError ⊎ Node
  link linked (Expr.leaf m) = inr (Node.leaf m)
  link linked (Expr.ref name) = elim (lookup name linked) [
    | none ↦ inl (unlinked name)
    | some n ↦ inr (Node.ref name n)
  ]
  link linked (Expr.conj es) = bind (link_each linked es) (λ ns. inr (Node.conj ns))
  link linked (Expr.disj es) = bind (link_each linked es) (λ ns. inr (Node.disj ns))

  pub link_each : List (String × Node) → Exprs → CompileError ⊎ Nodes
  link_each linked Exprs.nil = inr Nodes.nil
  link_each linked (Exprs.cons e es) =
      bind (link linked e) (λ n. bind (link_each linked es) (λ ns. inr (Nodes.cons n ns)))

-- The sets in order.
unfoldable pub link_sets :
    List (String × Source) → List String → List (String × Node) → CompileError ⊎ List CompiledSet
unfolding link lookup
link_sets sources [] linked = inr []
link_sets sources (name ∷ order) linked = elim (lookup name sources) [
  | none ↦ inl (unlinked name)
  | some source ↦ bind (link linked source.root) (λ root.
      bind (link_sets sources order ((name, root) ∷ linked))
        (λ sets. inr (record { name = name; dsl = source.dsl; root = root } ∷ sets)))
]

abbrev pub deps_in : List (String × Source) → String → List String
deps_in sources name = elim (lookup name sources) [ none ↦ [] | some source ↦ source.deps ]

unfoldable pub compile : Classes → List Definition → Resolver → CompileError ⊎ Program
unfolding read_sources topological_order link_sets new_program lookup
compile cls definitions resolve =
    let names = set_names definitions in
    if is_empty definitions
    then inl no_sets
    else (bind (read_sources cls names resolve definitions []) (λ sources.
        bind (topological_order (deps_in sources) names)
          (λ order. bind (link_sets sources order []) (λ sets. inr (new_program sets)))))
