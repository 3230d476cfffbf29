-- ===== src/Matrix/Node.antt =====
-- internal/matrix: a linked expression (`node` of dsl.go, with `ref` set), and what it means.
use llemon_swap.Base.{String, List, [], ◌∷◌, ◌++◌}

-- A reference holds the expression that it is linked to. The pointers of the program form a graph
-- with no cycle, and a tree here: what is shared there is written out.
mutual
  pub data Node : Type 0 where
    leaf : String → Node
    ref : String → Node → Node
    conj disj : Nodes → Node

  pub data Nodes : Type 0 where
    nil : Nodes
    cons : Node → Nodes → Nodes

-- The model sets that an expression describes (doc.go): a leaf contributes one model, OR selects an
-- alternative, and AND takes the union of one set from each child.
mutual
  pub data Selects : Node → List String → Type 0 where
    one : (m : String) → Selects (leaf m) (m ∷ [])
    via : {n : Node} {xs : List String} (name : String) → Selects n xs → Selects (ref name n) xs
    choice : {ns : Nodes} {xs : List String} → SelectsAny ns xs → Selects (disj ns) xs
    union : {ns : Nodes} {xs : List String} → SelectsAll ns xs → Selects (conj ns) xs

  pub data SelectsAny : Nodes → List String → Type 0 where
    here : {n : Node} {ns : Nodes} {xs : List String} → Selects n xs → SelectsAny (cons n ns) xs
    there :
        {n : Node} {ns : Nodes} {xs : List String} → SelectsAny ns xs → SelectsAny (cons n ns) xs

  pub data SelectsAll : Nodes → List String → Type 0 where
    done : SelectsAll nil []
    both :
        {n : Node} {ns : Nodes} {xs ys : List String}
        → Selects n xs
        → SelectsAll ns ys
        → SelectsAll (cons n ns) (xs ++ ys)
