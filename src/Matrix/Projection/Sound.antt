-- ===== src/Matrix/Projection/Sound.antt =====
-- internal/matrix/program.go: every state that `evaluate` returns is the projection of a selection.
use mathlib.Core.List.{append-nil, append_assoc}
use llemon_swap.Base.{
  ℕ, String, ◌≡◌, refl, ◌∙◌, List, [], ◌∷◌, ◌++◌, arith, length, length-replicate, lookup, All,
  Option-cases, inl, inr,
}
use llemon_swap.Matrix.Mask.{
  has, empty_mask, has-union_mask, has-empty_mask, has-set_bit, length-union_mask, length-set_bit,
}
use llemon_swap.Matrix.Registry.{below-words}
use llemon_swap.Matrix.Node.{
  Node, Nodes, leaf, ref, conj, disj, nil, cons, Selects, SelectsAny, SelectsAll, one, via, choice,
  union, here, there, done, both,
}
use llemon_swap.Matrix.Evaluate.{
  State, Evaluator, merge, leaf_mask, none_selected, add_all, combine, evaluate, evaluate_any,
  evaluate_each,
}
use llemon_swap.Matrix.Frontier.{add_all-All, combine-All}
use llemon_swap.Matrix.Projection.{models, projection, projection-append, IsEvaluator, IsProjection}

module _ (ev : Evaluator) (made : IsEvaluator ev) where
  length-leaf_mask : (m : String) → length (leaf_mask ev m) ≡ ev.words
  unfolding leaf_mask
  length-leaf_mask m = elim (Option-cases (lookup m ev.model_bits)) [
    | inl e ↦ rw (e, leaf_mask) (length-replicate ev.words 0)
    | inr (b, e) ↦
        rw (e, leaf_mask) (length-set_bit (empty_mask ev.words) b ∙ length-replicate ev.words 0)
  ]

  pub has-leaf_mask :
      (m : String) (j : ℕ) → has (leaf_mask ev m) j ≡ projection ev.model_bits (m ∷ []) j
  unfolding leaf_mask
  has-leaf_mask m j = elim (Option-cases (lookup m ev.model_bits)) [
    | inl e ↦ rw (e, leaf_mask) (has-empty_mask ev.words j)
    | inr (b, e) ↦
        rw (e, leaf_mask)
          (ground (
            arith,
            has-set_bit (empty_mask ev.words) b j,
            has-empty_mask ev.words j,
            length-replicate {A = ℕ} ev.words 0,
            below-words ev.model_bits m b made.registry e,
            made.sized,
          ))
  ]

  -- The merge of two selections.
  abbrev pub Merged : (List String → Type 0) → (List String → Type 0) → List String → Type 0
  Merged A B zs = (xs : List String) × (ys : List String) × A xs × B ys × (zs ≡ xs ++ ys)

  pub merge-IsProjection :
      (A B : List String → Type 0) (l r : State)
      → IsProjection ev A l
      → IsProjection ev B r
      → IsProjection ev (Merged A B) (merge l r)
  merge-IsProjection A B l r p q = record {
    sized = length-union_mask l.mask r.mask ∙ p.sized;
    exact = λ j. ground (
      arith,
      has-union_mask l.mask r.mask j,
      p.sized,
      q.sized,
      p.exact j,
      q.exact j,
      projection-append ev.model_bits (models l.witness) (models r.witness) j,
    );
    selected = (models l.witness, models r.witness, p.selected, q.selected, refl);
  }

  pub weaken :
      (A B : List String → Type 0)
      → ((xs : List String) → A xs → B xs)
      → (states : List State) → All (IsProjection ev A) states
      → All (IsProjection ev B) states
  weaken A B f [] h = tt
  weaken A B f (s ∷ states) h = (
    record { sized = h.0.sized; exact = h.0.exact; selected = f (models s.witness) h.0.selected },
    weaken A B f states h.1,
  )

  mutual
    unfolding evaluate evaluate_any evaluate_each

    evaluate_sound :
        (n : Node) (Q : List String → Type 0)
        → ((xs : List String) → Selects n xs → Q xs)
        → All (IsProjection ev Q) (evaluate ev n)
    evaluate_sound (leaf m) Q k = (
      record { sized = length-leaf_mask m; exact = has-leaf_mask m; selected = k (m ∷ []) (one m) },
      tt,
    )
    evaluate_sound (ref name n) Q k = evaluate_sound n Q (λ xs h. k xs (via name h))
    evaluate_sound (disj ns) Q k = evaluate_any_sound ns Q [] tt (λ xs h. k xs (choice h))
    evaluate_sound (conj ns) Q k =
        evaluate_each_sound ns (λ xs. xs ≡ []) Q (none_selected ev ∷ [])
          (
            record {
              sized = length-replicate ev.words 0;
              exact = λ j. has-empty_mask ev.words j;
              selected = refl;
            },
            tt,
          )
          (λ xs ys e h. rw e (k ys (union h)))

    evaluate_any_sound :
        (ns : Nodes) (Q : List String → Type 0) (states : List State)
        → All (IsProjection ev Q) states
        → ((xs : List String) → SelectsAny ns xs → Q xs)
        → All (IsProjection ev Q) (evaluate_any ev ns states)
    evaluate_any_sound nil Q states h k = h
    evaluate_any_sound (cons n ns) Q states h k =
        evaluate_any_sound ns Q (add_all states (evaluate ev n))
          (add_all-All (IsProjection ev Q) states (evaluate ev n) h
            (evaluate_sound n Q (λ xs s. k xs (here s))))
          (λ xs s. k xs (there s))

    evaluate_each_sound :
        (ns : Nodes) (A Q : List String → Type 0) (states : List State)
        → All (IsProjection ev A) states
        → ((xs ys : List String) → A xs → SelectsAll ns ys → Q (xs ++ ys))
        → All (IsProjection ev Q) (evaluate_each ev ns states)
    evaluate_each_sound nil A Q states h k =
        weaken A Q (λ xs a. rw append-nil at (k xs [] a done)) states h
    evaluate_each_sound (cons n ns) A Q states h k =
        evaluate_each_sound ns (Merged A (Selects n)) Q (combine states (evaluate ev n) [])
          (combine-All (IsProjection ev (Merged A (Selects n))) (IsProjection ev A)
            (IsProjection ev (Selects n)) (merge-IsProjection A (Selects n)) states (evaluate ev n)
            [] h (evaluate_sound n (Selects n) (λ xs s. s)) tt)
          (λ zs ws (xs, ys, a, b, e) s. rw (e, append_assoc) (k xs (ys ++ ws) a (both b s)))

  -- Every state is the projection of a selection: its witness names a model set that the expression
  -- describes, and its mask holds just the relevant models of that set.
  pub evaluate-IsProjection : (n : Node) → All (IsProjection ev (Selects n)) (evaluate ev n)
  evaluate-IsProjection n = evaluate_sound n (Selects n) (λ xs s. s)
