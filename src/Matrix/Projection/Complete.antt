-- ===== src/Matrix/Projection/Complete.antt =====
-- internal/matrix/program.go: every selection is covered by a state that `evaluate` returns, so the
-- frontier drops no choice that a query needs.
use mathlib.Core.List.{append-nil, append_assoc}
use llemon_swap.Base.{
  length-replicate, String, ◌≡◌, ◌∙◌, true, List, [], ◌∷◌, ◌++◌, arith, length, All, Any,
  Bool-cases, inl, inr,
}
use llemon_swap.Matrix.Mask.{has-empty_mask, BitMask, subset_of, has-subset_of, has-union_mask}
use llemon_swap.Matrix.Node.{
  Node, Nodes, nil, cons, Selects, SelectsAny, SelectsAll, one, via, choice, union, here, there,
  done, both,
}
use llemon_swap.Matrix.Evaluate.{
  State, Evaluator, merge, none_selected, add_all, combine, evaluate, evaluate_any, evaluate_each,
}
use llemon_swap.Matrix.Frontier.{OfMask, add_all-keeps, add_all-new, combine-new, combine-All}
use llemon_swap.Matrix.Projection.{projection, projection-append, IsEvaluator, IsProjection, Covers}
use llemon_swap.Matrix.Projection.Sound.{
  evaluate-IsProjection, weaken, merge-IsProjection, has-leaf_mask, Merged,
}

module _ (ev : Evaluator) (made : IsEvaluator ev) where
  Covers-subset_of :
      (xs : List String) (m o : BitMask)
      → subset_of m o ≡ true
      → Covers ev.model_bits xs m
      → Covers ev.model_bits xs o
  Covers-subset_of xs m o h c j k = has-subset_of m o j h (c j k)

  -- A state of the query's size that covers the models.
  record IsCover (xs : List String) (s : State) : Type 0 where
    sized : length s.mask ≡ ev.words
    covers : Covers ev.model_bits xs s.mask

  cover-merge :
      (xs ys : List String) (l r : State)
      → IsCover xs l
      → IsCover ys r
      → Covers ev.model_bits (xs ++ ys) (merge l r).mask
  cover-merge xs ys l r p q j h = ground (
    arith,
    has-union_mask l.mask r.mask j,
    p.sized,
    q.sized,
    p.covers j,
    q.covers j,
    projection-append ev.model_bits xs ys j,
    Bool-cases (projection ev.model_bits xs j),
  )

  IsCover-All :
      (Q : List String → Type 0) (xs : List String) (states : List State)
      → All (IsProjection ev Q) states
      → Any (OfMask (Covers ev.model_bits xs)) states
      → Any (IsCover xs) states
  IsCover-All Q xs [] h k = absurd k
  IsCover-All Q xs (s ∷ states) h (inl c) = inl (record { sized = h.0.sized; covers = c })
  IsCover-All Q xs (s ∷ states) h (inr k) = inr (IsCover-All Q xs states h.1 k)

  evaluate_any-keeps :
      (xs : List String) (ns : Nodes) (states : List State)
      → Any (OfMask (Covers ev.model_bits xs)) states
      → Any (OfMask (Covers ev.model_bits xs)) (evaluate_any ev ns states)
  unfolding evaluate_any
  evaluate_any-keeps xs nil states h = h
  evaluate_any-keeps xs (cons n ns) states h =
      evaluate_any-keeps xs ns (add_all states (evaluate ev n))
        (add_all-keeps (Covers ev.model_bits xs) (Covers-subset_of xs) states (evaluate ev n) h)

  -- Any states of the query's size.
  abbrev AllSized : List State → Type 0
  AllSized = All (IsProjection ev (λ xs. Unit))

  start_sized : IsProjection ev (λ _. Unit) (none_selected ev)
  start_sized = record {
    sized = length-replicate ev.words 0;
    exact = λ j. has-empty_mask ev.words j;
    selected = tt;
  }

  combined_sized :
      (n : Node) (states : List State)
      → AllSized states
      → AllSized (combine states (evaluate ev n) [])
  combined_sized n states h =
      weaken ev made (Merged ev made (λ _. Unit) (Selects n)) (λ _. Unit) (λ xs _. tt)
        (combine states (evaluate ev n) [])
        (combine-All (IsProjection ev (Merged ev made (λ _. Unit) (Selects n)))
          (IsProjection ev (λ _. Unit)) (IsProjection ev (Selects n))
          (merge-IsProjection ev made (λ _. Unit) (Selects n)) states (evaluate ev n) [] h
          (evaluate-IsProjection ev made n) tt)

  mutual
    unfolding evaluate evaluate_any evaluate_each

    covered :
        {n : Node} {xs : List String}
        → Selects n xs
        → Any (OfMask (Covers ev.model_bits xs)) (evaluate ev n)
    covered (one m) = inl (λ j h. has-leaf_mask ev made m j ∙ h)
    covered (via name s) = covered s
    covered (choice s) = covered-Any s []
    covered (union s) =
        covered_each s [] (none_selected ev ∷ []) (start_sized, tt) (inl (λ j h. cc))

    covered-Any :
        {ns : Nodes} {xs : List String}
        → SelectsAny ns xs
        → (states : List State) → Any (OfMask (Covers ev.model_bits xs)) (evaluate_any ev ns states)
    covered-Any {xs} (here {n} {ns} s) states =
        evaluate_any-keeps xs ns (add_all states (evaluate ev n)) (
          add_all-new (Covers ev.model_bits xs) (Covers-subset_of xs) states (evaluate ev n)
            (covered s))
    covered-Any (there {n} s) states = covered-Any s (add_all states (evaluate ev n))

    covered_each :
        {ns : Nodes} {ys : List String}
        → SelectsAll ns ys
        → (xs : List String) (states : List State) → AllSized states
        → Any (OfMask (Covers ev.model_bits xs)) states
        → Any (OfMask (Covers ev.model_bits (xs ++ ys))) (evaluate_each ev ns states)
    covered_each done xs states h k = rw append-nil k
    covered_each (both {n} {ns} {xs = zs} {ys = ws} s t) xs states h k = rw (← append_assoc) (
        covered_each t (xs ++ zs) (combine states (evaluate ev n) []) (combined_sized n states h) (
          combine-new (Covers ev.model_bits (xs ++ zs)) (Covers-subset_of (xs ++ zs)) (IsCover xs)
            (IsCover zs) (cover-merge xs zs) states (evaluate ev n) []
            (IsCover-All (λ _. Unit) xs states h k)
            (IsCover-All (Selects n) zs (evaluate ev n) (evaluate-IsProjection ev made n)
              (covered s))))

  -- Whatever the expression allows, one of the states holds all its relevant models.
  pub evaluate-Covers :
      {n : Node} {xs : List String}
      → Selects n xs
      → Any (OfMask (Covers ev.model_bits xs)) (evaluate ev n)
  evaluate-Covers s = covered s
