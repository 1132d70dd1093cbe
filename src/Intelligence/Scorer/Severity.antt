-- ===== src/Intelligence/Scorer/Severity.antt =====
-- The unhealthy nodes are those below the threshold, the lowest score first.
use self_healing_kubernetes.Base.{
  ◌+◌, ◌≡◌, refl, ap, ◌∙◌, inl, inr, String, Bool, true, false, List, [], ◌∷◌, arith, reverse, keep,
  tally, tally-append, Bool-cases, Keyed, Time,
}
use mathlib.Core.List.{reverse-cons, reverse-reverse}
use self_healing_kubernetes.Analyzer.Window.{Floats}
use self_healing_kubernetes.Intelligence.Scorer.{
  NodeStats, NodeScore, all_scores, below, sink, sort_from, unhealthy_nodes,
}

module _ (floats : Floats) where
  -- No element is below the next one.
  abbrev pub Falling : List (NodeScore floats) → Type 0
  Falling [] = Unit
  Falling (x ∷ []) = Unit
  Falling (x ∷ y ∷ ys) = (below floats x y ≡ false) × Falling (y ∷ ys)

  -- `<` on `float64` never holds both ways.
  abbrev pub IsAsymmetric : Type 0
  IsAsymmetric = (x y : floats.Float) → floats.greater x y ≡ true → floats.greater y x ≡ false

  sink-Falling :
      (asym : IsAsymmetric) (x : NodeScore floats) (ys : List (NodeScore floats))
      → Falling ys
      → Falling (sink floats x ys)
  unfolding sink
  sink-Falling asym x [] f = tt
  sink-Falling asym x (y ∷ []) f = elim (Bool-cases (below floats x y)) [
    | inl lower ↦ rw lower (asym y.score x.score lower, tt)
    | inr higher ↦ rw higher (higher, tt)
  ]
  sink-Falling asym x (y ∷ z ∷ zs) f =
      let rest = sink-Falling asym x (z ∷ zs) f.1 in
      elim (Bool-cases (below floats x y)) [
        | inr higher ↦ rw higher (higher, f)
        | inl lower ↦ elim (Bool-cases (below floats x z)) [
          | inl lowest ↦ rw (lower, lowest) (f.0, rw lowest at rest)
          | inr between ↦ rw (lower, between) (asym y.score x.score lower, (between, f.1))
        ]
      ]

  sort_from-Falling :
      (asym : IsAsymmetric) (sorted rest : List (NodeScore floats))
      → Falling sorted
      → Falling (sort_from floats sorted rest)
  unfolding sort_from
  sort_from-Falling asym sorted [] f = f
  sort_from-Falling asym sorted (x ∷ rest) f =
      sort_from-Falling asym (sink floats x sorted) rest (sink-Falling asym x sorted f)

  tally-sink :
      (p : NodeScore floats → Bool) (x : NodeScore floats) (ys : List (NodeScore floats))
      → tally p (sink floats x ys) ≡ tally p (x ∷ ys)
  unfolding sink
  tally-sink p x [] = refl
  tally-sink p x (y ∷ ys) = ground (arith, tally-sink p x ys)

  tally-sort_from :
      (p : NodeScore floats → Bool) (sorted rest : List (NodeScore floats))
      → tally p (sort_from floats sorted rest) ≡ tally p sorted + tally p rest
  unfolding sort_from
  tally-sort_from p sorted [] = omega arith
  tally-sort_from p sorted (x ∷ rest) =
      omega (arith, tally-sort_from p (sink floats x sorted) rest, tally-sink p x sorted)

  tally-reverse :
      (p : NodeScore floats → Bool) (xs : List (NodeScore floats))
      → tally p (reverse xs) ≡ tally p xs
  tally-reverse p [] = refl
  tally-reverse p (x ∷ xs) =
      ap (tally p) (reverse-cons x xs)
      ∙ omega (arith, tally-append p (reverse xs) (x ∷ []), tally-reverse p xs)

  -- Where `<` never holds both ways, the unhealthy nodes are just the scores below the threshold, as
  -- often as they occur, and no score is below the one that stands before it.
  unhealthy_nodes-Falling :
      (asym : IsAsymmetric) (threshold : floats.Float) (now : Time) (stats : Keyed String NodeStats)
      (p : NodeScore floats → Bool)
      → Falling (reverse (unhealthy_nodes floats threshold now stats))
        × (tally p (unhealthy_nodes floats threshold now stats)
            ≡ tally p
                (keep (λ ns. floats.greater threshold ns.score) (all_scores floats now stats)))
  unfolding unhealthy_nodes
  unhealthy_nodes-Falling asym threshold now stats p =
      let chosen = keep (λ ns. floats.greater threshold ns.score) (all_scores floats now stats) in
      (
        rw (reverse-reverse (sort_from floats [] chosen)) (sort_from-Falling asym [] chosen tt),
        tally-reverse p (sort_from floats [] chosen) ∙ omega (arith, tally-sort_from p [] chosen),
      )
