-- ===== src/Flow/Graph/Walk.antt =====
-- When a walk stops.
use turborg.Base.{
  Bool, Bool-cases, inl, inr, str_eq, List, Str, Option, [], ap, arith, refl, suc, zero, ℕ, ◌++◌,
  ◌+◌, ◌∙◌, ◌∷◌, ◌≡◌, ◌≤◌, ◌⊎◌, leb,
}
use turborg.Base.Map.{Map}
use turborg.Flow.Graph.{
  exceeded, finished, Edge, Flow, Node, Outcome, execute, walk, max_steps, enough, run, entry_nodes,
  index_of,
}

module _ {Config S : Type 0} (kind_known : Str → Bool)
    (handler : Node Config → S → S × Option Str) where
  -- The ceiling is kept, and is reached where it stops the walk; the rounds are never used up.
  abbrev Stops : (S × ℕ) × Outcome → Type 0
  Stops ((last, steps), outcome) =
      (steps ≤ max_steps) × ((outcome ≡ finished) ⊎ ((outcome ≡ exceeded) × (steps ≡ max_steps)))

  walk-Stops :
      (rounds steps : ℕ) (es : List Edge) (index : Map Str (Node Config)) (queue : List Str) (s : S)
      → steps ≤ max_steps
      → enough ≤ rounds + steps
      → Stops (walk kind_known handler rounds steps es index queue s)
  unfolding walk
  walk-Stops rounds steps es index [] s low many = (low, inl refl)
  walk-Stops zero steps es index (id ∷ queue) s low many = absurd (omega arith)
  walk-Stops (suc rounds) steps es index (id ∷ queue) s low many =
      let (s', next) = execute kind_known handler es index id s in
      elim (Bool-cases (leb max_steps steps)) [
        | inl e ↦ rw e (low, inr (refl, ground (arith, e)))
        | inr e ↦ rw e (
            walk-Stops rounds (suc steps) es index (queue ++ next) s' (ground (arith, e))
              (omega (arith, many)))
      ]

  -- More rounds than enough change nothing.
  walk-more :
      (rounds more steps : ℕ) (es : List Edge) (index : Map Str (Node Config)) (queue : List Str)
      (s : S)
      → steps ≤ max_steps
      → enough ≤ rounds + steps
      → walk kind_known handler (more + rounds) steps es index queue s
        ≡ walk kind_known handler rounds steps es index queue s
  unfolding walk
  walk-more rounds more steps es index [] s low many = refl
  walk-more zero more steps es index (id ∷ queue) s low many = absurd (omega arith)
  walk-more (suc rounds) more steps es index (id ∷ queue) s low many =
      let (s', next) = execute kind_known handler es index id s in
      let one : more + suc rounds ≡ suc (more + rounds) = omega arith in
      ap (λ k. walk kind_known handler k steps es index (id ∷ queue) s) one
      ∙ elim (Bool-cases (leb max_steps steps)) [
        | inl e ↦ rw e refl
        | inr e ↦ rw e (
            walk-more rounds more (suc steps) es index (queue ++ next) s' (ground (arith, e))
              (omega (arith, many)))
      ]

  -- Every flow, cyclic or not, is left after at most 256 steps: by itself, or by the ceiling after
  -- exactly that many. The rounds that the model gives to the loop are never used up, and any
  -- number of further rounds gives the same.
  pub run_bounded :
      (f : Flow Config) (s : S) (more : ℕ)
      → let ((last, steps), outcome) = run kind_known handler f s in
        (steps ≤ max_steps)
        × ((outcome ≡ finished) ⊎ ((outcome ≡ exceeded) × (steps ≡ max_steps)))
        × (walk kind_known handler (more + enough) 0 f.edges (index_of f.nodes []) (entry_nodes f) s
            ≡ run kind_known handler f s)
  unfolding run
  run_bounded f s more =
      let index = index_of f.nodes [] in
      let (low, how) =
        walk-Stops enough 0 f.edges index (entry_nodes f) s (omega arith) (omega arith) in
      (
        low,
        how,
        walk-more enough more 0 f.edges index (entry_nodes f) s (omega arith) (omega arith),
      )
