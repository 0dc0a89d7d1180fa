-- ===== src/Flow/Graph/Examples.antt =====
-- A loop behind a start node, and a node that nothing leads to from there.
use turborg.Base.{
  inl, inr, ap, none, sym, ◌∙◌, Bool, Option, Str, String, [], refl, some, str_beq, ℕ, ◌*◌, ◌+◌,
  ◌==◌, ◌∷◌, ◌≡◌, ◌≤◌, ◌⊎◌, str_eq,
}
use turborg.Base.Map.{Map, insert, lookup}
use turborg.Base.Text.{codes}
use turborg.Flow.Trigger.{Trigger}
use turborg.Flow.Graph.{
  walk, enough, exceeded, finished, Edge, Flow, Node, entry_nodes, index_of, max_steps, run,
}
use turborg.Flow.Graph.Walk.{run_bounded}
use turborg.Flow.Graph.Reached.{
  In, here, later, In-All, EntersFlow, Starts, entered, root, start, step, Reach, run_reachable,
}

abbrev node : String → Node ℕ
node name = record { id = codes name; kind = codes "incr"; config = 1 }

abbrev edge : String → String → Edge
edge from to = record { from = codes from; to = codes to; port = [] }

abbrev trigger : Trigger
trigger = record { kind = []; command = codes "go"; event = []; pattern = []; channels = [] }

abbrev looping : Flow ℕ
looping = record {
  name = codes "loop";
  trigger = trigger;
  nodes = node "a" ∷ node "b" ∷ node "c" ∷ [];
  edges = edge "start" "a" ∷ edge "a" "b" ∷ edge "b" "a" ∷ edge "c" "c" ∷ [];
}

abbrev straight : Flow ℕ
straight = record looping { edges = edge "a" "b" ∷ edge "b" "c" ∷ [] }

abbrev known : Str → Bool
known kind = kind == codes "incr"

abbrev adding : Node ℕ → ℕ → ℕ × Option Str
adding n s = (s + n.config, some [])

run_bounded_example :
    let ((last, steps), outcome) = run known adding looping 0 in
    (steps ≤ max_steps)
    × ((outcome ≡ finished) ⊎ ((outcome ≡ exceeded) × (steps ≡ max_steps)))
    × (walk known adding
          (7 + enough)
          0
          looping.edges
          (index_of looping.nodes [])
          (entry_nodes looping)
          0
        ≡ run known adding looping 0)
run_bounded_example = run_bounded known adding looping 0 7

-- A handler that counts twice, where the number is not 1.
abbrev doubling : Node ℕ → ℕ → ℕ × Option Str
doubling n s = (s + n.config * n.config, some [])

-- Nothing leads to the second node, of which the handlers think differently.
abbrev lonely : Flow ℕ
lonely = record {
  name = codes "lonely";
  trigger = trigger;
  nodes = node "a" ∷ record { id = codes "b"; kind = codes "incr"; config = 2 } ∷ [];
  edges = edge "start" "a" ∷ edge "b" "b" ∷ [];
}

abbrev index : Map Str (Node ℕ)
index = index_of lonely.nodes []

config_of : Option (Node ℕ) → ℕ
config_of none = 0
config_of (some n) = n.config

agree : (n : Node ℕ) (t : ℕ) → lookup (codes "a") index ≡ some n → adding n t ≡ doubling n t
unfolding lookup insert str_beq config_of index_of
agree n t e =
    let one : n.config ≡ 1 = sym (ap (λ (o : Option (Node ℕ)). config_of o) e) in rw one refl

b_enters : EntersFlow (edge "b" "b") → ⊥
b_enters (inl e) = cc
b_enters (inr (inl e)) = cc
b_enters (inr (inr e)) = cc

loop-In : In (edge "b" "b") lonely.edges
loop-In = later (edge "start" "a") (edge "b" "b" ∷ []) (here [])

Starts-a : (id : Str) → Starts lonely id → codes "a" ≡ id
Starts-a _ (entered e at enters) =
    In-All (λ (d : Edge). EntersFlow d → codes "a" ≡ d.to) e lonely.edges at
      ((λ h. refl), ((λ h. absurd (b_enters h)), tt)) enters
Starts-a _ (root n at free) =
    In-All
      (λ (m : Node ℕ).
        ((e : Edge) → In e lonely.edges → e.to ≡ m.id → EntersFlow e) → codes "a" ≡ m.id)
      n lonely.nodes at
      ((λ h. refl), ((λ h. absurd (b_enters (h (edge "b" "b") loop-In refl))), tt)) free

reach_a : (id : Str) → Reach lonely id → codes "a" ≡ id
reach_a _ (start id h) = Starts-a id h
reach_a _ (step e at r) =
    In-All (λ (d : Edge). codes "a" ≡ d.from → codes "a" ≡ d.to) e lonely.edges at
      ((λ h. refl), ((λ h. cc), tt)) (reach_a e.from r)

run_reachable_example : run known adding lonely 0 ≡ run known doubling lonely 0
run_reachable_example =
    run_reachable known adding doubling lonely 0
      (λ id n t r e. agree n t (ap (λ (x : Str). lookup x index) (reach_a id r) ∙ e))
