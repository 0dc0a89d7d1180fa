-- ===== src/Flow/Graph/Reached.antt =====
-- Where a walk goes.
use turborg.Base.{
  All-append, Bool-cases, if◌then◌else◌, none, some, str_beq, All, contains, inl, inr, str_beq_iff,
  str_eq, true, false, Bool, List, Option, Str, [], ap, arith, refl, suc, zero, ℕ, ◌++◌, ◌&&◌, ◌==◌,
  ◌∙◌, ◌∷◌, ◌≡◌, ◌⊎◌, leb, sym,
}
use mathlib.Core.Path.{subst}
use turborg.Base.Map.{lookup, Map}
use turborg.Base.Text.{codes, is_empty}
use turborg.Flow.Graph.{
  execute_node, route, stop_port, exceeded, Edge, Flow, Node, execute, walk, max_steps, enough, run,
  entry_nodes, index_of, successors_of, is_entry_from, has_incoming,
}
use turborg.Flow.Graph.Entries.{entry_nodes_exact, is_entered, has_node}

-- An edge or a node of a list.
pub data In {A : Type 0} (x : A) : List A → Type 0 where
  here : (xs : List A) → In x (x ∷ xs)
  later : (y : A) (xs : List A) → In x xs → In x (y ∷ xs)

-- An edge from nothing, from "start" or from "trigger".
abbrev pub EntersFlow : Edge → Type 0
EntersFlow e = (e.from ≡ []) ⊎ ((e.from ≡ codes "start") ⊎ (e.from ≡ codes "trigger"))

-- The ids at which a walk may start: the targets of such edges, and the nodes without another
-- edge to them.
pub data Starts {Config : Type 0} (f : Flow Config) : Str → Type 0 where
  entered : (e : Edge) → In e f.edges → EntersFlow e → Starts f e.to
  root :
      (n : Node Config)
      → In n f.nodes
      → ((e : Edge) → In e f.edges → e.to ≡ n.id → EntersFlow e)
      → Starts f n.id

-- The ids to which edges lead from there, over any of their ports.
pub data Reach {Config : Type 0} (f : Flow Config) : Str → Type 0 where
  start : (id : Str) → Starts f id → Reach f id
  step : (e : Edge) → In e f.edges → Reach f e.from → Reach f e.to

enters : (e : Edge) → is_entry_from e.from ≡ true → EntersFlow e
unfolding is_entry_from str_beq
enters e h = elim (Bool-cases (is_empty e.from)) [
  | inl g ↦ inl (empty e.from g)
  | inr g ↦ elim (Bool-cases (str_beq e.from (codes "start"))) [
    | inl k ↦ inr (inl ((str_beq_iff e.from (codes "start")).0 k))
    | inr k ↦ inr (inr ((str_beq_iff e.from (codes "trigger")).0 (ground (arith, h, g, k))))
  ]
]
  where
    empty : (s : Str) → is_empty s ≡ true → s ≡ []
    empty [] q = refl
    empty (c ∷ s) q = cc

find_entered :
    (x : Str) (es : List Edge)
    → is_entered x es ≡ true
    → (e : Edge) × In e es × (is_entry_from e.from ≡ true) × (e.to ≡ x)
find_entered x [] h = cc
find_entered x (e ∷ es) h = elim (Bool-cases (is_entry_from e.from && str_beq e.to x)) [
  | inl g ↦ (e, here es, ground (arith, g), (str_beq_iff e.to x).0 (ground (arith, g)))
  | inr g ↦
      let (d, at, from, to) = find_entered x es (ground (arith, h, g)) in
      (d, later e es at, from, to)
]

find_node :
    {Config : Type 0} (x : Str) (ns : List (Node Config))
    → has_node x ns ≡ true
    → (n : Node Config) × In n ns × (n.id ≡ x)
find_node x [] h = cc
find_node x (n ∷ ns) h = elim (Bool-cases (str_beq n.id x)) [
  | inl g ↦ (n, here ns, (str_beq_iff n.id x).0 g)
  | inr g ↦ let (m, at, same) = find_node x ns (ground (arith, h, g)) in (m, later n ns at, same)
]

no_incoming :
    (x : Str) (e : Edge) (es : List Edge)
    → In e es
    → has_incoming x es ≡ false
    → e.to ≡ x
    → is_entry_from e.from ≡ true
unfolding has_incoming
no_incoming x e _ (here es) h same = ground (arith, h, (str_beq_iff e.to x).1 same)
no_incoming x e _ (later d es at) h same = no_incoming x e es at (ground (arith, h)) same

-- What holds of every member holds of each.
pub In-All : {A : Type 0} (P : A → Type 0) (x : A) (xs : List A) → In x xs → All P xs → P x
In-All P x _ (here xs) h = h.0
In-All P x _ (later y xs at) h = In-All P x xs at h.1

entry-Starts :
    {Config : Type 0} (f : Flow Config) (x : Str) → contains x (entry_nodes f) ≡ true → Starts f x
entry-Starts f x h =
    let exact = (entry_nodes_exact f x).1 in
    elim (Bool-cases (is_entered x f.edges)) [
      | inl g ↦
          let (e, at, from, to) = find_entered x f.edges g in
          subst (Starts f) to (entered e at (enters e from))
      | inr g ↦
          let (n, at, same) = find_node x f.nodes (ground (arith, exact, h, g)) in
          let free : has_incoming x f.edges ≡ false = ground (arith, exact, h, g) in
          subst (Starts f) same (
            root n at
              (λ e in_edges to. enters e (no_incoming x e f.edges in_edges free (to ∙ same))))
    ]

-- The targets of the edges from a reachable id are reachable.
successors-Reach :
    {Config : Type 0} (f : Flow Config) (from port : Str) (es : List Edge)
    → ((e : Edge) → In e es → In e f.edges)
    → Reach f from
    → All (Reach f) (successors_of from port es)
unfolding successors_of
successors-Reach f from port [] sub r = tt
successors-Reach f from port (e ∷ es) sub r =
    let rest = successors-Reach f from port es (λ d at. sub d (later e es at)) r in
    elim (Bool-cases (e.from == from && e.port == port)) [
      | inl g ↦
          let same = (str_beq_iff e.from from).0 (ground (arith, g)) in
          rw g (step e (sub e (here es)) (subst (Reach f) (sym same) r), rest)
      | inr g ↦ rw g rest
    ]

All-members :
    (P : Str → Type 0) (xs : List Str) → ((x : Str) → contains x xs ≡ true → P x) → All P xs
All-members P [] h = tt
All-members P (x ∷ xs) h =
    (h x (ground (arith, str_beq_iff x x)), All-members P xs (λ y k. h y (ground (arith, k))))

route-Reach :
    {Config S : Type 0} (f : Flow Config) (id : Str)
    → Reach f id
    → (result : S × Option Str) → All (Reach f) (route f.edges id result).1
unfolding route
route-Reach f id r (s, none) = tt
route-Reach f id r (s, some port) = elim (Bool-cases (str_beq port stop_port)) [
  | inl e ↦ rw e tt
  | inr e ↦ rw e (successors-Reach f id port f.edges (λ d at. at) r)
]

module _ {Config S : Type 0} (kind_known : Str → Bool)
    (handler other : Node Config → S → S × Option Str) where
  node-Reach :
      (f : Flow Config) (id : Str) (found : Option (Node Config)) (s : S)
      → Reach f id
      → All (Reach f) (execute_node kind_known handler f.edges id found s).1
  unfolding execute_node
  node-Reach f id none s r = tt
  node-Reach f id (some n) s r = elim (Bool-cases (kind_known n.kind)) [
    | inl known ↦ rw known (route-Reach f id r (handler n s))
    | inr unknown ↦ rw unknown tt
  ]

  node-same :
      (es : List Edge) (id : Str) (found : Option (Node Config)) (s : S)
      → ((n : Node Config) → found ≡ some n → handler n s ≡ other n s)
      → execute_node kind_known handler es id found s ≡ execute_node kind_known other es id found s
  unfolding execute_node
  node-same es id none s agree = refl
  node-same es id (some n) s agree =
      ap (λ o. if kind_known n.kind then route es id o else (s, [])) (agree n refl)

  walk-same :
      (f : Flow Config) (rounds steps : ℕ) (index : Map Str (Node Config)) (queue : List Str)
      (s : S)
      → ((id : Str) (n : Node Config) (t : S)
          → Reach f id
          → lookup id index ≡ some n
          → handler n t ≡ other n t)
      → All (Reach f) queue
      → walk kind_known handler rounds steps f.edges index queue s
        ≡ walk kind_known other rounds steps f.edges index queue s
  unfolding walk execute
  walk-same f rounds steps index [] s agree r = refl
  walk-same f zero steps index (id ∷ queue) s agree r = refl
  walk-same f (suc rounds) steps index (id ∷ queue) s agree r =
      let same = node-same f.edges id (lookup id index) s (λ n e. agree id n s r.0 e) in
      let (s', next) = execute kind_known handler f.edges index id s in
      ap (λ w. if leb max_steps steps then ((s, steps), exceeded) else w)
        (walk-same f rounds (suc steps) index (queue ++ next) s' agree
            (All-append (Reach f) queue next r.1 (node-Reach f id (lookup id index) s r.0))
          ∙ ap
              (λ ((t, ids) : S × List Str).
                walk kind_known other rounds (suc steps) f.edges index (queue ++ ids) t)
              same)

  -- Only what is reachable matters: a run is the same for two sets of handlers that agree on the
  -- nodes to whose ids edges lead, over any ports, from where a walk may start: from a target of an
  -- edge from nothing, "start" or "trigger", or from a node without any other edge to it.
  pub run_reachable :
      (f : Flow Config) (s : S)
      → ((id : Str) (n : Node Config) (t : S)
          → Reach f id
          → lookup id (index_of f.nodes []) ≡ some n
          → handler n t ≡ other n t)
      → run kind_known handler f s ≡ run kind_known other f s
  unfolding run
  run_reachable f s agree =
      walk-same f enough 0 (index_of f.nodes []) (entry_nodes f) s agree
        (All-members (Reach f) (entry_nodes f) (λ x h. start x (entry-Starts f x h)))
