-- ===== src/Flow/Graph/Entries.antt =====
-- Which nodes a walk starts at.
use turborg.Base.Text.{is_empty}
use turborg.Base.{
  Bool, List, Str, [], ap, arith, false, inl, inr, not, refl, str_beq, str_beq_iff, true, ◌&&◌,
  ◌||◌, ◌∙◌, ◌∷◌, ◌≡◌, Bool-cases, Distinct, Distinct-snoc, contains, contains-append, str_eq,
}
use turborg.Flow.Graph.{
  Edge, Flow, Node, add_id, add_ids, entry_nodes, explicit, has_incoming, is_entry_from, roots,
}

or_false : (a b : Bool) → (a || b) ≡ false → b ≡ false
or_false false b h = h
or_false true b h = absurd (ground arith)

add_id-Distinct : (id : Str) (out : List Str) → Distinct out → Distinct (add_id id out)
unfolding add_id
add_id-Distinct id out d = elim (Bool-cases (is_empty id || contains id out)) [
  | inl e ↦ rw e d
  | inr e ↦ rw e (Distinct-snoc out id d (or_false (is_empty id) (contains id out) e))
]

add_ids-Distinct : (ids out : List Str) → Distinct out → Distinct (add_ids ids out)
unfolding add_ids
add_ids-Distinct [] out d = d
add_ids-Distinct (id ∷ ids) out d = add_ids-Distinct ids (add_id id out) (add_id-Distinct id out d)

-- The id that is added, unless it is empty.
abbrev is_it : Str → Str → Bool
is_it x id = not (is_empty x) && str_beq id x

contains-add_id :
    (x id : Str) (out : List Str) → contains x (add_id id out) ≡ (contains x out || is_it x id)
unfolding add_id
contains-add_id x id out =
    let same : str_beq id x ≡ true → id ≡ x = (str_beq_iff id x).0 in
    let member : str_beq id x ≡ true → contains id out ≡ contains x out =
      λ e. ap (λ (y : Str). contains y out) (same e) in
    let empty : str_beq id x ≡ true → is_empty id ≡ is_empty x =
      λ e. ap (λ (y : Str). is_empty y) (same e) in
    elim (Bool-cases (str_beq id x)) [
      | inl e ↦ ground (arith, e, member e, empty e, contains-append x out (id ∷ []))
      | inr e ↦ ground (arith, e, contains-append x out (id ∷ []))
    ]

contains-add_ids :
    (x : Str) (ids out : List Str)
    → contains x (add_ids ids out) ≡ (contains x out || (not (is_empty x) && contains x ids))
unfolding add_ids
contains-add_ids x [] out = ground arith
contains-add_ids x (id ∷ ids) out =
    contains-add_ids x ids (add_id id out) ∙ ground (arith, contains-add_id x id out)

-- An entry edge leads to the id.
abbrev pub is_entered : Str → List Edge → Bool
is_entered x [] = false
is_entered x (e ∷ es) = (is_entry_from e.from && str_beq e.to x) || is_entered x es

contains-explicit : (x : Str) (es : List Edge) → contains x (explicit es) ≡ is_entered x es
unfolding explicit
contains-explicit x [] = refl
contains-explicit x (e ∷ es) = ground (arith, contains-explicit x es)

module _ {Config : Type 0} where
  abbrev pub has_node : Str → List (Node Config) → Bool
  has_node x [] = false
  has_node x (n ∷ ns) = str_beq n.id x || has_node x ns

  contains-roots :
      (x : Str) (es : List Edge) (ns : List (Node Config))
      → contains x (roots es ns) ≡ (not (has_incoming x es) && has_node x ns)
  unfolding roots
  contains-roots x es [] = ground arith
  contains-roots x es (n ∷ ns) =
      let incoming : str_beq n.id x ≡ true → has_incoming n.id es ≡ has_incoming x es =
        λ e. ap (λ (y : Str). has_incoming y es) ((str_beq_iff n.id x).0 e) in
      elim (Bool-cases (str_beq n.id x)) [
        | inl e ↦ ground (arith, e, incoming e, contains-roots x es ns)
        | inr e ↦ ground (arith, e, contains-roots x es ns)
      ]

  -- A walk starts once at each id that is not empty and that either an entry edge leads to or a
  -- node has that no other edge leads to, and at no other.
  pub entry_nodes_exact :
      (f : Flow Config) (x : Str)
      → Distinct (entry_nodes f)
        × (contains x (entry_nodes f) ≡ (
            not (is_empty x)
            && (is_entered x f.edges || (not (has_incoming x f.edges) && has_node x f.nodes))))
  unfolding entry_nodes
  entry_nodes_exact f x =
      let first = add_ids (explicit f.edges) [] in
      (
        add_ids-Distinct (roots f.edges f.nodes) first (add_ids-Distinct (explicit f.edges) [] tt),
        contains-add_ids x (roots f.edges f.nodes) first
            ∙ ground (
              arith,
              contains-add_ids x (explicit f.edges) [],
              contains-explicit x f.edges,
              contains-roots x f.edges f.nodes,
            ),
      )
