-- ===== src/Flow/Graph.antt =====
-- internal/flow/flow.go and the walk of internal/flow/engine.go (`run`): a graph of nodes, and the
-- queue of the nodes that are to be executed. The configuration of a node and its handler are the
-- caller's: the handlers of nodes.go act on the network, so the walk takes the handlers of the
-- catalog as a function on a state `S` of the world and the data bag, with the port that it
-- returns, or `none` for an error.
pub mod Entries
pub mod Walk
pub mod Reached
mod Examples
use turborg.Base.{
  Bool, List, Option, Str, [], contains, false, if◌then◌else◌, none, not, some, str_eq, suc, zero,
  leb, ℕ, ◌&&◌, ◌++◌, ◌==◌, ◌||◌, ◌∷◌,
}
use turborg.Flow.Trigger.{Trigger}
use turborg.Base.Map.{Map, insert, lookup}
use turborg.Base.Text.{codes, is_empty}

pub record Node (Config : Type 0) : Type 0 where
  pub id : Str
  pub kind : Str
  pub config : Config

pub record Edge : Type 0 where
  pub from : Str
  pub to : Str
  pub port : Str

pub record Flow (Config : Type 0) : Type 0 where
  pub name : Str
  pub trigger : Trigger
  pub nodes : List (Node Config)
  pub edges : List Edge

pub is_entry_from : Str → Bool
is_entry_from from = is_empty from || from == codes "start" || from == codes "trigger"

-- The targets of the entry edges, in order.
pub explicit : List Edge → List Str
unfolding is_entry_from
explicit [] = []
explicit (e ∷ es) = let rest = explicit es in if is_entry_from e.from then e.to ∷ rest else rest

-- hasIncoming[id]
pub has_incoming : Str → List Edge → Bool
unfolding is_entry_from
has_incoming id [] = false
has_incoming id (e ∷ es) =
    let rest = has_incoming id es in (not (is_entry_from e.from) && e.to == id) || rest

-- The closure `add`: `seen` holds the ids of `out`.
pub add_id : Str → List Str → List Str
add_id id out = if is_empty id || contains id out then out else out ++ id ∷ []

pub add_ids : List Str → List Str → List Str
unfolding add_id
add_ids [] out = out
add_ids (id ∷ ids) out = add_ids ids (add_id id out)

module _ {Config : Type 0} where
  -- The ids of the nodes without an incoming edge, in order.
  pub roots : List Edge → List (Node Config) → List Str
  unfolding has_incoming
  roots es [] = []
  roots es (n ∷ ns) = let rest = roots es ns in if has_incoming n.id es then rest else n.id ∷ rest

  pub entry_nodes : Flow Config → List Str
  unfolding explicit add_ids roots
  entry_nodes f = add_ids (roots f.edges f.nodes) (add_ids (explicit f.edges) [])

  pub index_of : List (Node Config) → Map Str (Node Config) → Map Str (Node Config)
  index_of [] index = index
  index_of (n ∷ ns) index = index_of ns (insert n.id n index)

pub successors_of : Str → Str → List Edge → List Str
successors_of from port [] = []
successors_of from port (e ∷ es) =
    let rest = successors_of from port es in
    if e.from == from && e.port == port then e.to ∷ rest else rest

-- "\x00stop"
abbrev pub stop_port : Str
stop_port = 0 ∷ codes "stop"

abbrev pub max_steps : ℕ
max_steps = 256

-- A counter from 0 to `max_steps` needs no more rounds than these.
abbrev pub enough : ℕ
enough = 257

-- How a walk ends: the queue is empty, or the ceiling stops it with work left. `out_of_rounds` is
-- not of the code: the rounds that the model gives to the loop are used up.
pub data Outcome : Type 0 where
  finished : Outcome
  exceeded : Outcome
  out_of_rounds : Outcome

-- What follows the call of a handler.
pub route : {S : Type 0} → List Edge → Str → S × Option Str → S × List Str
unfolding successors_of
route es id (s, none) = (s, [])
route es id (s, some port) = (s, if port == stop_port then [] else successors_of id port es)

-- `kind_known` is the lookup in the catalog, `handler` the call of the handler that it finds.
module _ {Config S : Type 0} (kind_known : Str → Bool)
    (handler : Node Config → S → S × Option Str) where
  -- The node that the lookup found.
  pub execute_node : List Edge → Str → Option (Node Config) → S → S × List Str
  unfolding route
  execute_node es id none s = (s, [])
  execute_node es id (some n) s = if kind_known n.kind then route es id (handler n s) else (s, [])

  -- One id of the queue: the state after it, and the ids that go to the end of the queue.
  pub execute : List Edge → Map Str (Node Config) → Str → S → S × List Str
  unfolding execute_node
  execute es index id s = execute_node es id (lookup id index) s

  -- The loop in at most `rounds` rounds, with the counter `steps`, whose last value is returned.
  pub walk : ℕ → ℕ → List Edge → Map Str (Node Config) → List Str → S → (S × ℕ) × Outcome
  unfolding execute
  walk rounds steps es index [] s = ((s, steps), finished)
  walk zero steps es index (id ∷ queue) s = ((s, steps), out_of_rounds)
  walk (suc rounds) steps es index (id ∷ queue) s =
      let (s', next) = execute es index id s in
      let rest = walk rounds (suc steps) es index (queue ++ next) s' in
      if leb max_steps steps then ((s, steps), exceeded) else rest

  pub run : Flow Config → S → (S × ℕ) × Outcome
  unfolding walk entry_nodes index_of
  run f s = walk enough 0 f.edges (index_of f.nodes []) (entry_nodes f) s
