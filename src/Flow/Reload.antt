-- ===== src/Flow/Reload.antt =====
-- internal/flow/engine.go: ReplaceFlows, with channelSet, channelAllowed and parseCommand. The
-- catalog of node types and the compiler of regular expressions are parameters, of which only
-- success matters here. The swap happens under the lock, so a reload is one step.
pub mod Capped
pub mod Valid
pub mod Sorted
mod Examples
use turborg.Base.{
  Bool, List, Option, Str, [], contains, false, if◌then◌else◌, nat_beq, none, not, or_zero, some,
  str_eq, suc, true, ℕ, ◌&&◌, ◌++◌, ◌==◌, ◌||◌, ◌∷◌,
}
use turborg.Base.Text.Split.{cut, strip_prefix, trim_left, trim_space}
use turborg.Base.Int.{ℤ, is_minus_one, le_pos}
use turborg.Base.Map.{Map, insert}
use turborg.Base.Text.{codes, is_empty, to_lower}
use turborg.Flow.Graph.{Flow, Node}

pub record Compiled (Config : Type 0) : Type 0 where
  pub flow : Flow Config
  pub channels : Option (List Str)

-- The keys of the set, blank names left out.
pub channel_names : List Str → List Str
channel_names [] = []
channel_names (c ∷ cs) =
    let rest = channel_names cs in
    let name = to_lower (trim_space c) in if is_empty name then rest else name ∷ rest

-- `none` is the nil set, which allows every channel.
pub channel_set : List Str → Option (List Str)
unfolding channel_names
channel_set channels =
    let names = channel_names channels in elim names [ [] ↦ none | n ∷ ns ↦ some (n ∷ ns) ]

pub channel_allowed : Option (List Str) → Str → Bool
channel_allowed none channel = true
channel_allowed (some names) channel = contains (to_lower channel) names

abbrev pub is_gap : ℕ → Bool
is_gap c = nat_beq c 32 || nat_beq c 9

-- What is behind the prefix, less leading spaces and tabs.
pub read_words : Str → Option (Str × Str)
read_words rest =
    let (word, remainder) = or_zero (cut (32 ∷ []) rest) (rest, []) in
    if is_empty rest then none else some (to_lower word, trim_space remainder)

-- The name and the arguments; `none` is the result `ok == false`.
pub parse_command : Str → Str → Option (Str × Str)
unfolding read_words
parse_command text prefix = if is_empty prefix then none else elim (strip_prefix prefix text) [
  | none ↦ none
  | some after ↦ read_words (trim_left is_gap after)
]

pub record FlowSet (Config : Type 0) : Type 0 where
  pub events : List (Compiled Config)
  pub matches : List (Compiled Config)
  pub commands : List (Compiled Config)
  pub webhooks : Map Str (Compiled Config)

-- What the loop does with a flow.
pub data Sort : Type 0 where
  command_flow : Sort
  match_flow : Sort
  event_flow : Sort
  webhook_flow : Str → Sort
  skipped : Sort

module _ {Config : Type 0} where
  pub trigger_kind : Flow Config → Str
  trigger_kind f = if is_empty f.trigger.kind then codes "command" else f.trigger.kind

  pub compile : Flow Config → Compiled Config
  unfolding channel_set
  compile f = record { flow = f; channels = channel_set f.trigger.channels }

  pub install : Sort → Flow Config → FlowSet Config → FlowSet Config
  unfolding compile
  install command_flow f s = record s { commands = s.commands ++ compile f ∷ [] }
  install match_flow f s = record s { matches = s.matches ++ compile f ∷ [] }
  install event_flow f s = record s { events = s.events ++ compile f ∷ [] }
  install (webhook_flow key) f s = record s { webhooks = insert key (compile f) s.webhooks }
  install skipped f s = s

  pub no_flows : FlowSet Config
  no_flows = record { events = []; matches = []; commands = []; webhooks = [] }

abbrev pub is_skipped : Sort → Bool
is_skipped skipped = true
is_skipped _ = false

module _ {Config : Type 0} (kind_known : Str → Bool) (compiles : Str → Bool) where
  pub is_valid : List (Node Config) → Bool
  is_valid [] = true
  is_valid (n ∷ ns) = let rest = is_valid ns in kind_known n.kind && rest

  pub sort_of : Flow Config → Sort
  unfolding is_valid trigger_kind
  sort_of f =
      let kind = trigger_kind f in
      let key = to_lower (trim_space f.name) in
      if not (is_valid f.nodes)
      then skipped
      else if kind == codes "command"
      then (if is_empty (to_lower (trim_space f.trigger.command)) then skipped else command_flow)
      else if kind == codes "match"
      then (if compiles f.trigger.pattern then match_flow else skipped)
      else if kind == codes "event"
      then event_flow
      else if kind == codes "webhook"
      then (if is_empty key then skipped else webhook_flow key)
      else skipped

  -- The loop, with the number of flows that are installed.
  pub install_all : ℤ → List (Flow Config) → ℕ → FlowSet Config → FlowSet Config
  unfolding sort_of install
  install_all limit [] installed s = s
  install_all limit (f ∷ fs) installed s =
      let sort = sort_of f in
      let rest =
        install_all limit fs (if is_skipped sort then installed else suc installed)
          (install sort f s) in
      if not (is_minus_one limit) && le_pos limit installed then s else rest

  pub replace_flows : ℤ → List (Flow Config) → FlowSet Config
  unfolding install_all no_flows
  replace_flows limit flows = install_all limit flows 0 no_flows
