-- ===== src/Flow/Dispatch/Examples.antt =====
-- A command flow and a match flow, and a message for both.
use turborg.Base.{Bool, List, Str, String, [], true, ◌∷◌, str_eq}
use turborg.Base.Text.{codes}
use turborg.Flow.Graph.{Flow}
use turborg.Flow.Dispatch.{Engine, InboundMessage}

abbrev flow : String → Flow Str
flow kind = record {
  name = codes kind;
  trigger = record {
    kind = codes kind;
    command = codes " Greet";
    event = [];
    pattern = codes "!greet bob";
    channels = codes "#a" ∷ [];
  };
  nodes = [];
  edges = [];
}

abbrev batch : List (Flow Str)
batch = flow "command" ∷ flow "match" ∷ flow "event" ∷ []

abbrev engine : Engine Str
engine = record {
  flows = record { events = []; matches = []; commands = []; webhooks = [] };
  prefix = codes "!";
  platform = codes "irc";
  owner = codes "ann";
}

abbrev message : InboundMessage
message = record { sender = codes "bob"; channel = codes "#A"; text = codes "!greet bob" }

abbrev known : Str → Bool
known kind = true
