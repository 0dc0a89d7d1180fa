-- ===== src/Flow/Reload/Examples.antt =====
-- A batch of four flows, of which one has a node of an unknown type.
use turborg.Base.{Bool, List, Str, String, [], refl, str_beq, true, ◌==◌, ◌∷◌, ◌≡◌, str_eq}
use turborg.Base.Int.{negsuc}
use turborg.Base.Map.{lookup}
use turborg.Base.Text.{lower_byte, codes, to_lower}
use turborg.Base.Text.Split.{trim_space}
use turborg.Flow.Trigger.{Trigger}
use turborg.Flow.Graph.{Flow}
use turborg.Flow.Reload.{channel_allowed, channel_set, replace_flows}
use turborg.Flow.Reload.Sorted.{reload_sorted}
use turborg.Flow.Reload.Valid.{
  IsCommandFlow, IsMatchFlow, IsEventFlow, IsWebhookFlow, LastOf, Selected,
}

abbrev trigger : String → Trigger
trigger kind = record {
  kind = codes kind;
  command = codes "go";
  event = codes "USER_JOIN";
  pattern = codes "hi";
  channels = [];
}

abbrev flow : String → String → Flow Str
flow kind node = record {
  name = codes "Hook";
  trigger = trigger kind;
  nodes = record { id = codes "n"; kind = codes node; config = [] } ∷ [];
  edges = [];
}

abbrev batch : List (Flow Str)
batch = flow "command" "say" ∷ flow "event" "nope" ∷ flow "webhook" "say" ∷ flow "match" "say" ∷ []

abbrev known : Str → Bool
known kind = kind == codes "say"

abbrev compiles : Str → Bool
compiles pattern = true

scoped : channel_allowed (channel_set (codes " #Go" ∷ [])) (codes "#gO") ≡ true
unfolding channel_allowed channel_set trim_space to_lower lower_byte str_beq
scoped = refl

reload_sorted_example :
    let after = replace_flows known compiles (negsuc 0) batch in
    Selected (IsCommandFlow known compiles) batch after.commands
    × Selected (IsMatchFlow known compiles) batch after.matches
    × Selected (IsEventFlow known compiles) batch after.events
    × LastOf
        (IsWebhookFlow known compiles (codes "hook"))
        batch
        (lookup (codes "hook") after.webhooks)
reload_sorted_example = reload_sorted known compiles batch (codes "hook")
