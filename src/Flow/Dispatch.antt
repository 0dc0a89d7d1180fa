-- ===== src/Flow/Dispatch.antt =====
-- internal/flow/engine.go: which flows an inbound message, a lifecycle event or a webhook runs, and
-- with which data. The runs are returned in order; each is a walk (Flow/Graph.antt). The compiled
-- regular expressions are a parameter, `found pattern text`.
pub mod Runs
mod Examples
use turborg.Base.Map.{Map, insert, lookup}
use turborg.Base.Text.{codes, equal_fold, is_empty, to_lower}
use turborg.Base.{
  Bool, List, Option, Str, [], if◌then◌else◌, keep, map, none, some, ◌&&◌, ◌++◌, ◌==◌, ◌||◌, ◌∷◌,
  str_eq,
}
use turborg.Base.Text.Split.{trim_space}
use turborg.Flow.Graph.{Flow}
use turborg.Flow.Reload.{Compiled, FlowSet, channel_allowed, parse_command}

abbrev pub Bag : Type 0
Bag = Map Str Str

-- A flow that is run, with its data.
pub record Run (Config : Type 0) : Type 0 where
  pub flow : Flow Config
  pub bag : Bag

pub record Engine (Config : Type 0) : Type 0 where
  pub flows : FlowSet Config
  pub prefix : Str
  pub platform : Str
  pub owner : Str

-- What onMessage reads of the envelope.
pub record InboundMessage : Type 0 where
  pub sender : Str
  pub channel : Str
  pub text : Str

-- What onUserEvent reads of an event: its type, and its fields, "" where one is not a string.
pub record UserEvent : Type 0 where
  pub kind : Str
  pub field : Str → Str

-- The switch of bagFromEvent.
pub bag_from_event : UserEvent → Bag
bag_from_event ev =
    let base =
      (codes "channel", ev.field (codes "channel"))
      ∷ (codes "reason", ev.field (codes "reason"))
      ∷ (codes "topic", ev.field (codes "topic"))
      ∷ (codes "modes", ev.field (codes "modes"))
      ∷ [] in
    if ev.kind == codes "USER_KICKED"
    then insert (codes "target") (ev.field (codes "nick"))
        (insert (codes "user") (ev.field (codes "by")) base)
    else if ev.kind == codes "USER_NICK_CHANGE"
    then insert (codes "user") (ev.field (codes "old")) (
        insert (codes "new") (ev.field (codes "new"))
          (insert (codes "old") (ev.field (codes "old")) base))
    else if ev.kind == codes "TOPIC_CHANGED" || ev.kind == codes "MODE_CHANGED"
    then insert (codes "user") (ev.field (codes "by")) base
    else insert (codes "user") (ev.field (codes "nick")) base

module _ {Config : Type 0} where
  pub message_bag : Engine Config → InboundMessage → Bag
  message_bag e m =
      (codes "user", m.sender)
      ∷ (codes "channel", m.channel)
      ∷ (codes "text", m.text)
      ∷ (codes "platform", e.platform)
      ∷ (codes "owner", e.owner)
      ∷ []

  pub command_bag : Engine Config → InboundMessage → Str → Bag
  unfolding message_bag
  command_bag e m args = insert (codes "args") args (message_bag e m)

  abbrev pub run_with : Bag → Compiled Config → Run Config
  run_with bag c = record { flow = c.flow; bag = bag }

  abbrev pub is_named : Str → Str → Compiled Config → Bool
  is_named name channel c =
      equal_fold (trim_space c.flow.trigger.command) name && channel_allowed c.channels channel

  -- The loop over the command flows.
  pub run_commands : Engine Config → InboundMessage → List (Run Config)
  unfolding command_bag
  run_commands e m = elim (parse_command m.text e.prefix) [
    | none ↦ []
    | some (name, args) ↦
        map (run_with (command_bag e m args)) (keep (is_named name m.channel) e.flows.commands)
  ]

  abbrev pub is_matched : (Str → Str → Bool) → InboundMessage → Compiled Config → Bool
  is_matched found m c = channel_allowed c.channels m.channel && found c.flow.trigger.pattern m.text

  pub on_message : (Str → Str → Bool) → Engine Config → InboundMessage → List (Run Config)
  unfolding run_commands
  on_message found e m =
      map (run_with (message_bag e m)) (keep (is_matched found m) e.flows.matches)
      ++ run_commands e m

  pub on_user_event : Engine Config → UserEvent → List (Run Config)
  unfolding bag_from_event
  on_user_event e ev =
      let bag =
        insert (codes "owner") e.owner (insert (codes "platform") e.platform (bag_from_event ev)) in
      map (run_with bag) (
        keep
          (λ c.
            c.flow.trigger.event == ev.kind
            && channel_allowed c.channels (ev.field (codes "channel")))
          e.flows.events)

  -- `none` is the result false.
  pub fire_webhook : Engine Config → Str → Bag → Option (Run Config)
  fire_webhook e name bag = elim (lookup (to_lower (trim_space name)) e.flows.webhooks) [
    | none ↦ none
    | some c ↦
        let seeded : Bag = elim c.flow.trigger.channels [
          | [] ↦ bag
          | channel ∷ rest ↦ insert (codes "channel") channel bag
        ] in
        some (
          run_with (insert (codes "owner") e.owner (insert (codes "platform") e.platform seeded)) c)
  ]
