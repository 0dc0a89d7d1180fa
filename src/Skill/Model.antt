-- ===== src/Skill/Model.antt =====
-- internal/skill/skill.go: skills, and the flat form that they are written in. JSON itself is
-- outside; Wire is the struct that encoding/json reads and writes.
pub mod Wires
pub mod Samples
mod Examples
use turborg.Base.{
  Bool, List, Option, Str, [], none, some, zero, ◌++◌, ◌+◌, ◌∷◌, ◌||◌, if◌then◌else◌, ℕ, str_eq,
  ◌==◌,
}
use turborg.Base.Int.{ℤ}
use turborg.Base.Text.{codes, is_empty}

pub record Thresholds : Type 0 where
  pub warn : ℤ
  pub mute : ℤ
  pub kick : ℤ
  pub ban : ℤ

pub record Effect : Type 0 where
  pub action : Str
  pub modes : Str
  pub reason : Str
  pub thresholds : Option Thresholds
  pub duration_seconds : ℤ

-- `pattern` is the field Match.
pub record Trigger : Type 0 where
  pub kind : Str
  pub command : Str
  pub event : Str
  pub pattern : Str
  pub schedule : Str
  pub channels : List Str

pub record Action : Type 0 where
  pub kind : Str
  pub template : Str
  pub instructions : Str
  pub model : Str
  pub effect : Option Effect
  pub webhook : Str

pub record Skill : Type 0 where
  pub name : Str
  pub access : Str
  pub allowlist : List Str
  pub trigger : Trigger
  pub action : Action

pub record Wire : Type 0 where
  pub name : Str
  pub kind : Str
  pub template : Str
  pub instructions : Str
  pub model : Str
  pub access : Str
  pub allowlist : List Str
  pub trigger_kind : Str
  pub event : Str
  pub pattern : Str
  pub schedule : Str
  pub channels : List Str
  pub effect : Option Effect
  pub webhook : Str

abbrev pub kind_command : Str
kind_command = codes "command"

unfoldable pub unmarshal_wire : Wire → Skill
unmarshal_wire w = record {
  name = w.name;
  access = w.access;
  allowlist = w.allowlist;
  trigger = record {
    kind = if is_empty w.trigger_kind then kind_command else w.trigger_kind;
    command = [];
    event = w.event;
    pattern = w.pattern;
    schedule = w.schedule;
    channels = w.channels;
  };
  action = record {
    kind = w.kind;
    template = w.template;
    instructions = w.instructions;
    model = w.model;
    effect = w.effect;
    webhook = w.webhook;
  };
}

unfoldable pub is_command : Skill → Bool
is_command s = is_empty s.trigger.kind || s.trigger.kind == kind_command

unfoldable pub marshal_wire : Skill → Wire
unfolding is_command
marshal_wire s = record {
  name = s.name;
  kind = s.action.kind;
  template = s.action.template;
  instructions = s.action.instructions;
  model = s.action.model;
  access = s.access;
  allowlist = s.allowlist;
  trigger_kind = if is_command s then [] else s.trigger.kind;
  event = s.trigger.event;
  pattern = s.trigger.pattern;
  schedule = s.trigger.schedule;
  channels = s.trigger.channels;
  effect = s.action.effect;
  webhook = s.action.webhook;
}

-- commands.Definition, as ToDefinition fills it.
pub record Definition : Type 0 where
  pub name : Str
  pub kind : Str
  pub template : Str
  pub instructions : Str
  pub model : Str
  pub access : Str
  pub allowlist : List Str

unfoldable pub to_definition : Skill → Definition
to_definition s = record {
  name = s.name;
  kind = s.action.kind;
  template = s.action.template;
  instructions = s.action.instructions;
  model = s.action.model;
  access = s.access;
  allowlist = s.allowlist;
}

-- Split
unfoldable pub split_skills : List Skill → List Definition × List Skill
unfolding is_command to_definition
split_skills [] = ([], [])
split_skills (s ∷ ss) =
    let (cmds, engine) = split_skills ss in
    if is_command s then (to_definition s ∷ cmds, engine) else (cmds, s ∷ engine)
