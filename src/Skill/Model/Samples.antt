-- ===== src/Skill/Model/Samples.antt =====
-- Two skills, as samples: a command and a schedule.
use turborg.Base.{[], none, ◌∷◌}
use turborg.Base.Text.{codes}
use turborg.Skill.Model.{Skill}

abbrev pub hello : Skill
hello = record {
  name = codes "hello";
  access = codes "everyone";
  allowlist = [];
  trigger = record {
    kind = [];
    command = [];
    event = [];
    pattern = [];
    schedule = [];
    channels = codes "#go" ∷ [];
  };
  action = record {
    kind = codes "static";
    template = codes "hi {user}";
    instructions = [];
    model = [];
    effect = none;
    webhook = [];
  };
}

abbrev pub hourly : Skill
hourly = record hello {
  name = codes "hourly";
  trigger = record hello.trigger { kind = codes "schedule"; schedule = codes "1h" };
}
