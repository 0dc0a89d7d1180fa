-- ===== src/Flow/Trigger.antt =====
-- The trigger of a flow (internal/skill/skill.go: Trigger), as far as the flow engine reads it.
use turborg.Base.{List, Str}

pub record Trigger : Type 0 where
  pub kind : Str
  pub command : Str
  pub event : Str
  pub pattern : Str
  pub channels : List Str
