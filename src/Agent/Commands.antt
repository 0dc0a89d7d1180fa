-- ===== src/Agent/Commands.antt =====
-- internal/agent/commands.go: the registry of commands, the parser of command lines and the
-- dispatch. Handlers and guards are functions of the envelope; what a handler does besides
-- answering is its own. The envelope has the fields that the registry reads or writes and those
-- that a handler needs to answer.
pub mod Parsing
pub mod Replacing
pub mod Reloaded
pub mod Registering
pub mod Dispatching
mod Examples
use turborg.Base.Text.{is_empty, to_lower}
use turborg.Base.Map.{Map, insert, keys, lookup}
use turborg.Base.Int.{is_minus_one, le_pos, pos, ℤ}
use turborg.Base.Text.Split.{fields, strip_prefix, trim_left}
use turborg.Base.{
  Bool, List, Option, Str, [], false, if◌then◌else◌, is_some, nat_beq, none, not, some, str_eq, suc,
  true, ℕ, ◌&&◌, ◌||◌, ◌∷◌,
}
use turborg.Base.Result.{Run, done, panicked}

pub record InboundEnvelope : Type 0 where
  pub connector : Str
  pub channel : Str
  pub sender : Str
  pub text : Str
  pub is_direct : Bool
  pub command : Str
  pub args : List Str

abbrev pub CommandGuard : Type 0
CommandGuard = InboundEnvelope → Bool

-- The envelope to send and the error, both of which may be nil.
abbrev pub Reply : Type 0 → Type 0 → Type 0
Reply Out Error = Option Out × Option Error

abbrev pub CommandHandler : Type 0 → Type 0 → Type 0
CommandHandler Out Error = InboundEnvelope → List Str → Reply Out Error

pub record CommandEntry (Out Error : Type 0) : Type 0 where
  pub name : Str
  pub handler : CommandHandler Out Error
  pub guard : Option CommandGuard
  pub dynamic : Bool

pub record DynamicCommand (Out Error : Type 0) : Type 0 where
  pub name : Str
  pub handler : CommandHandler Out Error
  pub guard : Option CommandGuard

pub record CommandRegistry (Out Error : Type 0) : Type 0 where
  pub prefix : Str
  pub commands : Map Str (CommandEntry Out Error)
  pub guard : Option CommandGuard
  pub max_dynamic : ℤ
  pub dynamic_count : ℕ

-- A guard that is nil lets everything pass.
abbrev pub passes : Option CommandGuard → InboundEnvelope → Bool
passes none env = true
passes (some g) env = g env

-- The bytes that Parse trims: space and tab.
abbrev pub is_blank : ℕ → Bool
is_blank c = nat_beq c 32 || nat_beq c 9

-- `parts[0]` and `parts[1:]`: the index is out of range where there is no part.
abbrev pub first_part : List Str → Run (Option (Str × List Str))
first_part [] = panicked
first_part (word ∷ args) = done (some (to_lower word, args))

-- What follows the prefix.
abbrev pub parse_rest : Option Str → Run (Option (Str × List Str))
parse_rest none = done none
parse_rest (some rest) =
    let rest = trim_left is_blank rest in
    if is_empty rest then done none else first_part (fields rest)

-- r.maxDynamic != -1 && r.dynamicCount >= r.maxDynamic
abbrev pub at_cap : ℤ → ℕ → Bool
at_cap limit n = not (is_minus_one limit) && le_pos limit n

module _ {Out Error : Type 0} where
  pub new_command_registry : Str → CommandRegistry Out Error
  new_command_registry prefix = record {
    prefix = if is_empty prefix then b'!' ∷ [] else prefix;
    commands = [];
    guard = none;
    max_dynamic = pos 0;
    dynamic_count = 0;
  }

  pub set_guard : Option CommandGuard → CommandRegistry Out Error → CommandRegistry Out Error
  set_guard g r = record r { guard = g }

  pub set_max_dynamic : ℤ → CommandRegistry Out Error → CommandRegistry Out Error
  set_max_dynamic n r = record r { max_dynamic = n }

  pub register :
      Str
      → CommandHandler Out Error
      → Option CommandGuard
      → CommandRegistry Out Error
      → CommandRegistry Out Error
  register name handler guard r =
      let key = to_lower name in
      record r {
        commands =
            insert key (record { name = key; handler = handler; guard = guard; dynamic = false })
              r.commands;
      }

  -- The registry and whether ErrDynamicCommandLimit is returned.
  pub register_dynamic :
      Str
      → CommandHandler Out Error
      → Option CommandGuard
      → CommandRegistry Out Error
      → CommandRegistry Out Error × Bool
  register_dynamic name handler guard r =
      let key = to_lower name in
      let already_exists = is_some (lookup key r.commands) in
      if not already_exists && at_cap r.max_dynamic r.dynamic_count then (r, true) else (
        record r {
          commands =
              insert key (record { name = key; handler = handler; guard = guard; dynamic = true })
                r.commands;
          dynamic_count = if already_exists then r.dynamic_count else suc r.dynamic_count;
        },
        false,
      )

  -- The loop that deletes the dynamic entries.
  pub statics : Map Str (CommandEntry Out Error) → Map Str (CommandEntry Out Error)
  statics [] = []
  statics ((key, e) ∷ es) = let rest = statics es in if e.dynamic then rest else (key, e) ∷ rest

  abbrev pub as_entry : Str → DynamicCommand Out Error → CommandEntry Out Error
  as_entry key c = record { name = key; handler = c.handler; guard = c.guard; dynamic = true }

  -- One round of the second loop, from what the map has at the key.
  abbrev pub install_at :
      Str
      → DynamicCommand Out Error
      → CommandRegistry Out Error
      → Option (CommandEntry Out Error)
      → CommandRegistry Out Error
  install_at key c r (some existing) =
      if not existing.dynamic
      then r
      else record r { commands = insert key (as_entry key c) r.commands }
  install_at key c r none = if at_cap r.max_dynamic r.dynamic_count then r else record r {
    commands = insert key (as_entry key c) r.commands;
    dynamic_count = suc r.dynamic_count;
  }

  pub install : DynamicCommand Out Error → CommandRegistry Out Error → CommandRegistry Out Error
  install c r = let key = to_lower c.name in install_at key c r (lookup key r.commands)

  pub install_all :
      List (DynamicCommand Out Error) → CommandRegistry Out Error → CommandRegistry Out Error
  unfolding install
  install_all [] r = r
  install_all (c ∷ cs) r = install_all cs (install c r)

  pub replace_dynamic :
      List (DynamicCommand Out Error) → CommandRegistry Out Error → CommandRegistry Out Error
  unfolding statics install_all
  replace_dynamic cmds r =
      install_all cmds (record r { commands = statics r.commands; dynamic_count = 0 })

  pub names : CommandRegistry Out Error → List Str
  names r = keys r.commands

  pub parse : Str → CommandRegistry Out Error → Run (Option (Str × List Str))
  parse text r = parse_rest (strip_prefix r.prefix text)

  -- From the entry on: the envelope is filled in, then the guards run, then the handler.
  abbrev pub run_entry :
      CommandRegistry Out Error
      → InboundEnvelope
      → Str
      → List Str
      → Option (CommandEntry Out Error)
      → Run (InboundEnvelope × Reply Out Error)
  run_entry r env name args none = done (env, (none, none))
  run_entry r env name args (some entry) =
      let env' = record env { command = name; args = args } in
      if not (passes r.guard env')
      then done (env', (none, none))
      else if not (passes entry.guard env')
      then done (env', (none, none))
      else done (env', entry.handler env' args)

  abbrev pub run_parsed :
      CommandRegistry Out Error
      → InboundEnvelope
      → Run (Option (Str × List Str))
      → Run (InboundEnvelope × Reply Out Error)
  run_parsed r env panicked = panicked
  run_parsed r env (done none) = done (env, (none, none))
  run_parsed r env (done (some (name, args))) = run_entry r env name args (lookup name r.commands)

  pub dispatch :
      InboundEnvelope → CommandRegistry Out Error → Run (InboundEnvelope × Reply Out Error)
  dispatch env r = run_parsed r env (parse env.text r)
