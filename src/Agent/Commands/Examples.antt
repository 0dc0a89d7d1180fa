-- ===== src/Agent/Commands/Examples.antt =====
-- The theorems on commands.go at concrete inputs. Answers are numbers, errors are strings.
use turborg.Base.Text.{codes, to_lower}
use turborg.Base.Int.{negsuc}
use turborg.Base.Text.Split.{fields, strip_prefix, trim_left}
use turborg.Base.Map.{insert, lookup, keys}
use turborg.Base.{
  Str, [], arith, false, inr, length, none, refl, some, str_beq, str_eq, true, ℕ, ◌+◌, ◌↔◌, ◌∷◌,
  ◌≡◌,
}
use turborg.Base.Result.{done, panicked}
use turborg.Base.Text.Words.{IsBlank}
use turborg.Agent.Commands.{
  InboundEnvelope, CommandEntry, CommandHandler, DynamicCommand, CommandRegistry,
  new_command_registry, set_max_dynamic, register, replace_dynamic, parse, dispatch,
}
use turborg.Agent.Commands.Parsing.{parse_panics_iff}
use turborg.Agent.Commands.Replacing.{IsCounted, dynamics}
use turborg.Agent.Commands.Reloaded.{lookup-replace_dynamic, last_named}

abbrev answer : ℕ → CommandHandler ℕ Str
answer n env args = (some (n + length args), none)

abbrev empty_registry : CommandRegistry ℕ Str
empty_registry = new_command_registry []

abbrev helpful : CommandRegistry ℕ Str
helpful = register (codes "Help") (answer 10) none empty_registry

abbrev greet : DynamicCommand ℕ Str
greet = record { name = codes "Greet"; handler = answer 20; guard = none }

abbrev false_help : DynamicCommand ℕ Str
false_help = record { name = codes "HELP"; handler = answer 30; guard = none }

abbrev message : Str → InboundEnvelope
message text = record {
  connector = codes "irc";
  channel = codes "#go";
  sender = codes "ann";
  text = text;
  is_direct = false;
  command = [];
  args = [];
}

-- "!", a space, a vertical tab and a line feed.
parse_panics_iff_example :
    (parse (b'!' ∷ 32 ∷ 11 ∷ 10 ∷ []) helpful ≡ panicked)
    ↔ ((false ≡ false) × IsBlank (11 ∷ 10 ∷ []))
unfolding new_command_registry register trim_left
parse_panics_iff_example = parse_panics_iff helpful (32 ∷ 11 ∷ 10 ∷ [])

abbrev help_entry : CommandEntry ℕ Str
help_entry = record { name = codes "help"; handler = answer 10; guard = none; dynamic = false }

abbrev filled : InboundEnvelope
filled = record (message (codes "!HELP x")) { command = codes "help"; args = codes "x" ∷ [] }

help_answered : dispatch (message (codes "!HELP x")) helpful ≡ done (filled, (some 11, none))
unfolding new_command_registry register to_lower lookup insert str_beq dispatch parse strip_prefix
    trim_left fields
help_answered = refl

abbrev unlimited : CommandRegistry ℕ Str
unlimited = set_max_dynamic (negsuc 0) helpful

lookup-replace_dynamic_example :
    lookup (codes "greet") (replace_dynamic (greet ∷ false_help ∷ []) unlimited).commands
    ≡ some (record { name = codes "greet"; handler = answer 20; guard = none; dynamic = true })
unfolding new_command_registry register set_max_dynamic last_named to_lower lookup insert str_beq
    replace_dynamic keys
lookup-replace_dynamic_example =
    lookup-replace_dynamic (codes "greet") (greet ∷ false_help ∷ []) unlimited refl (refl, tt)

empty-IsCounted : IsCounted empty_registry
unfolding new_command_registry dynamics
empty-IsCounted = record { counted = refl; capped = inr (omega arith) }

-- A no-break space and an ideographic space have no word between them or around them.
wide_blank : fields (194 ∷ 160 ∷ 227 ∷ 128 ∷ 128 ∷ []) ≡ []
unfolding fields
wide_blank = refl

-- And they part two words.
wide_gap : fields (b'a' ∷ 194 ∷ 160 ∷ b'b' ∷ []) ≡ (b'a' ∷ []) ∷ (b'b' ∷ []) ∷ []
unfolding fields
wide_gap = refl
