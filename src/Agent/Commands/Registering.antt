-- ===== src/Agent/Commands/Registering.antt =====
-- Single registrations in commands.go, and what they do to the count of dynamic commands.
use turborg.Base.Text.{to_lower}
use turborg.Base.Map.{lookup-insert, Map, insert, lookup}
use turborg.Base.{
  beq_refl, refl, Option, Str, [], arith, false, none, some, str_eq, suc, true, ◌∷◌, ◌≡◌,
}
use turborg.Agent.Commands.{
  CommandEntry, CommandHandler, CommandGuard, CommandRegistry, register_dynamic,
}
use turborg.Agent.Commands.Replacing.{static_only, dynamics, IsCounted, dynamics-insert, cap_kept}

module _ {Out Error : Type 0} where
  dynamics-insert_static :
      (key : Str) (e : CommandEntry Out Error) (m : Map Str (CommandEntry Out Error))
      (old : CommandEntry Out Error)
      → e.dynamic ≡ true
      → lookup key m ≡ some old
      → old.dynamic ≡ false
      → dynamics (insert key e m) ≡ suc (dynamics m)
  unfolding dynamics insert lookup
  dynamics-insert_static key e [] old h n s = cc
  dynamics-insert_static key e ((j, x) ∷ es) old h n s =
      ground (arith, dynamics-insert_static key e es old)

  module _ (name : Str) (handler : CommandHandler Out Error) (guard : Option CommandGuard)
      (r : CommandRegistry Out Error) where
    abbrev entry_for : CommandEntry Out Error
    entry_for = record { name = to_lower name; handler = handler; guard = guard; dynamic = true }

    -- A registration under a name that is no built-in command keeps the count right and within the
    -- cap, whether it is accepted or refused.
    pub register_dynamic-IsCounted :
        static_only (lookup (to_lower name) r.commands) ≡ none
        → IsCounted r
        → IsCounted (register_dynamic name handler guard r).0
    unfolding register_dynamic
    register_dynamic-IsCounted n h =
        let key = to_lower name in
        let more = dynamics-insert key entry_for r.commands refl n in
        record {
          counted = ground (arith, h.counted, more);
          capped = ground (arith, h.capped, cap_kept r.max_dynamic r.dynamic_count h.capped);
        }

    -- Under the name of a built-in command a registration is accepted at every cap, also where no
    -- dynamic command is allowed: it takes the place of the built-in one, and there is one dynamic
    -- entry more than before at the same count.
    pub register_dynamic_shadows :
        (old : CommandEntry Out Error)
        → lookup (to_lower name) r.commands ≡ some old
        → old.dynamic ≡ false
        → let r' = (register_dynamic name handler guard r).0 in
          ((register_dynamic name handler guard r).1 ≡ false)
          × (lookup (to_lower name) r'.commands ≡ some entry_for)
          × (dynamics r'.commands ≡ suc (dynamics r.commands))
          × (r'.dynamic_count ≡ r.dynamic_count)
    unfolding register_dynamic
    register_dynamic_shadows old e s =
        let key = to_lower name in
        (
          ground (arith, e),
          ground (arith, e, lookup-insert key key entry_for r.commands, beq_refl key),
          ground (arith, e, dynamics-insert_static key entry_for r.commands old refl e s),
          ground (arith, e),
        )
