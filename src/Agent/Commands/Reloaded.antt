-- ===== src/Agent/Commands/Reloaded.antt =====
-- What a name stands for after the hot reload of commands.go.
use turborg.Base.Text.{to_lower}
use turborg.Base.Int.{is_minus_one}
use turborg.Base.{
  Bool-cases, contains, ap, not, str_beq_iff, ◌==◌, ◌∙◌, List, Option-cases, inl, inr, Option, Str,
  [], arith, false, if◌then◌else◌, none, refl, some, str_eq, true, ◌∷◌, ◌≡◌,
}
use turborg.Base.Map.{lookup-insert, Map, lookup, IsMap, keys, contains-keys}
use turborg.Agent.Commands.{
  CommandEntry, DynamicCommand, CommandRegistry, statics, install, install_all, replace_dynamic,
  as_entry,
}
use turborg.Agent.Commands.Replacing.{is_dynamic, static_only, install-SameRest}

module _ {Out Error : Type 0} where
  -- The last command of a batch with that key, as it is installed.
  unfoldable pub last_named :
      Str → List (DynamicCommand Out Error) → Option (CommandEntry Out Error)
  last_named k [] = none
  last_named k (c ∷ cs) =
      let later = last_named k cs in
      let key = to_lower c.name in
      elim later [ some e ↦ some e | none ↦ if key == k then some (as_entry key c) else none ]

  -- What a key holds after a batch, from what it held before: a built-in entry stays.
  abbrev pub reloaded :
      Option (CommandEntry Out Error)
      → Option (CommandEntry Out Error)
      → Option (CommandEntry Out Error)
  reloaded none batch = batch
  reloaded (some old) batch =
      if not old.dynamic then some old else elim batch [ none ↦ some old | some e ↦ some e ]

  lookup-install :
      (k : Str) (c : DynamicCommand Out Error) (r : CommandRegistry Out Error)
      → is_minus_one r.max_dynamic ≡ true
      → lookup k (install c r).commands ≡ reloaded (lookup k r.commands) (last_named k (c ∷ []))
  unfolding install last_named
  lookup-install k c r h =
      let key = to_lower c.name in
      elim (Option-cases (lookup key r.commands)) [
        | inl e ↦
            ground (arith, e, h, str_beq_iff key k, lookup-insert key k (as_entry key c) r.commands)
        | inr (x, e) ↦
            ground (arith, e, h, str_beq_iff key k, lookup-insert key k (as_entry key c) r.commands)
      ]

  lookup-install_all :
      (k : Str) (cs : List (DynamicCommand Out Error)) (r : CommandRegistry Out Error)
      → is_minus_one r.max_dynamic ≡ true
      → lookup k (install_all cs r).commands ≡ reloaded (lookup k r.commands) (last_named k cs)
  unfolding install_all last_named
  lookup-install_all k [] r h = ground arith
  lookup-install_all k (c ∷ cs) r h = ground (
    arith,
    lookup-install k c r h,
    lookup-install_all k cs (install c r) (ap is_minus_one (install-SameRest c r).same_max ∙ h),
  )

  -- The built-in entries, as the cleared registry holds them.
  lookup-statics :
      (k : Str) (m : Map Str (CommandEntry Out Error)) → is_dynamic (lookup k (statics m)) ≡ false
  unfolding statics lookup
  lookup-statics k [] = refl
  lookup-statics k ((j, x) ∷ es) = ground (arith, lookup-statics k es)

  -- In a map without duplicate keys, deleting the dynamic entries leaves the built-in ones.
  lookup-static_only :
      (k : Str) (m : Map Str (CommandEntry Out Error))
      → IsMap m
      → lookup k (statics m) ≡ static_only (lookup k m)
  unfolding statics lookup keys
  lookup-static_only k [] h = refl
  lookup-static_only k ((j, x) ∷ es) (fresh, h) = elim (Bool-cases (j == k)) [
    | inl e ↦
        let same = (str_beq_iff j k).0 e in
        ground (
          arith,
          e,
          lookup-static_only k es h,
          contains-keys k es,
          fresh,
          ap (λ (y : Str). contains y (keys es)) same,
        )
    | inr e ↦ ground (arith, e, lookup-static_only k es h)
  ]

  lookup-statics_kept :
      (k : Str) (m : Map Str (CommandEntry Out Error)) (e : CommandEntry Out Error)
      → lookup k m ≡ some e
      → e.dynamic ≡ false
      → lookup k (statics m) ≡ some e
  unfolding statics lookup
  lookup-statics_kept k [] e h s = cc
  lookup-statics_kept k ((j, x) ∷ es) e h s = ground (arith, lookup-statics_kept k es e)

  -- With the cap lifted, in a registry without duplicate names, a reload makes of each key exactly
  -- this: a built-in entry stays as it was, whatever the batch says of its name; else the last
  -- command of the batch with that name is installed, and a name that the batch does not have is
  -- gone.
  pub lookup-replace_dynamic :
      (k : Str) (cmds : List (DynamicCommand Out Error)) (r : CommandRegistry Out Error)
      → is_minus_one r.max_dynamic ≡ true
      → IsMap r.commands
      → lookup k (replace_dynamic cmds r).commands
        ≡ elim (static_only (lookup k r.commands)) [ none ↦ last_named k cmds | some e ↦ some e ]
  unfolding replace_dynamic
  lookup-replace_dynamic k cmds r h distinct =
      let cleared : CommandRegistry Out Error = record r {
        commands = statics r.commands;
        dynamic_count = 0;
      } in
      ground (
        arith,
        lookup-install_all k cmds cleared h,
        lookup-statics k r.commands,
        lookup-static_only k r.commands distinct,
      )

  install_keeps :
      (k : Str) (e : CommandEntry Out Error) (c : DynamicCommand Out Error)
      (r : CommandRegistry Out Error)
      → lookup k r.commands ≡ some e
      → e.dynamic ≡ false
      → lookup k (install c r).commands ≡ some e
  unfolding install
  install_keeps k e c r h s =
      let key = to_lower c.name in
      elim (Option-cases (lookup key r.commands)) [
        | inl n ↦
            ground (arith, n, str_beq_iff key k, lookup-insert key k (as_entry key c) r.commands)
        | inr (x, n) ↦
            ground (arith, n, str_beq_iff key k, lookup-insert key k (as_entry key c) r.commands)
      ]

  install_all_keeps :
      (k : Str) (e : CommandEntry Out Error) (cs : List (DynamicCommand Out Error))
      (r : CommandRegistry Out Error)
      → lookup k r.commands ≡ some e
      → e.dynamic ≡ false
      → lookup k (install_all cs r).commands ≡ some e
  unfolding install_all
  install_all_keeps k e [] r h s = h
  install_all_keeps k e (c ∷ cs) r h s =
      install_all_keeps k e cs (install c r) (install_keeps k e c r h s) s

  -- No reload, at any cap, shadows or drops a built-in command.
  pub replace_dynamic_keeps :
      (k : Str) (e : CommandEntry Out Error) (cmds : List (DynamicCommand Out Error))
      (r : CommandRegistry Out Error)
      → lookup k r.commands ≡ some e
      → e.dynamic ≡ false
      → lookup k (replace_dynamic cmds r).commands ≡ some e
  unfolding replace_dynamic
  replace_dynamic_keeps k e cmds r h s =
      install_all_keeps k e cmds (record r { commands = statics r.commands; dynamic_count = 0 })
        (lookup-statics_kept k r.commands e h s) s
