-- ===== src/Agent/Commands/Replacing.antt =====
-- The hot reload of commands.go: what ReplaceDynamic leaves in the registry.
use turborg.Base.Text.{to_lower}
use turborg.Base.Int.{negsuc, pos, ℤ, clamp, is_minus_one}
use turborg.Base.{
  ap, ◌∙◌, Bool-cases, List, Option-cases, inl, inr, sym, zero, Bool, Option, Str, [], arith, false,
  if◌then◌else◌, is_some, none, refl, some, str_eq, suc, true, ℕ, ◌∷◌, ◌≡◌, ◌≤◌, ◌⊎◌,
}
use turborg.Base.Map.{Map, insert, lookup}
use turborg.Agent.Commands.{
  CommandEntry, DynamicCommand, CommandRegistry, statics, install, install_at, install_all,
  replace_dynamic, at_cap, as_entry,
}

pub cap_kept :
    (m : ℤ) (n : ℕ)
    → (is_minus_one m ≡ true) ⊎ (n ≤ clamp m)
    → at_cap m n ≡ false
    → (is_minus_one m ≡ true) ⊎ (suc n ≤ clamp m)
cap_kept (pos k) n (inl h) a = cc
cap_kept (pos k) n (inr h) a = inr (ground (arith, a))
cap_kept (negsuc zero) n h a = inl refl
cap_kept (negsuc (suc k)) n h a = cc

module _ {Out Error : Type 0} where
  -- How many entries are dynamic.
  unfoldable pub dynamics : Map Str (CommandEntry Out Error) → ℕ
  dynamics [] = 0
  dynamics ((key, e) ∷ es) = let rest = dynamics es in if e.dynamic then suc rest else rest

  abbrev pub is_dynamic : Option (CommandEntry Out Error) → Bool
  is_dynamic none = false
  is_dynamic (some e) = e.dynamic

  -- The entry of a built-in command.
  abbrev pub static_only : Option (CommandEntry Out Error) → Option (CommandEntry Out Error)
  static_only none = none
  static_only (some e) = if e.dynamic then none else some e

  pub statics-statics : (m : Map Str (CommandEntry Out Error)) → statics (statics m) ≡ statics m
  unfolding statics
  statics-statics [] = refl
  statics-statics ((key, e) ∷ es) = ground (arith, statics-statics es)

  pub dynamics-statics : (m : Map Str (CommandEntry Out Error)) → dynamics (statics m) ≡ 0
  unfolding statics dynamics
  dynamics-statics [] = refl
  dynamics-statics ((key, e) ∷ es) = ground (arith, dynamics-statics es)

  -- A dynamic entry at a new key, or over another dynamic one, leaves the built-in ones alone.
  pub statics-insert :
      (key : Str) (e : CommandEntry Out Error) (m : Map Str (CommandEntry Out Error))
      → e.dynamic ≡ true
      → static_only (lookup key m) ≡ none
      → statics (insert key e m) ≡ statics m
  unfolding statics insert lookup
  statics-insert key e [] h n = ground (arith, h)
  statics-insert key e ((j, x) ∷ es) h n = ground (arith, h, statics-insert key e es h)

  pub dynamics-insert :
      (key : Str) (e : CommandEntry Out Error) (m : Map Str (CommandEntry Out Error))
      → e.dynamic ≡ true
      → static_only (lookup key m) ≡ none
      → dynamics (insert key e m)
        ≡ (if is_some (lookup key m) then dynamics m else suc (dynamics m))
  unfolding dynamics insert lookup
  dynamics-insert key e [] h n = ground (arith, h)
  dynamics-insert key e ((j, x) ∷ es) h n = ground (arith, h, dynamics-insert key e es h)

  -- The count is that of the dynamic entries, and is within the cap unless the cap is -1.
  pub record IsCounted (r : CommandRegistry Out Error) : Type 0 where
    pub counted : r.dynamic_count ≡ dynamics r.commands
    pub capped : (is_minus_one r.max_dynamic ≡ true) ⊎ (r.dynamic_count ≤ clamp r.max_dynamic)

  pub install-IsCounted :
      (c : DynamicCommand Out Error) (r : CommandRegistry Out Error)
      → IsCounted r
      → IsCounted (install c r)
  unfolding install
  install-IsCounted c r h =
      let key = to_lower c.name in
      let more = dynamics-insert key (as_entry key c) r.commands refl in
      elim (Option-cases (lookup key r.commands)) [
        | inl e ↦ rw e (fresh key e)
        | inr (x, e) ↦ rw e (record {
          counted = ground (arith, h.counted, e, more);
          capped = ground (arith, h.capped);
        })
      ]
    where
      fresh : (key : Str) → lookup key r.commands ≡ none → IsCounted (install_at key c r none)
      fresh key e = elim (Bool-cases (at_cap r.max_dynamic r.dynamic_count)) [
        | inl full ↦ rw full h
        | inr room ↦ rw room (record {
          counted =
              ground (arith, h.counted, e, dynamics-insert key (as_entry key c) r.commands refl);
          capped = cap_kept r.max_dynamic r.dynamic_count h.capped room;
        })
      ]

  pub install_all-IsCounted :
      (cs : List (DynamicCommand Out Error)) (r : CommandRegistry Out Error)
      → IsCounted r
      → IsCounted (install_all cs r)
  unfolding install_all
  install_all-IsCounted [] r h = h
  install_all-IsCounted (c ∷ cs) r h =
      install_all-IsCounted cs (install c r) (install-IsCounted c r h)

  -- After a reload the count is the number of dynamic entries, whatever it was before, and it is
  -- within the cap unless the cap is -1.
  pub replace_dynamic-IsCounted :
      (cmds : List (DynamicCommand Out Error)) (r : CommandRegistry Out Error)
      → IsCounted (replace_dynamic cmds r)
  unfolding replace_dynamic
  replace_dynamic-IsCounted cmds r =
      install_all-IsCounted cmds (record r { commands = statics r.commands; dynamic_count = 0 })
        (record { counted = sym (dynamics-statics r.commands); capped = inr (omega arith) })

  -- What installing leaves alone.
  pub record SameRest (r s : CommandRegistry Out Error) : Type 0 where
    pub same_statics : statics s.commands ≡ statics r.commands
    pub same_prefix : s.prefix ≡ r.prefix
    pub same_guard : s.guard ≡ r.guard
    pub same_max : s.max_dynamic ≡ r.max_dynamic

  pub install-SameRest :
      (c : DynamicCommand Out Error) (r : CommandRegistry Out Error) → SameRest r (install c r)
  unfolding install
  install-SameRest c r =
      let key = to_lower c.name in
      let kept = statics-insert key (as_entry key c) r.commands refl in
      elim (Option-cases (lookup key r.commands)) [
        | inl e ↦ rw e (record {
          same_statics = ground (arith, e, kept);
          same_prefix = ground arith;
          same_guard = ground arith;
          same_max = ground arith;
        })
        | inr (x, e) ↦ rw e (record {
          same_statics = ground (arith, e, kept);
          same_prefix = ground arith;
          same_guard = ground arith;
          same_max = ground arith;
        })
      ]

  pub install_all-SameRest :
      (cs : List (DynamicCommand Out Error)) (r : CommandRegistry Out Error)
      → SameRest r (install_all cs r)
  unfolding install_all
  install_all-SameRest [] r = record {
    same_statics = refl;
    same_prefix = refl;
    same_guard = refl;
    same_max = refl;
  }
  install_all-SameRest (c ∷ cs) r =
      let first = install-SameRest c r in
      let rest = install_all-SameRest cs (install c r) in
      record {
        same_statics = rest.same_statics ∙ first.same_statics;
        same_prefix = rest.same_prefix ∙ first.same_prefix;
        same_guard = rest.same_guard ∙ first.same_guard;
        same_max = rest.same_max ∙ first.same_max;
      }

  -- A reload depends on no earlier reload: of two in a row, the first leaves no trace.
  pub replace_dynamic_twice :
      (old new : List (DynamicCommand Out Error)) (r : CommandRegistry Out Error)
      → replace_dynamic new (replace_dynamic old r) ≡ replace_dynamic new r
  unfolding replace_dynamic
  replace_dynamic_twice old new r =
      let cleared : CommandRegistry Out Error = record r {
        commands = statics r.commands;
        dynamic_count = 0;
      } in
      let h = install_all-SameRest old cleared in
      ap (install_all new) (λ i. record {
        prefix = h.same_prefix i;
        commands = (h.same_statics ∙ statics-statics r.commands) i;
        guard = h.same_guard i;
        max_dynamic = h.same_max i;
        dynamic_count = 0;
      })
