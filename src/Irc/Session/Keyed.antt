-- ===== src/Irc/Session/Keyed.antt =====
-- The key of a tracked channel is its name in lower case, whatever lines arrive.
use turborg.Base.{
  ℕ, nat_eq, keep, Bool, List, Option, Str, [], ◌∷◌, none, some, true, false, Option-cases,
  Bool-cases, arith, inl, inr, refl, ◌≡◌, ◌∙◌, All, ap, str_eq, str_beq_iff, ◌==◌, if◌then◌else◌,
}
use turborg.Base.Map.{Map, insert, delete, lookup}
use turborg.Base.Text.{to_lower, is_empty}
use turborg.Irc.ChannelState.{
  ChannelInfo, ChannelState, update, each, new_info, on_self_join, on_names_reply, with_names,
  restart, set_member_prefix, with_prefix,
}
use turborg.Irc.Modes.{
  Reading, walk, walk_copy, step, on_letter, set_prefix, new_prefix, consumes_arg, take_arg,
  prefix_for_letter,
}

abbrev pub Keyed : Map Str ChannelInfo → Type 0
Keyed m = All (λ (e : Str × ChannelInfo). to_lower e.1.name ≡ e.0) m

insert-Keyed :
    (k : Str) (info : ChannelInfo) (m : Map Str ChannelInfo)
    → to_lower info.name ≡ k
    → Keyed m
    → Keyed (insert k info m)
unfolding insert
insert-Keyed k info [] h t = (h, tt)
insert-Keyed k info ((j, old) ∷ m) h (g, t) = elim (Bool-cases (j == k)) [
  | inl e ↦ rw e (h, t)
  | inr e ↦ rw e (g, insert-Keyed k info m h t)
]

pub delete-Keyed : (k : Str) (m : Map Str ChannelInfo) → Keyed m → Keyed (delete k m)
unfolding delete
delete-Keyed k [] t = tt
delete-Keyed k ((j, old) ∷ m) (g, t) = elim (Bool-cases (j == k)) [
  | inl e ↦ rw e (delete-Keyed k m t)
  | inr e ↦ rw e (g, delete-Keyed k m t)
]

pub Keyed-lookup :
    (k : Str) (info : ChannelInfo) (m : Map Str ChannelInfo)
    → Keyed m
    → lookup k m ≡ some info
    → to_lower info.name ≡ k
unfolding lookup
Keyed-lookup k info [] t h = absurd (ground arith)
Keyed-lookup k info ((j, old) ∷ m) (g, t) h = elim (Bool-cases (j == k)) [
  | inl e ↦ ground (arith, str_beq_iff j k)
  | inr e ↦ Keyed-lookup k info m t (ground arith)
]

-- The functions that keep the name of each channel.
abbrev pub Keeping : (ChannelInfo → ChannelInfo) → Type 0
Keeping f = (info : ChannelInfo) → (f info).name ≡ info.name

pub update-Keyed :
    (channel : Str) (f : ChannelInfo → ChannelInfo) (s : ChannelState)
    → Keeping f
    → Keyed s.channels
    → Keyed (update channel f s).channels
unfolding update
update-Keyed channel f s keep t =
    let key = to_lower channel in
    elim (Option-cases (lookup key s.channels)) [
      | inl e ↦ rw e t
      | inr (info, e) ↦ rw e (
          insert-Keyed key (f info) s.channels
            (ap to_lower (keep info) ∙ Keyed-lookup key info s.channels t e) t)
    ]

pub each-Keyed :
    (f : ChannelInfo → ChannelInfo) (m : Map Str ChannelInfo)
    → Keeping f
    → Keyed m
    → Keyed (each f m)
unfolding each
each-Keyed f [] keep t = tt
each-Keyed f ((k, info) ∷ m) keep (g, t) = (ap to_lower (keep info) ∙ g, each-Keyed f m keep t)

pub join-Keyed :
    (channel : Str) (s : ChannelState) → Keyed s.channels → Keyed (on_self_join channel s).channels
unfolding on_self_join
join-Keyed channel s t =
    let key = to_lower channel in
    elim (Option-cases (lookup key s.channels)) [
      | inl e ↦ rw e (insert-Keyed key (new_info channel) s.channels refl t)
      | inr (info, e) ↦ rw e t
    ]

restart-Keeping : (info : ChannelInfo) → (restart info).name ≡ info.name
restart-Keeping info = ground arith

pub names-Keyed :
    (channel : Str) (entries : List Str) (s : ChannelState)
    → Keyed s.channels
    → Keyed (on_names_reply channel entries s).channels
unfolding on_names_reply
names-Keyed channel entries s t =
    let key = to_lower channel in
    elim (Option-cases (lookup key s.channels)) [
      | inl e ↦ rw e (insert-Keyed key (with_names entries (new_info channel)) s.channels refl t)
      | inr (info, e) ↦ rw e (
          insert-Keyed key (with_names entries (restart info)) s.channels
            (ap to_lower (restart-Keeping info) ∙ Keyed-lookup key info s.channels t e) t)
    ]

pub if-Keyed :
    (b : Bool) (s t : ChannelState)
    → Keyed s.channels
    → Keyed t.channels
    → Keyed (if b then s else t).channels
if-Keyed true s t c d = c
if-Keyed false s t c d = d

set_member_prefix-Keyed :
    (channel nick prefix : Str) (s : ChannelState)
    → Keyed s.channels
    → Keyed (set_member_prefix channel nick prefix s).channels
unfolding set_member_prefix
set_member_prefix-Keyed channel nick prefix s t =
    if-Keyed (is_empty nick) s (update channel (with_prefix nick prefix) s) t
      (update-Keyed channel (with_prefix nick prefix) s (λ info. refl) t)

on_letter-Keyed :
    (channel nick : Str) (adding : Bool) (o current : Option Str) (s : ChannelState)
    → Keyed s.channels
    → Keyed (on_letter channel nick adding o current s).channels
on_letter-Keyed channel nick adding none current s t = t
on_letter-Keyed channel nick adding (some prefix) none s t = if-Keyed (is_empty nick) s s t t
on_letter-Keyed channel nick adding (some prefix) (some current) s t =
    if-Keyed (is_empty nick) s (set_prefix channel nick (new_prefix adding prefix current) s) t
      (written (new_prefix adding prefix current))
  where
    written : (o : Option Str) → Keyed (set_prefix channel nick o s).channels
    written none = t
    written (some p) = set_member_prefix-Keyed channel nick p s t

step-Keyed :
    (read : Reading) (channel : Str) (c : ℕ) (adding : Bool) (args : List Str) (s : ChannelState)
    → Keyed s.channels
    → Keyed (step read channel c adding args s).2.channels
unfolding step
step-Keyed read channel c adding args s t = elim (Bool-cases (c == b'+')) [
  | inl e ↦ rw e t
  | inr e ↦ elim (Bool-cases (c == b'-')) [
    | inl f ↦ rw (e, f) t
    | inr f ↦
        let (arg, rest) = take_arg (consumes_arg adding c) args in
        rw (e, f) (on_letter-Keyed channel arg adding (prefix_for_letter c) (read s arg) s t)
  ]
]

walk-Keyed :
    (read : Reading) (channel modes : Str) (adding : Bool) (args : List Str) (s : ChannelState)
    → Keyed s.channels
    → Keyed (walk read channel modes adding args s).channels
unfolding walk
walk-Keyed read channel [] adding args s t = t
walk-Keyed read channel (c ∷ modes) adding args s t =
    let r = step read channel c adding args s in
    walk-Keyed read channel modes r.0 r.1 r.2 (step-Keyed read channel c adding args s t)

pub walk_copy-Keyed :
    (channel modes : Str) (args : List Str) (o : Option ChannelInfo) (s : ChannelState)
    → Keyed s.channels
    → Keyed (walk_copy channel modes args o s).channels
walk_copy-Keyed channel modes args none s t = t
walk_copy-Keyed channel modes args (some info) s t =
    walk-Keyed (λ _ nick. lookup nick info.members) channel modes true args s t
