-- ===== src/Irc/ChannelState/Members.antt =====
-- The member lists of state.go: quits, nick changes, NAMES bursts and operator status.
use turborg.Base.Map.{insert-insert, Map, insert, lookup, lookup-delete, lookup-insert}
use turborg.Base.Text.{equal_fold, to_lower}
use turborg.Base.{
  ◌&&◌, Bool-cases, str_beq_iff, true, List, Option, Option-cases, Str, [], arith, beq_refl,
  if◌then◌else◌, inl, inr, is_some, none, refl, some, str_eq, ◌++◌, ◌==◌, ◌∷◌, ◌≡◌, ◌≢◌,
}
use mathlib.Core.Option
use turborg.Irc.ChannelState.{
  ChannelInfo, ChannelState, get, channels_containing, names_with, on_member_quit, on_nick_change,
  each, renamed, on_names_reply, on_names_end, add_names, with_names, restart, new_info,
  is_operator, member_is_operator, contains_any, operator_prefixes, with_renamed, without_member,
}
use turborg.Irc.ChannelState.Lookup.{lookup-each, lookup-update, lookup-names}

-- The prefix of a nick in a channel, if both are known.
abbrev pub prefix_in : Option ChannelInfo → Str → Option Str
prefix_in none nick = none
prefix_in (some info) nick = lookup nick info.members

names_with-quit :
    (nick : Str) (m : Map Str ChannelInfo) → names_with nick (each (without_member nick) m) ≡ []
unfolding names_with each
names_with-quit nick [] = refl
names_with-quit nick ((key, info) ∷ m) =
    ground (arith, lookup-delete nick nick info.members, beq_refl nick, names_with-quit nick m)

-- After a quit no channel contains the nick, and every other nick has the prefix that it had.
pub quit_everywhere :
    (nick channel other : Str) (s : ChannelState)
    → (channels_containing nick (on_member_quit nick s) ≡ [])
      × (prefix_in (get channel (on_member_quit nick s)) other
          ≡ (if nick == other then none else prefix_in (get channel s) other))
unfolding channels_containing on_member_quit get
quit_everywhere nick channel other s =
    let found = lookup (to_lower channel) s.channels in
    (
      ground (arith, names_with-quit nick s.channels),
      rw (lookup-each (to_lower channel) (without_member nick) s.channels) (after found),
    )
  where
    after :
        (o : Option ChannelInfo)
        → prefix_in (Option.map (without_member nick) o) other
          ≡ (if nick == other then none else prefix_in o other)
    after none = ground arith
    after (some info) = lookup-delete nick other info.members

lookup-renamed :
    (old new nick : Str) (m : Map Str Str)
    → lookup nick (renamed old new m) ≡ (
        if is_some (lookup old m)
        then (if old == nick then none else if new == nick then lookup old m else lookup nick m)
        else lookup nick m)
lookup-renamed old new nick m = elim (Option-cases (lookup old m)) [
  | inl e ↦ ground (arith, e)
  | inr (prefix, e) ↦
      ground
        (arith, e, lookup-delete old nick (insert new prefix m), lookup-insert new nick prefix m)
]

pub after_rename :
    (old new nick : Str) (o : Option ChannelInfo)
    → prefix_in (Option.map (with_renamed old new) o) nick ≡ (
        if is_some (prefix_in o old)
        then (if old == nick
            then none
            else if new == nick
            then prefix_in o old
            else prefix_in o nick)
        else prefix_in o nick)
after_rename old new nick none = refl
after_rename old new nick (some info) = lookup-renamed old new nick info.members

-- A nick change, in every channel: the old nick is gone, the new nick has the prefix of the old one
-- where that was a member, and nobody else is touched. The nicks differ.
pub nick_change_everywhere :
    (old new channel nick : Str) (s : ChannelState)
    → old ≢ new
    → let before = prefix_in (get channel s) in
      prefix_in (get channel (on_nick_change old new s)) nick ≡ (
        if old == nick
        then none
        else if new == nick && is_some (before old)
        then before old
        else before nick)
unfolding on_nick_change get
nick_change_everywhere old new channel nick s ne =
    let found = lookup (to_lower channel) s.channels in
    rw (lookup-each (to_lower channel) (with_renamed old new) s.channels)
      (ground (arith, after_rename old new nick found, str_beq_iff old nick, str_beq_iff new nick))

-- A nick change to the very same nick, on a channel where it is a member, drops the member: the
-- entry is written and then deleted.
pub nick_change_same :
    (nick channel : Str) (s : ChannelState)
    → prefix_in (get channel (on_nick_change nick nick s)) nick ≡ none
unfolding on_nick_change get
nick_change_same nick channel s =
    let found = lookup (to_lower channel) s.channels in
    rw (lookup-each (to_lower channel) (with_renamed nick nick) s.channels)
      (ground (arith, after_rename nick nick nick found, beq_refl nick))

add_names-append :
    (xs ys : List Str) (m : Map Str Str) → add_names (xs ++ ys) m ≡ add_names ys (add_names xs m)
unfolding add_names
add_names-append [] ys m = refl
add_names-append (x ∷ xs) ys m = add_names-append xs ys _

-- Two chunks of one NAMES burst are as good as one line with all the entries.
pub names_chunks :
    (channel : Str) (xs ys : List Str) (s : ChannelState)
    → on_names_reply channel ys (on_names_reply channel xs s) ≡ on_names_reply channel (xs ++ ys) s
unfolding on_names_reply
names_chunks channel xs ys s =
    let key = to_lower channel in
    elim (Option-cases (lookup key s.channels)) [
      | inl e ↦
          let one = with_names xs (new_info channel) in
          ground (
            arith,
            e,
            beq_refl key,
            lookup-insert key key one s.channels,
            insert-insert key one (with_names ys one) s.channels,
            add_names-append xs ys [],
          )
      | inr (info, e) ↦
          let one = with_names xs (restart info) in
          ground (
            arith,
            e,
            beq_refl key,
            lookup-insert key key one s.channels,
            insert-insert key one (with_names ys one) s.channels,
            add_names-append xs ys (restart info).members,
          )
    ]

-- The first NAMES line after a complete list replaces the list: what the channel holds is built
-- from that line alone, whoever was a member before.
pub names_fresh :
    (channel : Str) (entries : List Str) (s : ChannelState) (nick : Str)
    → prefix_in (get channel (on_names_reply channel entries (on_names_end channel s))) nick
      ≡ lookup nick (add_names entries [])
unfolding get on_names_end
names_fresh channel entries s nick =
    let key = to_lower channel in
    let s' = on_names_end channel s in
    elim (Option-cases (lookup key s.channels)) [
      | inl e ↦ ground (
        arith,
        e,
        beq_refl key,
        lookup-names key channel entries s',
        lookup-update key channel (λ info. record info { names_complete = true }) s,
      )
      | inr (info, e) ↦ ground (
        arith,
        e,
        beq_refl key,
        lookup-names key channel entries s',
        lookup-update key channel (λ info. record info { names_complete = true }) s,
      )
    ]

-- Some member is `nick` up to case, and has the prefix.
pub data HasMember (nick prefix : Str) : Map Str Str → Type 0 where
  here :
      (member : Str) (ms : Map Str Str)
      → equal_fold member nick ≡ true
      → HasMember nick prefix ((member, prefix) ∷ ms)
  there :
      (m : Str × Str) (ms : Map Str Str) → HasMember nick prefix ms → HasMember nick prefix (m ∷ ms)

member_sound :
    (nick : Str) (ms : Map Str Str)
    → member_is_operator nick ms ≡ true
    → (prefix : Str) × HasMember nick prefix ms × (contains_any prefix operator_prefixes ≡ true)
unfolding member_is_operator
member_sound nick [] h = cc
member_sound nick ((member, prefix) ∷ ms) h = elim (Bool-cases (equal_fold member nick)) [
  | inl e ↦ (prefix, here member ms e, ground arith)
  | inr e ↦
      let (p, m, o) = member_sound nick ms (ground arith) in (p, there (member, prefix) ms m, o)
]

-- Who is reported as an operator is a member of the channel, up to case, whose prefix is `@`, `&`
-- or `~`: a bot is never taken for an operator of a channel that it is not in.
pub operator_sound :
    (channel nick : Str) (s : ChannelState)
    → is_operator channel nick s ≡ true
    → (info : ChannelInfo) × (prefix : Str) × (get channel s ≡ some info)
      × HasMember nick prefix info.members
      × (contains_any prefix operator_prefixes ≡ true)
unfolding is_operator get
operator_sound channel nick s h = elim (Option-cases (lookup (to_lower channel) s.channels)) [
  | inl e ↦ ground (arith, e)
  | inr (info, e) ↦
      let (prefix, m, o) = member_sound nick info.members (ground (arith, e)) in
      (info, prefix, e, m, o)
]

-- No other member is the nick in another case.
abbrev pub OnlyCase : Str → Map Str Str → Type 0
OnlyCase nick [] = Unit
OnlyCase nick ((member, _) ∷ ms) =
    (equal_fold member nick ≡ true → member ≡ nick) × OnlyCase nick ms

equal_fold_refl : (s : Str) → equal_fold s s ≡ true
unfolding equal_fold
equal_fold_refl s = beq_refl (to_lower s)

member_exact :
    (nick prefix : Str) (ms : Map Str Str)
    → OnlyCase nick ms
    → lookup nick ms ≡ some prefix
    → member_is_operator nick ms ≡ contains_any prefix operator_prefixes
unfolding member_is_operator lookup
member_exact nick prefix [] o h = cc
member_exact nick prefix ((member, p) ∷ ms) o h =
    ground
      (arith, member_exact nick prefix ms o.1, o.0, str_beq_iff member nick, equal_fold_refl nick)

-- A member that no other member shadows is an operator exactly when its own prefix says so.
pub operator_exact :
    (channel nick prefix : Str) (info : ChannelInfo) (s : ChannelState)
    → nick ≢ []
    → get channel s ≡ some info
    → lookup nick info.members ≡ some prefix
    → OnlyCase nick info.members
    → is_operator channel nick s ≡ contains_any prefix operator_prefixes
unfolding is_operator get
operator_exact channel nick prefix info s ne found p only =
    ground (arith, member_exact nick prefix info.members only p)
