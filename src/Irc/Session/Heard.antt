-- ===== src/Irc/Session/Heard.antt =====
-- What a listener to the events knows of who is in which channel, and what each method of state.go
-- does to the same question.
use turborg.Base.{
  Bool, List, Option, Str, [], ◌∷◌, none, some, true, false, arith, refl, ◌≡◌, ◌∙◌, ℕ, nat_eq,
  str_eq, str_beq_iff, ◌==◌, ◌&&◌, ◌||◌, not, if◌then◌else◌, Bool-cases, Option-cases, inl, inr,
  is_some,
}
use turborg.Base.Map.{Map, lookup, lookup-insert, lookup-delete}
use turborg.Base.Text.{to_lower, is_empty}
use turborg.Irc.ChannelState.{
  ChannelInfo, ChannelState, update, names_with, on_self_join, on_member_join, on_member_part,
  set_member_prefix, on_member_quit, on_nick_change, with_member, without_member, with_prefix,
  with_renamed,
}
use turborg.Irc.ChannelState.Lookup.{lookup-each, lookup-update, lookup-join}
use turborg.Irc.ChannelState.Members.{prefix_in, after_rename}
use turborg.Irc.Modes.{
  Reading, walk, walk_copy, step, on_letter, set_prefix, new_prefix, consumes_arg, take_arg,
  prefix_for_letter,
}
use turborg.Irc.Session.{
  Event, user_join, user_leave, user_kicked, user_nick_change, topic_changed, mode_changed,
  join_failed, channel_names, leaves,
}
use turborg.Irc.Session.Keyed.{Keyed}

-- Whether a nick is in the channel with a key.
abbrev pub View : Type 0
View = Str → Str → Bool

abbrev pub seen : ChannelState → View
seen s k n = is_some (prefix_in (lookup k s.channels) n)

-- What the events say: a renamed nick is in the channels of the old one, which then leaves.
unfoldable pub hear : Event → View → View
hear (user_join channel nick) v k n = (to_lower channel == k && nick == n) || v k n
hear (user_leave channel nick reason) v k n = not (to_lower channel == k && nick == n) && v k n
hear (user_kicked channel nick by reason) v k n = not (to_lower channel == k && nick == n) && v k n
hear (user_nick_change old new) v k n = not (old == n) && ((new == n && v k old) || v k n)
hear (channel_names channel members) v k n =
    if to_lower channel == k then is_some (lookup n members) else v k n
hear (topic_changed channel topic by) v k n = v k n
hear (mode_changed channel modes args by) v k n = v k n
hear (join_failed channel code reason) v k n = v k n

unfoldable pub hear_all : List Event → View → View
unfolding hear
hear_all [] v = v
hear_all (ev ∷ evs) v = hear_all evs (hear ev v)

abbrev named : Str → List Str → Bool
named k [] = false
named k (channel ∷ channels) = (to_lower channel == k) || named k channels

names_with-named :
    (k nick : Str) (info : ChannelInfo) (m : Map Str ChannelInfo)
    → Keyed m
    → lookup k m ≡ some info
    → is_some (lookup nick info.members) ≡ true
    → named k (names_with nick m) ≡ true
unfolding names_with lookup
names_with-named k nick info [] t h g = absurd (ground arith)
names_with-named k nick info ((j, first) ∷ m) (e, t) h g = elim (Bool-cases (j == k)) [
  | inl same ↦ ground (arith, str_beq_iff j k, str_beq_iff (to_lower first.name) k)
  | inr apart ↦ ground (arith, names_with-named k nick info m t (ground arith) g)
]

hear_all-leaves :
    (k n nick reason : Str) (channels : List Str) (v : View)
    → hear_all (leaves nick reason channels) v k n ≡ (not (named k channels && nick == n) && v k n)
unfolding hear_all hear
hear_all-leaves k n nick reason [] v = refl
hear_all-leaves k n nick reason (channel ∷ channels) v = ground (
  arith,
  hear_all-leaves k n nick reason channels (hear (user_leave channel nick (some reason)) v),
)

module _ (k n : Str) where
  pub seen-update :
      (channel : Str) (f : ChannelInfo → ChannelInfo) (s : ChannelState)
      → ((info : ChannelInfo)
          → is_some (lookup n (f info).members) ≡ is_some (lookup n info.members))
      → seen (update channel f s) k n ≡ seen s k n
  seen-update channel f s same = elim (Option-cases (lookup k s.channels)) [
    | inl e ↦ ground (arith, lookup-update k channel f s, e)
    | inr (info, e) ↦ ground (arith, lookup-update k channel f s, e, same info)
  ]

  pub seen-self_join :
      (channel : Str) (s : ChannelState)
      → is_some (lookup k s.channels) ≡ true
      → seen (on_self_join channel s) k n ≡ seen s k n
  seen-self_join channel s h = elim (Option-cases (lookup k s.channels)) [
    | inl e ↦ absurd (ground arith)
    | inr (info, e) ↦ ground (arith, lookup-join k channel s, e)
  ]

  pub seen-member_join :
      (channel nick : Str) (s : ChannelState)
      → is_some (lookup k s.channels) ≡ true
      → is_empty n ≡ false
      → seen (on_member_join channel nick s) k n
        ≡ ((to_lower channel == k && nick == n) || seen s k n)
  unfolding on_member_join
  seen-member_join channel nick s h full = elim (Bool-cases (is_empty nick)) [
    | inl e ↦ rw e (ground (arith, str_beq_iff nick n))
    | inr e ↦ elim (Option-cases (lookup k s.channels)) [
      | inl g ↦ absurd (ground arith)
      | inr (info, g) ↦ ground (
        arith,
        e,
        g,
        lookup-update k channel (with_member nick) s,
        lookup-insert nick n [] info.members,
        str_beq_iff nick n,
      )
    ]
  ]

  pub seen-member_part :
      (channel nick : Str) (s : ChannelState)
      → seen (on_member_part channel nick s) k n
        ≡ (not (to_lower channel == k && nick == n) && seen s k n)
  unfolding on_member_part
  seen-member_part channel nick s = elim (Option-cases (lookup k s.channels)) [
    | inl e ↦ ground (arith, e, lookup-update k channel (without_member nick) s)
    | inr (info, e) ↦ ground (
      arith,
      e,
      lookup-update k channel (without_member nick) s,
      lookup-delete nick n info.members,
    )
  ]

  pub seen-quit :
      (nick reason : Str) (s : ChannelState)
      → Keyed s.channels
      → seen (on_member_quit nick s) k n
        ≡ hear_all (leaves nick reason (names_with nick s.channels)) (seen s) k n
  unfolding on_member_quit
  seen-quit nick reason s t =
      let channels = names_with nick s.channels in
      elim (Option-cases (lookup k s.channels)) [
        | inl e ↦ ground (
          arith,
          e,
          lookup-each k (without_member nick) s.channels,
          hear_all-leaves k n nick reason channels (seen s),
        )
        | inr (info, e) ↦ elim (Bool-cases (is_some (lookup nick info.members))) [
          | inl g ↦ ground (
            arith,
            e,
            lookup-each k (without_member nick) s.channels,
            lookup-delete nick n info.members,
            hear_all-leaves k n nick reason channels (seen s),
            names_with-named k nick info s.channels t e g,
          )
          | inr g ↦ ground (
            arith,
            e,
            lookup-each k (without_member nick) s.channels,
            lookup-delete nick n info.members,
            hear_all-leaves k n nick reason channels (seen s),
            str_beq_iff nick n,
          )
        ]
      ]

  pub seen-nick_change :
      (old new : Str) (s : ChannelState)
      → seen (on_nick_change old new s) k n
        ≡ (not (old == n) && ((new == n && seen s k old) || seen s k n))
  unfolding on_nick_change
  seen-nick_change old new s = ground (
    arith,
    lookup-each k (with_renamed old new) s.channels,
    after_rename old new n (lookup k s.channels),
    str_beq_iff old n,
    str_beq_iff new n,
  )

  seen-set_member_prefix :
      (channel nick prefix : Str) (s : ChannelState)
      → seen (set_member_prefix channel nick prefix s) k n ≡ seen s k n
  unfolding set_member_prefix
  seen-set_member_prefix channel nick prefix s = elim (Bool-cases (is_empty nick)) [
    | inl e ↦ rw e refl
    | inr e ↦ rw e (
        seen-update channel (with_prefix nick prefix) s
          (λ info. ground (arith, lookup-insert nick n prefix info.members, str_beq_iff nick n)))
  ]

  seen-set_prefix :
      (channel nick : Str) (o : Option Str) (s : ChannelState)
      → seen (set_prefix channel nick o s) k n ≡ seen s k n
  seen-set_prefix channel nick none s = refl
  seen-set_prefix channel nick (some prefix) s = seen-set_member_prefix channel nick prefix s

  seen-on_letter :
      (channel nick : Str) (adding : Bool) (o current : Option Str) (s : ChannelState)
      → seen (on_letter channel nick adding o current s) k n ≡ seen s k n
  seen-on_letter channel nick adding none current s = refl
  seen-on_letter channel nick adding (some prefix) none s = elim (Bool-cases (is_empty nick)) [
    | inl e ↦ rw e refl
    | inr e ↦ rw e refl
  ]
  seen-on_letter channel nick adding (some prefix) (some current) s =
      elim (Bool-cases (is_empty nick)) [
        | inl e ↦ rw e refl
        | inr e ↦ rw e (seen-set_prefix channel nick (new_prefix adding prefix current) s)
      ]

  seen-step :
      (read : Reading) (channel : Str) (c : ℕ) (adding : Bool) (args : List Str) (s : ChannelState)
      → seen (step read channel c adding args s).2 k n ≡ seen s k n
  unfolding step
  seen-step read channel c adding args s = elim (Bool-cases (c == b'+')) [
    | inl e ↦ rw e refl
    | inr e ↦ elim (Bool-cases (c == b'-')) [
      | inl f ↦ rw (e, f) refl
      | inr f ↦
          let (arg, rest) = take_arg (consumes_arg adding c) args in
          rw (e, f) (seen-on_letter channel arg adding (prefix_for_letter c) (read s arg) s)
    ]
  ]

  seen-walk :
      (read : Reading) (channel modes : Str) (adding : Bool) (args : List Str) (s : ChannelState)
      → seen (walk read channel modes adding args s) k n ≡ seen s k n
  unfolding walk
  seen-walk read channel [] adding args s = refl
  seen-walk read channel (c ∷ modes) adding args s =
      let r = step read channel c adding args s in
      seen-walk read channel modes r.0 r.1 r.2 ∙ seen-step read channel c adding args s

  pub seen-walk_copy :
      (channel modes : Str) (args : List Str) (o : Option ChannelInfo) (s : ChannelState)
      → seen (walk_copy channel modes args o s) k n ≡ seen s k n
  seen-walk_copy channel modes args none s = refl
  seen-walk_copy channel modes args (some info) s =
      seen-walk (λ _ nick. lookup nick info.members) channel modes true args s
