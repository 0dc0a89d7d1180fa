-- ===== src/Irc/Session/Announced.antt =====
-- The events of a session announce all that it learns of the members of its channels.
use turborg.Base.{
  List, Option, Str, [], ◌∷◌, none, some, true, false, arith, refl, ◌≡◌, ◌≢◌, ◌∙◌, ap, str_eq,
  str_beq_iff, ◌==◌, ◌||◌, Bool-cases, Option-cases, inl, inr, is_some,
}
use mathlib.Core.Path.{subst}
use turborg.Base.Map.{lookup}
use turborg.Base.Text.{to_lower, is_empty, equal_fold}
use turborg.Irc.Protocol.{Message, source_nick}
use turborg.Irc.ChannelState.{
  ChannelInfo, ChannelState, get, with_topic, with_topic_meta, set_topic, clear_topic,
  set_topic_meta, on_names_end, on_member_kick, channels_containing,
}
use turborg.Irc.ChannelState.Lookup.{lookup-part}
use turborg.Irc.Modes.{apply_prefix_modes_to_state}
use turborg.Irc.Session.{
  Session, Event, Kind, join_line, part_line, quit_line, kick_line, nick_line, topic_line,
  mode_line, topic_is, no_topic, topic_who_time, names, end_of_names, join_failure, welcome, other,
  dispatch_kind, dispatch_line, dispatch_all, kind_of, handle_join, handle_part, handle_quit,
  handle_kick, handle_nick_change, handle_mode, handle_topic, reply_topic, reply_no_topic,
  reply_topic_who_time, reply_end_of_names, handle_join_failure, is_self, join_target, new_nick,
  starts_with_channel_sigil, parse_unix_seconds, welcomed, names_of,
}
use turborg.Irc.Session.Keyed.{Keyed}
use turborg.Irc.Session.Lines.{dispatch_all-Keyed}
use turborg.Irc.Session.Heard.{
  View, hear, hear_all, seen, seen-update, seen-self_join, seen-member_join, seen-member_part,
  seen-quit, seen-nick_change, seen-walk_copy,
}

-- What the events of a step say of a nick in the channel with a key is so after it.
abbrev Announces : Str → Str → Session → Session × List Event → Type 0
Announces k n s r = seen r.0.state k n ≡ hear_all r.1 (seen s.state) k n

other_nick :
    (nick n current : Str)
    → equal_fold nick current ≡ true
    → equal_fold n current ≡ false
    → (nick == n) ≡ false
other_nick nick n current h g = elim (Bool-cases (nick == n)) [
  | inl e ↦ absurd (ground (arith, ap (λ x. equal_fold x current) ((str_beq_iff nick n).0 e)))
  | inr e ↦ e
]

module _ (k n : Str) where
  join-Announces :
      (m : Message) (s : Session)
      → is_some (lookup k s.state.channels) ≡ true
      → equal_fold n s.nicks.current ≡ false
      → is_empty n ≡ false
      → Announces k n s (handle_join m s)
  unfolding handle_join hear_all hear
  join-Announces m s h g full =
      let channel = join_target m.params m.trailing in
      let nick = source_nick m in
      elim (Bool-cases (is_empty channel)) [
        | inl e ↦ rw e refl
        | inr e ↦ elim (Bool-cases (is_self nick s)) [
          | inl f ↦
              let apart = other_nick nick n s.nicks.current f g in
              rw (e, f) (ground (arith, seen-self_join k n channel s.state h, apart))
          | inr f ↦ rw (e, f) (seen-member_join k n channel nick s.state h full)
        ]
      ]

  part-Announces :
      (m : Message) (params : List Str) (s : Session)
      → is_some (lookup k (handle_part m params s).0.state.channels) ≡ true
      → Announces k n s (handle_part m params s)
  unfolding handle_part hear_all hear
  part-Announces m [] s h = refl
  part-Announces m (channel ∷ _) s h =
      let nick = source_nick m in
      elim (Bool-cases (is_self nick s)) [
        | inl f ↦ rw f (ground (arith, lookup-part k channel s.state, rw f at h))
        | inr f ↦ rw f (seen-member_part k n channel nick s.state)
      ]

  quit-Announces :
      (m : Message) (s : Session) → Keyed s.state.channels → Announces k n s (handle_quit m s)
  unfolding handle_quit channels_containing hear_all
  quit-Announces m s t =
      let nick = source_nick m in
      elim (Bool-cases (is_empty nick)) [
        | inl e ↦ rw e refl
        | inr e ↦ rw e (seen-quit k n nick m.trailing s.state t)
      ]

  kick-Announces :
      (m : Message) (params : List Str) (s : Session) → Announces k n s (handle_kick m params s)
  unfolding handle_kick on_member_kick hear_all hear
  kick-Announces m [] s = refl
  kick-Announces m (_ ∷ []) s = refl
  kick-Announces m (channel ∷ victim ∷ _) s = seen-member_part k n channel victim s.state

  nick-Announces : (m : Message) (s : Session) → Announces k n s (handle_nick_change m s)
  unfolding handle_nick_change hear_all hear
  nick-Announces m s =
      let old = source_nick m in
      let new = new_nick m.params m.trailing in
      elim (Bool-cases (is_empty old || is_empty new)) [
        | inl e ↦ rw e refl
        | inr e ↦ rw e (seen-nick_change k n old new s.state)
      ]

  mode-Announces :
      (m : Message) (params : List Str) (s : Session) → Announces k n s (handle_mode m params s)
  unfolding handle_mode apply_prefix_modes_to_state hear_all hear
  mode-Announces m [] s = refl
  mode-Announces m (_ ∷ []) s = refl
  mode-Announces m (channel ∷ modes ∷ args) s =
      elim (Bool-cases (starts_with_channel_sigil channel)) [
        | inl e ↦ rw e (seen-walk_copy k n channel modes args (get channel s.state) s.state)
        | inr e ↦ rw e refl
      ]

  topic-Announces :
      (m : Message) (params : List Str) (s : Session) → Announces k n s (handle_topic m params s)
  unfolding handle_topic set_topic hear_all hear
  topic-Announces m [] s = refl
  topic-Announces m (channel ∷ _) s =
      seen-update k n channel (with_topic m.trailing) s.state (λ info. refl)

  topic_is-Announces :
      (m : Message) (params : List Str) (s : Session) → Announces k n s (reply_topic m params s, [])
  unfolding reply_topic set_topic hear_all
  topic_is-Announces m [] s = refl
  topic_is-Announces m (_ ∷ []) s = refl
  topic_is-Announces m (_ ∷ channel ∷ _) s =
      seen-update k n channel (with_topic m.trailing) s.state (λ info. refl)

  no_topic-Announces :
      (params : List Str) (s : Session) → Announces k n s (reply_no_topic params s, [])
  unfolding reply_no_topic clear_topic hear_all
  no_topic-Announces [] s = refl
  no_topic-Announces (_ ∷ []) s = refl
  no_topic-Announces (_ ∷ channel ∷ _) s =
      seen-update k n channel (with_topic []) s.state (λ info. refl)

  topic_who_time-Announces :
      (params : List Str) (s : Session) → Announces k n s (reply_topic_who_time params s, [])
  unfolding reply_topic_who_time set_topic_meta hear_all
  topic_who_time-Announces [] s = refl
  topic_who_time-Announces (_ ∷ []) s = refl
  topic_who_time-Announces (_ ∷ _ ∷ []) s = refl
  topic_who_time-Announces (_ ∷ _ ∷ _ ∷ []) s = refl
  topic_who_time-Announces (_ ∷ channel ∷ setter ∷ at ∷ _) s =
      seen-update k n channel (with_topic_meta setter (parse_unix_seconds at)) s.state
        (λ info. refl)

  -- The list that is published is the one that is known.
  names_of-seen :
      (channel : Str) (s : ChannelState)
      → seen s k n ≡ hear_all (names_of channel (get channel s)) (seen s) k n
  unfolding hear_all hear get
  names_of-seen channel s = elim (Option-cases (lookup (to_lower channel) s.channels)) [
    | inl e ↦ rw e refl
    | inr (info, e) ↦ ground (arith, e, str_beq_iff (to_lower channel) k)
  ]

  hear_all-names_of :
      (channel : Str) (o : Option ChannelInfo) (v w : View)
      → v k n ≡ w k n
      → hear_all (names_of channel o) v k n ≡ hear_all (names_of channel o) w k n
  unfolding hear_all hear
  hear_all-names_of channel none v w h = h
  hear_all-names_of channel (some info) v w h = ground arith

  end_of_names-Announces :
      (params : List Str) (s : Session) → Announces k n s (reply_end_of_names params s)
  unfolding reply_end_of_names on_names_end hear_all
  end_of_names-Announces [] s = refl
  end_of_names-Announces (_ ∷ []) s = refl
  end_of_names-Announces (_ ∷ channel ∷ _) s =
      let after = on_names_end channel s.state in
      names_of-seen channel after
      ∙ hear_all-names_of channel (get channel after) (seen after) (seen s.state) (
          seen-update k n channel (λ info. record info { names_complete = true }) s.state
            (λ info. refl))

  join_failure-Announces :
      (m : Message) (params : List Str) (s : Session)
      → Announces k n s (handle_join_failure m params s)
  unfolding handle_join_failure hear_all hear
  join_failure-Announces m [] s = refl
  join_failure-Announces m (_ ∷ []) s = refl
  join_failure-Announces m (_ ∷ channel ∷ _) s = refl

  welcomed-Announces : (params : List Str) (s : Session) → Announces k n s (welcomed params s, [])
  unfolding hear_all
  welcomed-Announces [] s = refl
  welcomed-Announces (p ∷ _) s = refl

  kind-Announces :
      (m : Message) (kind : Kind) (s : Session)
      → Keyed s.state.channels
      → is_some (lookup k s.state.channels) ≡ true
      → is_some (lookup k (dispatch_kind m kind s).0.state.channels) ≡ true
      → equal_fold n s.nicks.current ≡ false
      → is_empty n ≡ false
      → kind ≢ names
      → Announces k n s (dispatch_kind m kind s)
  unfolding dispatch_kind hear_all
  kind-Announces m join_line s t before after g full ne = join-Announces m s before g full
  kind-Announces m part_line s t before after g full ne = part-Announces m m.params s after
  kind-Announces m quit_line s t before after g full ne = quit-Announces m s t
  kind-Announces m kick_line s t before after g full ne = kick-Announces m m.params s
  kind-Announces m nick_line s t before after g full ne = nick-Announces m s
  kind-Announces m topic_line s t before after g full ne = topic-Announces m m.params s
  kind-Announces m mode_line s t before after g full ne = mode-Announces m m.params s
  kind-Announces m topic_is s t before after g full ne = topic_is-Announces m m.params s
  kind-Announces m no_topic s t before after g full ne = no_topic-Announces m.params s
  kind-Announces m topic_who_time s t before after g full ne = topic_who_time-Announces m.params s
  kind-Announces m names s t before after g full ne = absurd (ne refl)
  kind-Announces m end_of_names s t before after g full ne = end_of_names-Announces m.params s
  kind-Announces m join_failure s t before after g full ne = join_failure-Announces m m.params s
  kind-Announces m welcome s t before after g full ne = welcomed-Announces m.params s
  kind-Announces m other s t before after g full ne = refl

-- From a session without channels, let any lines arrive, and then one that is no part of a NAMES
-- list (353). In a channel that is tracked before and after that line, a nick that is neither empty
-- nor the agent's own is a member exactly when the events that the line publishes, read on top of
-- the members before, say so.
pub announced :
    (lines : List Message) (m : Message) (start s : Session) (channel n : Str)
    → start.state.channels ≡ []
    → (dispatch_all lines start).0 ≡ s
    → is_some (get channel s.state) ≡ true
    → is_some (get channel (dispatch_line m s).0.state) ≡ true
    → equal_fold n s.nicks.current ≡ false
    → is_empty n ≡ false
    → kind_of m.command ≢ names
    → seen (dispatch_line m s).0.state (to_lower channel) n
      ≡ hear_all (dispatch_line m s).1 (seen s.state) (to_lower channel) n
unfolding dispatch_line get
announced lines m start s channel n empty reached before after g full ne =
    let t =
      subst (λ r. Keyed r.state.channels) reached (dispatch_all-Keyed lines start (rw empty tt)) in
    kind-Announces (to_lower channel) n m (kind_of m.command) s t before after g full ne
