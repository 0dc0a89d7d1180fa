-- ===== src/Irc/Session/Lines.antt =====
-- The names and keys of the tracked channels after any lines.
use turborg.Base.{List, Str, [], ◌∷◌, true, refl, str_eq, ◌||◌, Bool-cases, inl, inr}
use turborg.Base.Text.{to_lower, is_empty}
use turborg.Base.Text.Split.{fields}
use turborg.Irc.Protocol.{Message, source_nick}
use turborg.Irc.ChannelState.{
  ChannelState, get, on_self_part, with_topic, with_topic_meta, set_topic, clear_topic,
  set_topic_meta, on_names_end, on_member_join, on_member_part, on_member_kick, on_member_quit,
  on_nick_change, with_member, without_member, with_renamed,
}
use turborg.Irc.Modes.{apply_prefix_modes_to_state}
use turborg.Irc.Session.{
  Session, Kind, join_line, part_line, quit_line, kick_line, nick_line, topic_line, mode_line,
  topic_is, no_topic, topic_who_time, names, end_of_names, join_failure, welcome, other,
  dispatch_kind, dispatch_line, dispatch_all, kind_of, handle_join, handle_part, handle_quit,
  handle_kick, handle_nick_change, handle_mode, handle_topic, reply_topic, reply_no_topic,
  reply_topic_who_time, reply_names, reply_end_of_names, handle_join_failure, is_self, join_target,
  new_nick, starts_with_channel_sigil, last_param, parse_unix_seconds, welcomed,
}
use turborg.Irc.Session.Keyed.{
  Keyed, update-Keyed, each-Keyed, join-Keyed, names-Keyed, delete-Keyed, walk_copy-Keyed,
}

member_join-Keyed :
    (channel nick : Str) (s : ChannelState)
    → Keyed s.channels
    → Keyed (on_member_join channel nick s).channels
unfolding on_member_join
member_join-Keyed channel nick s t = elim (Bool-cases (is_empty nick)) [
  | inl e ↦ rw e t
  | inr e ↦ rw e (update-Keyed channel (with_member nick) s (λ info. refl) t)
]

handle_join-Keyed :
    (m : Message) (s : Session) → Keyed s.state.channels → Keyed (handle_join m s).0.state.channels
unfolding handle_join
handle_join-Keyed m s t =
    let channel = join_target m.params m.trailing in
    let nick = source_nick m in
    elim (Bool-cases (is_empty channel)) [
      | inl e ↦ rw e t
      | inr e ↦ elim (Bool-cases (is_self nick s)) [
        | inl f ↦ rw (e, f) (join-Keyed channel s.state t)
        | inr f ↦ rw (e, f) (member_join-Keyed channel nick s.state t)
      ]
    ]

handle_part-Keyed :
    (m : Message) (params : List Str) (s : Session)
    → Keyed s.state.channels
    → Keyed (handle_part m params s).0.state.channels
unfolding handle_part on_self_part on_member_part
handle_part-Keyed m [] s t = t
handle_part-Keyed m (channel ∷ _) s t =
    let nick = source_nick m in
    elim (Bool-cases (is_self nick s)) [
      | inl f ↦ rw f (delete-Keyed (to_lower channel) s.state.channels t)
      | inr f ↦ rw f (update-Keyed channel (without_member nick) s.state (λ info. refl) t)
    ]

handle_quit-Keyed :
    (m : Message) (s : Session) → Keyed s.state.channels → Keyed (handle_quit m s).0.state.channels
unfolding handle_quit on_member_quit
handle_quit-Keyed m s t =
    let nick = source_nick m in
    elim (Bool-cases (is_empty nick)) [
      | inl e ↦ rw e t
      | inr e ↦ rw e (each-Keyed (without_member nick) s.state.channels (λ info. refl) t)
    ]

handle_kick-Keyed :
    (m : Message) (params : List Str) (s : Session)
    → Keyed s.state.channels
    → Keyed (handle_kick m params s).0.state.channels
unfolding handle_kick on_member_kick on_member_part
handle_kick-Keyed m [] s t = t
handle_kick-Keyed m (_ ∷ []) s t = t
handle_kick-Keyed m (channel ∷ victim ∷ _) s t =
    update-Keyed channel (without_member victim) s.state (λ info. refl) t

handle_nick_change-Keyed :
    (m : Message) (s : Session)
    → Keyed s.state.channels
    → Keyed (handle_nick_change m s).0.state.channels
unfolding handle_nick_change on_nick_change
handle_nick_change-Keyed m s t =
    let old = source_nick m in
    let new = new_nick m.params m.trailing in
    elim (Bool-cases (is_empty old || is_empty new)) [
      | inl e ↦ rw e t
      | inr e ↦ rw e (each-Keyed (with_renamed old new) s.state.channels (λ info. refl) t)
    ]

handle_mode-Keyed :
    (m : Message) (params : List Str) (s : Session)
    → Keyed s.state.channels
    → Keyed (handle_mode m params s).0.state.channels
unfolding handle_mode apply_prefix_modes_to_state
handle_mode-Keyed m [] s t = t
handle_mode-Keyed m (_ ∷ []) s t = t
handle_mode-Keyed m (channel ∷ modes ∷ args) s t =
    elim (Bool-cases (starts_with_channel_sigil channel)) [
      | inl e ↦ rw e (walk_copy-Keyed channel modes args (get channel s.state) s.state t)
      | inr e ↦ rw e t
    ]

handle_topic-Keyed :
    (m : Message) (params : List Str) (s : Session)
    → Keyed s.state.channels
    → Keyed (handle_topic m params s).0.state.channels
unfolding handle_topic set_topic
handle_topic-Keyed m [] s t = t
handle_topic-Keyed m (channel ∷ _) s t =
    update-Keyed channel (with_topic m.trailing) s.state (λ info. refl) t

reply_topic-Keyed :
    (m : Message) (params : List Str) (s : Session)
    → Keyed s.state.channels
    → Keyed (reply_topic m params s).state.channels
unfolding reply_topic set_topic
reply_topic-Keyed m [] s t = t
reply_topic-Keyed m (_ ∷ []) s t = t
reply_topic-Keyed m (_ ∷ channel ∷ _) s t =
    update-Keyed channel (with_topic m.trailing) s.state (λ info. refl) t

reply_no_topic-Keyed :
    (params : List Str) (s : Session)
    → Keyed s.state.channels
    → Keyed (reply_no_topic params s).state.channels
unfolding reply_no_topic clear_topic
reply_no_topic-Keyed [] s t = t
reply_no_topic-Keyed (_ ∷ []) s t = t
reply_no_topic-Keyed (_ ∷ channel ∷ _) s t =
    update-Keyed channel (with_topic []) s.state (λ info. refl) t

reply_topic_who_time-Keyed :
    (params : List Str) (s : Session)
    → Keyed s.state.channels
    → Keyed (reply_topic_who_time params s).state.channels
unfolding reply_topic_who_time set_topic_meta
reply_topic_who_time-Keyed [] s t = t
reply_topic_who_time-Keyed (_ ∷ []) s t = t
reply_topic_who_time-Keyed (_ ∷ _ ∷ []) s t = t
reply_topic_who_time-Keyed (_ ∷ _ ∷ _ ∷ []) s t = t
reply_topic_who_time-Keyed (_ ∷ channel ∷ setter ∷ at ∷ _) s t =
    update-Keyed channel (with_topic_meta setter (parse_unix_seconds at)) s.state (λ info. refl) t

reply_names-Keyed :
    (m : Message) (params : List Str) (s : Session)
    → Keyed s.state.channels
    → Keyed (reply_names m params s).state.channels
unfolding reply_names
reply_names-Keyed m [] s t = t
reply_names-Keyed m (_ ∷ []) s t = t
reply_names-Keyed m (_ ∷ _ ∷ []) s t = t
reply_names-Keyed m (_ ∷ _ ∷ p ∷ ps) s t = elim (Bool-cases (is_empty m.trailing)) [
  | inl e ↦ rw e t
  | inr e ↦ rw e (names-Keyed (last_param p ps) (fields m.trailing) s.state t)
]

end_of_names-Keyed :
    (params : List Str) (s : Session)
    → Keyed s.state.channels
    → Keyed (reply_end_of_names params s).0.state.channels
unfolding reply_end_of_names on_names_end
end_of_names-Keyed [] s t = t
end_of_names-Keyed (_ ∷ []) s t = t
end_of_names-Keyed (_ ∷ channel ∷ _) s t =
    update-Keyed channel (λ info. record info { names_complete = true }) s.state (λ info. refl) t

join_failure-Keyed :
    (m : Message) (params : List Str) (s : Session)
    → Keyed s.state.channels
    → Keyed (handle_join_failure m params s).0.state.channels
unfolding handle_join_failure
join_failure-Keyed m [] s t = t
join_failure-Keyed m (_ ∷ []) s t = t
join_failure-Keyed m (_ ∷ channel ∷ _) s t = t

welcomed-Keyed :
    (params : List Str) (s : Session)
    → Keyed s.state.channels
    → Keyed (welcomed params s).state.channels
welcomed-Keyed [] s t = t
welcomed-Keyed (p ∷ _) s t = t

kind-Keyed :
    (m : Message) (kind : Kind) (s : Session)
    → Keyed s.state.channels
    → Keyed (dispatch_kind m kind s).0.state.channels
unfolding dispatch_kind
kind-Keyed m join_line s t = handle_join-Keyed m s t
kind-Keyed m part_line s t = handle_part-Keyed m m.params s t
kind-Keyed m quit_line s t = handle_quit-Keyed m s t
kind-Keyed m kick_line s t = handle_kick-Keyed m m.params s t
kind-Keyed m nick_line s t = handle_nick_change-Keyed m s t
kind-Keyed m topic_line s t = handle_topic-Keyed m m.params s t
kind-Keyed m mode_line s t = handle_mode-Keyed m m.params s t
kind-Keyed m topic_is s t = reply_topic-Keyed m m.params s t
kind-Keyed m no_topic s t = reply_no_topic-Keyed m.params s t
kind-Keyed m topic_who_time s t = reply_topic_who_time-Keyed m.params s t
kind-Keyed m names s t = reply_names-Keyed m m.params s t
kind-Keyed m end_of_names s t = end_of_names-Keyed m.params s t
kind-Keyed m join_failure s t = join_failure-Keyed m m.params s t
kind-Keyed m welcome s t = welcomed-Keyed m.params s t
kind-Keyed m other s t = t

pub dispatch_all-Keyed :
    (ms : List Message) (s : Session)
    → Keyed s.state.channels
    → Keyed (dispatch_all ms s).0.state.channels
unfolding dispatch_all dispatch_line
dispatch_all-Keyed [] s t = t
dispatch_all-Keyed (m ∷ ms) s t =
    let after = (dispatch_line m s).0 in
    dispatch_all-Keyed ms after (kind-Keyed m (kind_of m.command) s t)
