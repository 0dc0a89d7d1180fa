-- ===== src/Irc/ChannelState/Isolation.antt =====
-- The events of state.go that name a channel leave every other channel alone.
use turborg.Base.Text.{is_empty, to_lower}
use turborg.Base.{[], Bool, Str, arith, false, if◌then◌else◌, ne→beq, refl, str_eq, true, ◌≡◌, ◌≢◌}
use turborg.Irc.ChannelState.{
  ChannelInfo, ChannelState, get, update, set_topic, clear_topic, set_topic_meta, on_names_end,
  on_member_join, on_member_part, on_member_kick, set_member_prefix, with_topic, with_topic_meta,
  with_member, without_member, with_prefix,
}
use turborg.Irc.ChannelState.Lookup.{lookup-update, lookup-join, lookup-part, lookup-names}
use turborg.Irc.ChannelState.Consistency.{
  Event, self_join, self_part, names_end, quit, topic, member_join, member_part, member_kick,
  nick_change, no_topic, topic_meta, names, mode, handle,
}

-- The event names a channel, and not `other`, in whatever case; a quit and a nick change name none.
abbrev pub IsElsewhere : Str → Event → Type 0
IsElsewhere other (self_join channel) = to_lower channel ≢ to_lower other
IsElsewhere other (self_part channel) = to_lower channel ≢ to_lower other
IsElsewhere other (names_end channel) = to_lower channel ≢ to_lower other
IsElsewhere other (quit _) = ⊥
IsElsewhere other (topic channel _) = to_lower channel ≢ to_lower other
IsElsewhere other (member_join channel _) = to_lower channel ≢ to_lower other
IsElsewhere other (member_part channel _) = to_lower channel ≢ to_lower other
IsElsewhere other (member_kick channel _) = to_lower channel ≢ to_lower other
IsElsewhere other (nick_change _ _) = ⊥
IsElsewhere other (no_topic channel) = to_lower channel ≢ to_lower other
IsElsewhere other (topic_meta channel _ _) = to_lower channel ≢ to_lower other
IsElsewhere other (names channel _) = to_lower channel ≢ to_lower other
IsElsewhere other (mode channel _ _) = to_lower channel ≢ to_lower other

module _ (channel other : Str) (s : ChannelState) (ne : to_lower channel ≢ to_lower other) where
  get-update : (f : ChannelInfo → ChannelInfo) → get other (update channel f s) ≡ get other s
  unfolding get
  get-update f = ground (
    arith,
    lookup-update (to_lower other) channel f s,
    ne→beq (to_lower channel) (to_lower other) ne,
  )

  get-if_update :
      (b : Bool) (f : ChannelInfo → ChannelInfo)
      → get other (if b then s else update channel f s) ≡ get other s
  get-if_update true f = refl
  get-if_update false f = get-update f

-- An event for one channel changes nothing about a channel whose name is another, case apart.
pub handle_isolated :
    (other : Str) (s : ChannelState) (ev : Event)
    → IsElsewhere other ev
    → get other (handle s ev) ≡ get other s
unfolding handle set_topic clear_topic set_topic_meta on_names_end on_member_join on_member_part
    on_member_kick set_member_prefix get
handle_isolated other s (self_join channel) ne =
    ground
      (arith, lookup-join (to_lower other) channel s, ne→beq (to_lower channel) (to_lower other) ne)
handle_isolated other s (self_part channel) ne =
    ground
      (arith, lookup-part (to_lower other) channel s, ne→beq (to_lower channel) (to_lower other) ne)
handle_isolated other s (names channel entries) ne = ground (
  arith,
  lookup-names (to_lower other) channel entries s,
  ne→beq (to_lower channel) (to_lower other) ne,
)
handle_isolated other s (names_end channel) ne = get-update channel other s ne _
handle_isolated other s (quit nick) ne = absurd ne
handle_isolated other s (topic channel text) ne = get-update channel other s ne (with_topic text)
handle_isolated other s (member_join channel nick) ne =
    get-if_update channel other s ne (is_empty nick) (with_member nick)
handle_isolated other s (member_part channel nick) ne =
    get-update channel other s ne (without_member nick)
handle_isolated other s (member_kick channel nick) ne =
    get-update channel other s ne (without_member nick)
handle_isolated other s (nick_change old new) ne = absurd ne
handle_isolated other s (no_topic channel) ne = get-update channel other s ne (with_topic [])
handle_isolated other s (topic_meta channel set_by set_at) ne =
    get-update channel other s ne (with_topic_meta set_by set_at)
handle_isolated other s (mode channel nick prefix) ne =
    get-if_update channel other s ne (is_empty nick) (with_prefix nick prefix)
