-- ===== src/Irc/Session.antt =====
-- internal/connector/irc/connector.go: what dispatchLine does with the lines that are about channels
-- and nicks, on the channel state, the wanted channels and the nicks together. A handler returns
-- the events that it publishes, in order. What the lines mean for the bouncer,
-- and the notices for the server tab, are left out.
pub mod Keyed
pub mod Lines
pub mod Heard
pub mod Announced
mod Examples
use turborg.Base.{
  not, Bool, List, Option, Str, [], contains, none, some, false, ◌||◌, ◌==◌, ◌+◌, ◌*◌, ◌-◌, ◌∷◌,
  ◌++◌, ℕ, str_eq, if◌then◌else◌, ltb, nat_eq,
}
use Prim.Native.Nat.{◌^◌, ◌%◌}
use turborg.Base.Int.{ℤ, negsuc, pos}
use turborg.Base.Map.{Map}
use turborg.Base.Text.{codes, equal_fold, is_empty}
use turborg.Base.Text.Split.{fields, join}
use turborg.Irc.Protocol.{nick, Message, source_nick}
use turborg.Irc.ChannelState.{
  ChannelInfo, ChannelState, clear_topic, get, channels_containing, on_member_join, on_member_kick,
  on_member_part, on_member_quit, on_names_end, on_names_reply, on_nick_change, on_self_join,
  on_self_part, set_topic, set_topic_meta,
}
use turborg.Irc.Modes.{apply_prefix_modes_to_state}
use turborg.Irc.Nicknames.{Nicks, set_current_nick, set_desired_nick}
use turborg.Irc.Wanted.{WantedChannels, add, remove}

pub record Session : Type 0 where
  pub state : ChannelState
  pub wanted : WantedChannels
  pub nicks : Nicks

-- The events, with the fields that are not the connector's name. A leave by QUIT has a reason.
pub data Event : Type 0 where
  user_join : Str → Str → Event
  user_leave : Str → Str → Option Str → Event
  user_kicked : Str → Str → Str → Str → Event
  user_nick_change : Str → Str → Event
  topic_changed : Str → Str → Str → Event
  mode_changed : Str → Str → Str → Str → Event
  join_failed : Str → Str → Str → Event
  channel_names : Str → Map Str Str → Event

abbrev pub join_target : List Str → Str → Str
join_target [] trailing = trailing
join_target (p ∷ ps) trailing = if is_empty p then trailing else p

-- strings.EqualFold(nick, c.CurrentNick())
abbrev pub is_self : Str → Session → Bool
is_self nick s = equal_fold nick s.nicks.current

unfoldable pub handle_join : Message → Session → Session × List Event
unfolding source_nick on_self_join on_member_join add
handle_join m s =
    let channel = join_target m.params m.trailing in
    let nick = source_nick m in
    let own = record s {
      state = on_self_join channel s.state;
      wanted = (add channel [] s.wanted).0;
    } in
    let other = record s { state = on_member_join channel nick s.state } in
    if is_empty channel
    then (s, [])
    else (if is_self nick s then own else other, user_join channel nick ∷ [])

unfoldable pub handle_part : Message → List Str → Session → Session × List Event
unfolding source_nick on_self_part on_member_part remove
handle_part m [] s = (s, [])
handle_part m (channel ∷ _) s =
    let nick = source_nick m in
    let own = record s {
      state = on_self_part channel s.state;
      wanted = (remove channel s.wanted).0;
    } in
    let other = record s { state = on_member_part channel nick s.state } in
    (if is_self nick s then own else other, user_leave channel nick none ∷ [])

abbrev pub leaves : Str → Str → List Str → List Event
leaves nick reason [] = []
leaves nick reason (channel ∷ channels) =
    user_leave channel nick (some reason) ∷ leaves nick reason channels

unfoldable pub handle_quit : Message → Session → Session × List Event
unfolding source_nick channels_containing on_member_quit
handle_quit m s =
    let nick = source_nick m in
    if is_empty nick then (s, []) else (
      record s { state = on_member_quit nick s.state },
      leaves nick m.trailing (channels_containing nick s.state),
    )

unfoldable pub handle_kick : Message → List Str → Session → Session × List Event
unfolding source_nick on_member_kick
handle_kick m (channel ∷ victim ∷ _) s = (
  record s { state = on_member_kick channel victim s.state },
  user_kicked channel victim (source_nick m) m.trailing ∷ [],
)
handle_kick m _ s = (s, [])

abbrev pub new_nick : List Str → Str → Str
new_nick [] trailing = trailing
new_nick (p ∷ ps) trailing = if is_empty trailing then p else trailing

unfoldable pub handle_nick_change : Message → Session → Session × List Event
unfolding source_nick on_nick_change set_current_nick set_desired_nick
handle_nick_change m s =
    let old = source_nick m in
    let new = new_nick m.params m.trailing in
    let own = set_desired_nick new (set_current_nick new s.nicks) in
    if is_empty old || is_empty new then (s, []) else (
      record s {
        state = on_nick_change old new s.state;
        nicks = if old == s.nicks.current then own else s.nicks;
      },
      user_nick_change old new ∷ [],
    )

-- The bytes of "#&+!".
abbrev pub starts_with_channel_sigil : Str → Bool
starts_with_channel_sigil [] = false
starts_with_channel_sigil (c ∷ _) = contains c (codes "#&+!")

unfoldable pub handle_mode : Message → List Str → Session → Session × List Event
unfolding source_nick apply_prefix_modes_to_state
handle_mode m (channel ∷ modes ∷ args) s =
    if starts_with_channel_sigil channel
    then (
      record s { state = apply_prefix_modes_to_state channel modes args s.state },
      mode_changed channel modes (join (codes " ") args) (source_nick m) ∷ [],
    )
    else (s, [])
handle_mode m _ s = (s, [])

unfoldable pub handle_topic : Message → List Str → Session → Session × List Event
unfolding source_nick set_topic
handle_topic m [] s = (s, [])
handle_topic m (channel ∷ _) s = (
  record s { state = set_topic channel m.trailing s.state },
  topic_changed channel m.trailing (source_nick m) ∷ [],
)

-- The loop of parseUnixSeconds, on the 64 bits of an int64; 0 at a byte that is no digit.
unfoldable pub unix_bits : ℕ → Str → ℕ
unix_bits v [] = v
unix_bits v (b ∷ s) =
    let rest = unix_bits ((v * 10 + (b - b'0')) % 2 ^ 64) s in
    if ltb b b'0' || ltb b'9' b then 0 else rest

unfoldable pub parse_unix_seconds : Str → ℤ
unfolding unix_bits
parse_unix_seconds s =
    let v = unix_bits 0 s in if ltb v (2 ^ 63) then pos v else negsuc (2 ^ 64 - 1 - v)

-- The numerics about topics and member lists.
unfoldable pub reply_topic : Message → List Str → Session → Session
unfolding set_topic
reply_topic m (_ ∷ channel ∷ _) s = record s { state = set_topic channel m.trailing s.state }
reply_topic m _ s = s

unfoldable pub reply_no_topic : List Str → Session → Session
unfolding clear_topic
reply_no_topic (_ ∷ channel ∷ _) s = record s { state = clear_topic channel s.state }
reply_no_topic _ s = s

unfoldable pub reply_topic_who_time : List Str → Session → Session
unfolding set_topic_meta parse_unix_seconds
reply_topic_who_time (_ ∷ channel ∷ setter ∷ at ∷ _) s = record s {
  state = set_topic_meta channel setter (parse_unix_seconds at) s.state;
}
reply_topic_who_time _ s = s

abbrev pub last_param : Str → List Str → Str
last_param p [] = p
last_param p (q ∷ ps) = last_param q ps

unfoldable pub reply_names : Message → List Str → Session → Session
unfolding on_names_reply fields
reply_names m (_ ∷ _ ∷ p ∷ ps) s =
    if is_empty m.trailing
    then s
    else record s { state = on_names_reply (last_param p ps) (fields m.trailing) s.state }
reply_names m _ s = s

abbrev pub names_of : Str → Option ChannelInfo → List Event
names_of channel none = []
names_of channel (some info) = channel_names channel info.members ∷ []

unfoldable pub reply_end_of_names : List Str → Session → Session × List Event
unfolding on_names_end get
reply_end_of_names (_ ∷ channel ∷ _) s =
    let after = on_names_end channel s.state in
    (record s { state = after }, names_of channel (get channel after))
reply_end_of_names _ s = (s, [])

unfoldable pub human_readable_join_failure : Str → Str
human_readable_join_failure code =
    if code == codes "474"
    then codes "banned from channel"
    else if code == codes "475"
    then codes "channel key required or incorrect"
    else if code == codes "471"
    then codes "channel is full"
    else if code == codes "473"
    then codes "channel is invite-only"
    else if code == codes "476"
    then codes "channel name not accepted by the network"
    else codes "rejected by network"

unfoldable pub handle_join_failure : Message → List Str → Session → Session × List Event
unfolding remove human_readable_join_failure
handle_join_failure m (_ ∷ channel ∷ _) s =
    let reason =
      if is_empty m.trailing then human_readable_join_failure m.command else m.trailing in
    (record s { wanted = (remove channel s.wanted).0 }, join_failed channel m.command reason ∷ [])
handle_join_failure m _ s = (s, [])

abbrev pub welcomed : List Str → Session → Session
welcomed [] s = s
welcomed (p ∷ _) s = record s { nicks = set_current_nick p s.nicks }

-- The cases of the switch; `other` does nothing to the session.
pub data Kind : Type 0 where
  join_line part_line quit_line kick_line nick_line topic_line mode_line topic_is no_topic
        topic_who_time :
      Kind
  names end_of_names join_failure welcome other : Kind

abbrev pub join_failures : List Str
join_failures = codes "474" ∷ codes "475" ∷ codes "471" ∷ codes "473" ∷ codes "476" ∷ []

abbrev pub kind_in : Str → List (Str × Kind) → Kind
kind_in command [] = other
kind_in command ((c, kind) ∷ kinds) = if command == c then kind else kind_in command kinds

abbrev pub kinds : List (Str × Kind)
kinds =
    (codes "JOIN", join_line)
    ∷ (codes "PART", part_line)
    ∷ (codes "QUIT", quit_line)
    ∷ (codes "KICK", kick_line)
    ∷ (codes "NICK", nick_line)
    ∷ (codes "TOPIC", topic_line)
    ∷ (codes "MODE", mode_line)
    ∷ (codes "332", topic_is)
    ∷ (codes "331", no_topic)
    ∷ (codes "333", topic_who_time)
    ∷ (codes "001", welcome)
    ∷ (codes "353", names)
    ∷ (codes "366", end_of_names)
    ∷ []

unfoldable pub kind_of : Str → Kind
kind_of command = if contains command join_failures then join_failure else kind_in command kinds

unfoldable pub dispatch_kind : Message → Kind → Session → Session × List Event
unfolding handle_join handle_part handle_quit handle_kick handle_nick_change handle_topic
    handle_mode reply_topic reply_no_topic reply_topic_who_time reply_names reply_end_of_names
    handle_join_failure set_current_nick
dispatch_kind m join_line s = handle_join m s
dispatch_kind m part_line s = handle_part m m.params s
dispatch_kind m quit_line s = handle_quit m s
dispatch_kind m kick_line s = handle_kick m m.params s
dispatch_kind m nick_line s = handle_nick_change m s
dispatch_kind m topic_line s = handle_topic m m.params s
dispatch_kind m mode_line s = handle_mode m m.params s
dispatch_kind m topic_is s = (reply_topic m m.params s, [])
dispatch_kind m no_topic s = (reply_no_topic m.params s, [])
dispatch_kind m topic_who_time s = (reply_topic_who_time m.params s, [])
dispatch_kind m names s = (reply_names m m.params s, [])
dispatch_kind m end_of_names s = reply_end_of_names m.params s
dispatch_kind m join_failure s = handle_join_failure m m.params s
dispatch_kind m welcome s = (welcomed m.params s, [])
dispatch_kind m other s = (s, [])

unfoldable pub dispatch_line : Message → Session → Session × List Event
unfolding dispatch_kind kind_of
dispatch_line m s = dispatch_kind m (kind_of m.command) s

unfoldable pub dispatch_all : List Message → Session → Session × List Event
unfolding dispatch_line
dispatch_all [] s = (s, [])
dispatch_all (m ∷ ms) s =
    let (after, events) = dispatch_line m s in
    let (last, more) = dispatch_all ms after in (last, events ++ more)
