-- ===== src/Irc/ChannelState/Examples.antt =====
-- The theorems on state.go at concrete inputs, and a session.
use turborg.Base.{str_ne, List, Str, [], refl, some, str_beq, str_eq, true, ◌∷◌, ◌≡◌, ◌≢◌}
use turborg.Base.Text.{codes, to_lower}
use turborg.Base.Map.{insert, lookup}
use turborg.Irc.ChannelState.{
  ChannelInfo, ChannelState, new_channel_state, new_info, get, on_self_join, on_nick_change,
  on_names_reply, on_names_end,
}
use turborg.Irc.ChannelState.Consistency.{
  IsConsistent, new-IsConsistent, Event, self_join, names, names_end, handle, handle_all,
  handle_all-IsConsistent,
}
use turborg.Irc.ChannelState.Members.{prefix_in, nick_change_everywhere}
use turborg.Irc.ChannelState.Isolation.{handle_isolated}

abbrev lobby : Str
lobby = codes "#Lobby"

abbrev ann : Str
ann = codes "Ann"

abbrev bo : Str
bo = codes "bo"

abbrev session : List Event
session = self_join lobby ∷ names lobby (codes "@Ann" ∷ codes "+bo" ∷ []) ∷ names_end lobby ∷ []

abbrev joined : ChannelState
joined = handle_all new_channel_state session

joined-IsConsistent : IsConsistent joined
joined-IsConsistent = handle_all-IsConsistent new_channel_state session new-IsConsistent

ann_ne_bo : ann ≢ bo
unfolding str_beq
ann_ne_bo = str_ne ann bo refl

nick_change_everywhere_example :
    prefix_in (get lobby (on_nick_change ann bo joined)) bo ≡ some (codes "@")
unfolding handle_all on_self_join on_names_reply on_names_end get lookup insert str_beq to_lower
nick_change_everywhere_example = nick_change_everywhere ann bo lobby bo joined ann_ne_bo

was_member : prefix_in (get lobby joined) ann ≡ some (codes "@")
unfolding handle_all on_self_join on_names_reply on_names_end get lookup insert str_beq to_lower
was_member = refl

abbrev lobby_info : ChannelInfo
lobby_info = record (new_info lobby) {
  members = (ann, codes "@") ∷ (bo, codes "+") ∷ [];
  names_complete = true;
}

handle_isolated_example : get lobby (handle joined (self_join (codes "#other"))) ≡ get lobby joined
unfolding to_lower str_beq
handle_isolated_example =
    handle_isolated lobby joined (self_join (codes "#other"))
      (str_ne (to_lower (codes "#other")) (to_lower lobby) refl)
