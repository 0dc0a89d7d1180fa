-- ===== src/Irc/ChannelState/Size.antt =====
-- How many channels a join adds.
use turborg.Base.{
  refl, ◌≡◌, Str, [], arith, inl, inr, str_eq, suc, ◌∷◌, ◌≤◌, length-append, Option-cases,
}
use turborg.Base.Text.{to_lower}
use turborg.Base.Map.{lookup}
use turborg.Irc.ChannelState.{new_channel_state, ChannelState, count, on_self_join}

pub count-on_self_join :
    (channel : Str) (s : ChannelState) → count (on_self_join channel s) ≤ suc (count s)
unfolding count on_self_join
count-on_self_join channel s = elim (Option-cases (lookup (to_lower channel) s.channels)) [
  | inl e ↦ rw (e, length-append s.order (to_lower channel ∷ [])) (omega arith)
  | inr (info, e) ↦ rw e (omega arith)
]

pub count-new_channel_state : count new_channel_state ≡ 0
unfolding count
count-new_channel_state = refl
