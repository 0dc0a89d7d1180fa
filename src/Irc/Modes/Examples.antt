-- ===== src/Irc/Modes/Examples.antt =====
-- MODE lines at concrete states.
use turborg.Base.{or_zero, refl, ◌≡◌, Str, [], some, true, ◌∷◌, nat_eq, str_eq, str_beq}
use turborg.Base.Map.{lookup, insert}
use turborg.Base.Text.{codes, to_lower}
use turborg.Irc.ChannelState.{ChannelState, ChannelInfo, get, set_member_prefix, new_info}
use turborg.Irc.Modes.{apply_prefix_modes_to_state, walk}
use turborg.Irc.Modes.Snapshot.{live, apply_modes_live}

abbrev chan : Str
chan = codes "#go"

abbrev mara : Str
mara = codes "mara"

abbrev room : ChannelInfo
room = record (new_info chan) { members = (mara, []) ∷ (codes "bo", codes "@") ∷ [] }

abbrev known : ChannelState
known = record { channels = (chan, room) ∷ []; order = chan ∷ [] }

get-known : get chan known ≡ some room
unfolding get lookup to_lower str_beq
get-known = refl

apply_modes_live_example :
    apply_prefix_modes_to_state chan (codes "+v-o") (mara ∷ codes "bo" ∷ []) known
    ≡ walk (live chan) chan (codes "+v-o") true (mara ∷ codes "bo" ∷ []) known
unfolding str_beq
apply_modes_live_example =
    apply_modes_live chan (codes "+v-o") (mara ∷ codes "bo" ∷ []) room known get-known
      (refl, (refl, tt))

-- A member that is made an operator and given a voice in one line is shown with the voice.
demoted :
    lookup mara
      (or_zero
        (get chan (apply_prefix_modes_to_state chan (codes "+ov") (mara ∷ mara ∷ []) known))
        room).members
    ≡ some (codes "+")
unfolding apply_prefix_modes_to_state get set_member_prefix lookup to_lower str_beq insert
demoted = refl

-- One that is made an operator and no operator in one line is shown as an operator.
still_operator :
    lookup mara
      (or_zero
        (get chan (apply_prefix_modes_to_state chan (codes "+o-o") (mara ∷ mara ∷ []) known))
        room).members
    ≡ some (codes "@")
unfolding apply_prefix_modes_to_state get set_member_prefix lookup to_lower str_beq insert
still_operator = refl
