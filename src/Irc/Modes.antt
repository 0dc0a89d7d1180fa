-- ===== src/Irc/Modes.antt =====
-- internal/connector/irc/connector.go: applyPrefixModesToState, which follows a MODE line in the
-- tracked members. The code reads a member's prefix from a copy that it takes before the loop; the
-- loop here takes the way of reading as an argument, to compare it with reading the current state.
pub mod Snapshot
mod Examples
use turborg.Base.{
  Bool, List, Option, Str, [], contains, none, some, true, false, ◌||◌, ◌&&◌, ◌==◌, ◌∷◌, ℕ, nat_eq,
  str_eq, if◌then◌else◌, ltb,
}
use turborg.Base.Map.{lookup}
use turborg.Base.Text.{codes, is_empty}
use turborg.Irc.ChannelState.{ChannelState, ChannelInfo, get, set_member_prefix}

-- prefixForLetter
unfoldable pub prefix_for_letter : ℕ → Option Str
prefix_for_letter c =
    if c == b'q'
    then some (codes "~")
    else if c == b'a'
    then some (codes "&")
    else if c == b'o'
    then some (codes "@")
    else if c == b'h'
    then some (codes "%")
    else if c == b'v'
    then some (codes "+")
    else none

-- prefixRank, with 0 for a text that is no prefix.
unfoldable pub prefix_rank : Str → ℕ
prefix_rank p =
    if p == codes "&"
    then 1
    else if p == codes "@"
    then 2
    else if p == codes "%"
    then 3
    else if p == codes "+"
    then 4
    else if p == []
    then 5
    else 0

-- The letters of argBoth.
abbrev pub arg_both : List ℕ
arg_both = codes "qaohvbeIkfj"

abbrev pub consumes_arg : Bool → ℕ → Bool
consumes_arg adding c = contains c arg_both || (adding && c == b'l')

abbrev pub take_arg : Bool → List Str → Str × List Str
take_arg false args = ([], args)
take_arg true [] = ([], [])
take_arg true (a ∷ args) = (a, args)

-- The prefix that a member with the given one is to have; `none` leaves it.
unfoldable pub new_prefix : Bool → Str → Str → Option Str
unfolding prefix_rank
new_prefix true prefix current =
    if ltb (prefix_rank prefix) (prefix_rank current) then some prefix else none
new_prefix false prefix current = if current == prefix then some [] else none

abbrev pub set_prefix : Str → Str → Option Str → ChannelState → ChannelState
set_prefix channel nick none s = s
set_prefix channel nick (some prefix) s = set_member_prefix channel nick prefix s

abbrev pub on_member : Str → Str → Bool → Str → Option Str → ChannelState → ChannelState
on_member channel nick adding prefix none s = s
on_member channel nick adding prefix (some current) s =
    set_prefix channel nick (new_prefix adding prefix current) s

abbrev pub on_letter : Str → Str → Bool → Option Str → Option Str → ChannelState → ChannelState
on_letter channel nick adding none current s = s
on_letter channel nick adding (some prefix) current s =
    if is_empty nick then s else on_member channel nick adding prefix current s

-- A member's prefix, in a state.
abbrev pub Reading : Type 0
Reading = ChannelState → Str → Option Str

-- One letter: whether modes are being added, the arguments that are left, and the state.
unfoldable pub step :
    Reading → Str → ℕ → Bool → List Str → ChannelState → Bool × List Str × ChannelState
unfolding prefix_for_letter new_prefix set_member_prefix
step read channel c adding args s =
    let (arg, rest) = take_arg (consumes_arg adding c) args in
    if c == b'+'
    then (true, args, s)
    else if c == b'-'
    then (false, args, s)
    else (adding, rest, on_letter channel arg adding (prefix_for_letter c) (read s arg) s)

unfoldable pub walk : Reading → Str → Str → Bool → List Str → ChannelState → ChannelState
unfolding step
walk read channel [] adding args s = s
walk read channel (c ∷ modes) adding args s =
    let (adding, args, s) = step read channel c adding args s in
    walk read channel modes adding args s

abbrev pub walk_copy : Str → Str → List Str → Option ChannelInfo → ChannelState → ChannelState
walk_copy channel modes args none s = s
walk_copy channel modes args (some info) s =
    walk (λ _ nick. lookup nick info.members) channel modes true args s

unfoldable pub apply_prefix_modes_to_state : Str → Str → List Str → ChannelState → ChannelState
unfolding walk get
apply_prefix_modes_to_state channel modes args s = walk_copy channel modes args (get channel s) s
