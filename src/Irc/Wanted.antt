-- ===== src/Irc/Wanted.antt =====
-- internal/connector/irc/wanted.go: the channels that the connector wants to be in, with their
-- keys. A mutating method returns the new record, and whether it fired the callback; `on_change`
-- says whether one is installed.
pub mod Entries
pub mod Join
mod Examples
use turborg.Base.Text.{is_empty, to_lower}
use turborg.Base.Text.Split.{split, trim_space}
use turborg.Base.{
  replicate, take, ◌-◌, Bool, List, Option, Str, [], false, if◌then◌else◌, is_some, keep, length,
  none, not, or_zero, remove_first, some, str_eq, ℕ, ◌&&◌, ◌++◌, ◌==◌, ◌||◌, ◌∷◌,
}
use turborg.Base.Map.{Map, delete, insert, keys, lookup}

pub record WantedChannel : Type 0 where
  pub name : Str
  pub key : Str

pub record WantedChannels : Type 0 where
  pub channels : Map Str WantedChannel
  pub order : List Str
  pub on_change : Bool

-- The map lookup of an existing entry, and what `Add` makes of it.
unfoldable pub add_entry :
    Str → Str → Str → WantedChannels → Option WantedChannel → WantedChannels × Bool
add_entry lc name key w none = (
  record w {
    channels = insert lc (record { name = name; key = key }) w.channels;
    order = w.order ++ lc ∷ [];
  },
  w.on_change,
)
add_entry lc name key w (some existing) =
    if not (is_empty key) && not (existing.key == key)
    then (record w { channels = insert lc (record existing { key = key }) w.channels }, w.on_change)
    else (w, false)

unfoldable pub add : Str → Str → WantedChannels → WantedChannels × Bool
unfolding add_entry
add name key w =
    let name = trim_space name in
    let lc = to_lower name in
    if is_empty name then (w, false) else add_entry lc name key w (lookup lc w.channels)

unfoldable pub seed_all : WantedChannels → List Str → WantedChannels
seed_all w [] = w
seed_all w (name ∷ names) = seed_all (add name [] w).0 names

unfoldable pub new_wanted_channels : List Str → WantedChannels
unfolding seed_all
new_wanted_channels seed = seed_all (record { channels = []; order = []; on_change = false }) seed

unfoldable pub set_on_change : Bool → WantedChannels → WantedChannels
set_on_change installed w = record w { on_change = installed }

unfoldable pub remove : Str → WantedChannels → WantedChannels × Bool
remove name w =
    let name = trim_space name in
    let lc = to_lower name in
    if is_empty name || not (is_some (lookup lc w.channels)) then (w, false) else (
      record w { channels = delete lc w.channels; order = remove_first lc w.order },
      w.on_change,
    )

abbrev pub zero_channel : WantedChannel
zero_channel = record { name = []; key = [] }

unfoldable pub entries_of : Map Str WantedChannel → List Str → List WantedChannel
entries_of channels [] = []
entries_of channels (lc ∷ lcs) = or_zero (lookup lc channels) zero_channel ∷ entries_of channels lcs

unfoldable pub snapshot : WantedChannels → List WantedChannel
unfolding entries_of
snapshot w = entries_of w.channels w.order

unfoldable pub get : Str → WantedChannels → Option WantedChannel
get name w = lookup (to_lower (trim_space name)) w.channels

unfoldable pub len : WantedChannels → ℕ
len w = length w.order

-- The byte of ",".
abbrev pub comma : ℕ
comma = b','

trim_all : List Str → List Str
trim_all [] = []
trim_all (p ∷ ps) = trim_space p ∷ trim_all ps

unfoldable pub split_and_trim : Str → List Str
unfolding trim_all
split_and_trim s =
    if is_empty s then [] else keep (λ p. not (is_empty p)) (trim_all (split comma s))

unfoldable pub split_positional : Str → List Str
unfolding trim_all
split_positional s = if is_empty s then [] else trim_all (split comma s)

-- The loop that appends "" while there are fewer keys than channels, and the cut to `channels`.
unfoldable pub align : List Str → List Str → List Str
align channels keys = take (length channels) (keys ++ replicate (length channels - length keys) [])

-- target and keyList, from the parameters of the line.
unfoldable pub join_target : List Str → Str → Str × Str
join_target [] trailing = (trim_space trailing, [])
join_target (p ∷ []) trailing = (trim_space p, trim_space trailing)
join_target (p ∷ q ∷ _) trailing = (trim_space p, trim_space q)

unfoldable pub parse_join_line : List Str → Str → List Str × List Str
unfolding join_target align
parse_join_line params trailing =
    let (target, key_list) = join_target params trailing in
    let channels = split_and_trim target in
    if is_empty target then ([], []) else (channels, align channels (split_positional key_list))
