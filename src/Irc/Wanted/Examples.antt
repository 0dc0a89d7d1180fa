-- ===== src/Irc/Wanted/Examples.antt =====
-- The theorems on wanted.go at concrete inputs, and a run of its parser.
use turborg.Base.Text.Split.{split, trim_space}
use turborg.Base.Text.{codes, to_lower}
use turborg.Base.Map.{insert, lookup}
use turborg.Base.{List, Str, [], refl, str_beq, str_eq, true, ◌∷◌, ◌≡◌}
use turborg.Irc.Wanted.{
  WantedChannels, add, new_wanted_channels, set_on_change, snapshot, parse_join_line,
  split_and_trim, split_positional,
}

abbrev seed : List Str
seed = codes "#Go" ∷ codes " #go " ∷ codes "#antt" ∷ []

abbrev wanted : WantedChannels
wanted = set_on_change true (new_wanted_channels seed)

seeded :
    snapshot wanted
    ≡ record { name = codes "#Go"; key = [] } ∷ record { name = codes "#antt"; key = [] } ∷ []
unfolding new_wanted_channels set_on_change add snapshot lookup insert str_beq to_lower trim_space
seeded = refl

abbrev join_params : List Str
join_params = codes "#a,#b,,#c" ∷ codes "k1,,k3" ∷ []

parsed :
    parse_join_line join_params []
    ≡ (codes "#a" ∷ codes "#b" ∷ codes "#c" ∷ [], codes "k1" ∷ [] ∷ codes "k3" ∷ [])
unfolding parse_join_line split_and_trim split_positional trim_space split
parsed = refl
