-- ===== src/Irc/Nudge/Examples.antt =====
-- An owner who hears of every second message.
use turborg.Base.{Str, [], refl, some, ◌≡◌, str_eq}
use turborg.Base.Int.{pos}
use turborg.Base.Text.{codes}
use turborg.Irc.Nudge.{OwnerNudge, new_owner_nudge}

abbrev nudge : OwnerNudge
nudge = record { owner_nick = codes "boss"; every_n = 2; count = 5; today = codes "2024-01-01" }

abbrev today : Str
today = codes "2024-01-02"

made :
    new_owner_nudge (codes "boss") (pos 2)
    ≡ some (record { owner_nick = codes "boss"; every_n = 2; count = 0; today = [] })
unfolding new_owner_nudge
made = refl
