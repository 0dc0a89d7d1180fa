-- ===== src/Irc/Nudge.antt =====
-- internal/connector/irc/nudge.go: the messages that tell the owner how much the bot has sent. The
-- day of the clock, formatted as YYYY-MM-DD, is an argument, and so is whether a writer is given;
-- what is handed to the writer is returned. A nil nudge does nothing.
pub mod Daily
mod Examples
use turborg.Base.{
  Bool, Option, Str, [], if◌then◌else◌, nat_beq, none, some, str_eq, suc, ℕ, ◌%◌, ◌&&◌, ◌++◌, ◌==◌,
  ◌||◌,
}
use turborg.Base.Int.{ℤ, clamp, le_pos}
use turborg.Base.Text.{codes, decimal, is_empty}

pub record OwnerNudge : Type 0 where
  pub owner_nick : Str
  pub every_n : ℕ
  pub count : ℕ
  pub today : Str

pub new_owner_nudge : Str → ℤ → Option OwnerNudge
new_owner_nudge owner_nick every_n =
    if is_empty owner_nick || le_pos every_n 0
    then none
    else some (record { owner_nick = owner_nick; every_n = clamp every_n; count = 0; today = [] })

-- The reset at the day boundary.
pub on_day : Str → OwnerNudge → OwnerNudge
on_day today n = if today == n.today then n else record n { today = today; count = 0 }

pub nudge_line : OwnerNudge → Str
nudge_line n =
    codes "PRIVMSG "
    ++ n.owner_nick
    ++ codes " :[turborg] you've sent "
    ++ decimal n.count
    ++ codes " messages today"

pub note : Str → Bool → OwnerNudge → OwnerNudge × Option Str
unfolding on_day nudge_line
note today writer n =
    let m = on_day today n in
    let counted = record m { count = suc m.count } in
    (
      counted,
      if nat_beq (counted.count % counted.every_n) 0 && writer
          then some (nudge_line counted)
          else none,
    )
