-- ===== src/Irc/PingLedger.antt =====
-- internal/connector/irc/pingledger.go: the PINGs that wait for their PONG. The mutex makes each
-- method one step.
pub mod Oldest
mod Examples
use turborg.Base.{
  Bool, Option, Str, [], false, if◌then◌else◌, is_some, length, ltb, none, some, str_eq, true, ℕ,
  ◌∷◌,
}
use turborg.Base.Map.{Map, lookup, insert, delete}
use turborg.Base.Time.{Time}

pub record PingLedger : Type 0 where
  pub pending : Map Str Time

pub new_ping_ledger : PingLedger
new_ping_ledger = record { pending = [] }

pub add : Str → Time → PingLedger → PingLedger
add token sent_at l = record { pending = insert token sent_at l.pending }

pub ack : Str → PingLedger → PingLedger × Bool
ack token l =
    if is_some (lookup token l.pending)
    then (record { pending = delete token l.pending }, true)
    else (l, false)

-- The loop of Oldest: `oldest` is the time so far, `none` while `first` holds.
pub oldest_of : Option Time → Map Str Time → Option Time
oldest_of oldest [] = oldest
oldest_of none ((token, t) ∷ rest) = oldest_of (some t) rest
oldest_of (some o) ((token, t) ∷ rest) = oldest_of (some (if ltb t o then t else o)) rest

pub oldest : PingLedger → Option Time
unfolding oldest_of
oldest l = oldest_of none l.pending

pub len : PingLedger → ℕ
len l = length l.pending
