-- ===== src/Irc/PingLedger/Examples.antt =====
-- Two PINGs of which the first is not answered.
use turborg.Base.{List, [], ◌∷◌, str_eq, nat_eq}
use turborg.Base.Text.{codes}
use turborg.Irc.PingLedger.{add, new_ping_ledger, PingLedger}
use turborg.Irc.PingLedger.Oldest.{acking, adding, Call}

abbrev ledger : PingLedger
ledger = add (codes "1") 50 new_ping_ledger

abbrev calls : List Call
calls = adding (codes "2") 60 ∷ acking (codes "2") ∷ acking (codes "9") ∷ []
