-- ===== src/Irc/Session/Examples.antt =====
-- A session at concrete lines.
use turborg.Base.{
  List, Str, [], ◌∷◌, some, true, false, refl, ◌≡◌, ◌≢◌, arith, str_eq, str_beq, is_some, nat_eq,
}
use turborg.Base.Map.{lookup, insert, delete}
use turborg.Base.Text.{codes, to_lower, equal_fold}
use turborg.Base.Text.Split.{cut, trim_space}
use turborg.Irc.Protocol.{Message}
use turborg.Irc.ChannelState.{get, new_channel_state}
use turborg.Irc.Session.{Session, dispatch_all, dispatch_line, kind_of, names, user_leave}
use turborg.Irc.Session.Heard.{hear_all, seen}
use turborg.Irc.Session.Announced.{announced}

abbrev sent : Str → Str → List Str → Str → Message
sent prefix command params trailing = record {
  raw = [];
  tags = [];
  prefix = prefix;
  command = command;
  params = params;
  trailing = trailing;
}

abbrev chan : Str
chan = codes "#Go"

abbrev bo : Str
bo = codes "bo"

abbrev start : Session
start = record {
  state = new_channel_state;
  wanted = record { channels = []; order = []; on_change = false };
  nicks = record {
    configured = codes "mara";
    current = codes "mara";
    desired = codes "mara";
    preferred = [];
    attempted = codes "mara";
    fallbacks = 0;
  };
}

-- The agent joins, then another user; that one quits.
abbrev lines : List Message
lines =
    sent (codes "Mara!m@h") (codes "JOIN") (chan ∷ []) []
    ∷ sent (codes "bo!b@h") (codes "JOIN") (codes "#go" ∷ []) []
    ∷ []

abbrev quits : Message
quits = sent (codes "bo!b@h") (codes "QUIT") [] (codes "bye")

abbrev before : Session
before = (dispatch_all lines start).0

still_tracked : is_some (get chan before.state) ≡ true
unfolding dispatch_all get lookup insert to_lower str_beq cut trim_space equal_fold
still_tracked = refl

tracked_after : is_some (get chan (dispatch_line quits before).0.state) ≡ true
unfolding dispatch_all dispatch_line get lookup insert delete to_lower str_beq cut trim_space
    equal_fold
tracked_after = refl

other_user : equal_fold bo before.nicks.current ≡ false
unfolding dispatch_all lookup insert to_lower str_beq cut trim_space equal_fold
other_user = refl

no_names : kind_of quits.command ≢ names
unfolding kind_of str_beq
no_names = λ h. ground (arith, h)

announced_example :
    seen (dispatch_line quits before).0.state (to_lower chan) bo
    ≡ hear_all (dispatch_line quits before).1 (seen before.state) (to_lower chan) bo
announced_example =
    announced lines quits start before chan bo refl refl still_tracked tracked_after other_user refl
      no_names

-- The quit is announced for the channel, under the name by which it was joined.
quit_events : (dispatch_line quits before).1 ≡ user_leave chan bo (some (codes "bye")) ∷ []
unfolding dispatch_all dispatch_line lookup insert to_lower str_beq cut trim_space equal_fold
quit_events = refl
