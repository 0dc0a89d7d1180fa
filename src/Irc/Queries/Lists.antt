-- ===== src/Irc/Queries/Lists.antt =====
-- internal/connector/irc/connector.go: the replies to WHO, for which the web gateway asks like for
-- those to WHOIS, and to LIST, which has one buffer.
use turborg.Base.{List, Option, Str, [], none, some, ◌∷◌, ◌++◌, ◌==◌, str_eq, if◌then◌else◌}
use turborg.Base.Int.{ℤ, pos}
use turborg.Base.Map.{Map, insert, delete, lookup}
use turborg.Base.Text.{codes, to_lower, to_upper}
use turborg.Base.Text.Numbers.{atoi}
use turborg.Base.Text.Split.{cut, fields}
use turborg.Irc.Protocol.{Message}
use turborg.Irc.Session.{last_param}
use turborg.Irc.Queries.{Field, text, text_field, number_field, nth}

pub record WhoUserEntry : Type 0 where
  pub nick : Str
  pub user : Str
  pub host : Str
  pub real_name : Str
  pub flags : Str

pub record WhoBuilder : Type 0 where
  pub target : Str
  pub users : List WhoUserEntry

unfoldable pub who_row : WhoUserEntry → List Field
who_row u =
    text (codes "nick") u.nick
    ∷ (text_field (codes "user") u.user
        ++ (text_field (codes "host") u.host
            ++ (text_field (codes "realName") u.real_name ++ text_field (codes "flags") u.flags)))

abbrev pub who_rows : List WhoUserEntry → List (List Field)
who_rows [] = []
who_rows (u ∷ us) = who_row u ∷ who_rows us

abbrev pub WhoMap : Type 0
WhoMap = Map Str WhoBuilder

pub data WhoResult : Type 0 where
  who_result : Str → List (List Field) → WhoResult

unfoldable pub mark_who_requested : Str → WhoMap → WhoMap
mark_who_requested target w = elim (lookup (to_lower target) w) [
  | none ↦ insert (to_lower target) (record { target = target; users = [] }) w
  | some b ↦ w
]

-- The trailing text behind the hop count.
abbrev pub behind_hops : Str → Option (Str × Str) → Str
behind_hops trailing none = trailing
behind_hops trailing (some (hops, name)) = name

abbrev pub with_reply : Str → WhoUserEntry → Option WhoBuilder → WhoMap → WhoMap
with_reply target entry none w = w
with_reply target entry (some b) w =
    insert (to_lower target) (record b { users = b.users ++ entry ∷ [] }) w

unfoldable pub who_reply : List Str → Str → WhoMap → WhoMap
unfolding cut
who_reply (_ ∷ target ∷ user ∷ host ∷ _ ∷ nick ∷ flags ∷ _) trailing w =
    with_reply target
      (record {
        nick = nick;
        user = user;
        host = host;
        real_name = behind_hops trailing (cut (codes " ") trailing);
        flags = flags;
      })
      (lookup (to_lower target) w) w
who_reply _ trailing w = w

abbrev pub finished : Str → Option WhoBuilder → WhoMap → WhoMap × List WhoResult
finished target none w = (w, [])
finished target (some b) w = (delete (to_lower target) w, who_result target (who_rows b.users) ∷ [])

unfoldable pub end_of_who : Option Str → WhoMap → WhoMap × List WhoResult
unfolding who_row
end_of_who none w = (w, [])
end_of_who (some target) w = finished target (lookup (to_lower target) w) w

unfoldable pub handle_who_numeric : Message → WhoMap → WhoMap × List WhoResult
unfolding who_reply end_of_who
handle_who_numeric m w =
    if m.command == codes "352"
    then (who_reply m.params m.trailing w, [])
    else if m.command == codes "315"
    then end_of_who (nth 1 m.params) w
    else (w, [])

-- registerWebQuery: what a line from the web gateway asks for.
pub data WebQuery : Type 0 where
  whois_of who_of : Str → WebQuery
  no_query : WebQuery

unfoldable pub web_query : List Str → WebQuery
unfolding to_upper
web_query (command ∷ arg ∷ args) =
    if to_upper command == codes "WHOIS"
    then whois_of (last_param arg args)
    else if to_upper command == codes "WHO"
    then who_of arg
    else no_query
web_query _ = no_query

unfoldable pub register_web_query : Str → WebQuery
unfolding web_query fields
register_web_query line = web_query (fields line)

pub record ListChannelEntry : Type 0 where
  pub name : Str
  pub users : ℤ
  pub topic : Str

abbrev pub users_of : Option ℤ → ℤ
users_of none = pos 0
users_of (some n) = n

unfoldable pub list_reply : List Str → Str → List ListChannelEntry → List ListChannelEntry
unfolding atoi
list_reply (_ ∷ name ∷ users ∷ _) trailing l =
    l ++ record { name = name; users = users_of (atoi users); topic = trailing } ∷ []
list_reply _ trailing l = l

abbrev pub list_rows : List ListChannelEntry → List (List Field)
list_rows [] = []
list_rows (e ∷ es) =
    (text (codes "name") e.name
      ∷ (number_field (codes "users") e.users ++ text_field (codes "topic") e.topic))
    ∷ list_rows es

-- The buffer, and the rows of an EventListResult.
unfoldable pub handle_list_numeric :
    Message → List ListChannelEntry → List ListChannelEntry × Option (List (List Field))
unfolding list_reply
handle_list_numeric m l =
    if m.command == codes "321"
    then ([], none)
    else if m.command == codes "322"
    then (list_reply m.params m.trailing l, none)
    else if m.command == codes "323"
    then ([], some (list_rows l))
    else (l, none)
