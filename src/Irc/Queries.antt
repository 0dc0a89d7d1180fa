-- ===== src/Irc/Queries.antt =====
-- internal/connector/irc/connector.go: the replies to WHOIS, which arrive as many lines and are
-- published as one event, if the web gateway asked for them. The map is behind a mutex and only the
-- read loop writes to a builder, so a handler is one step.
pub mod Isolated
pub mod Answered
pub mod Lists
mod Examples
use turborg.Base.Map.{Map, delete, insert, lookup}
use turborg.Base.{
  Bool, List, Option, Str, [], none, some, true, false, ◌∷◌, ◌++◌, ◌==◌, ℕ, zero, suc, str_eq,
  if◌then◌else◌, contains, nat_eq,
}
use turborg.Base.Int.{ℤ, pos, le_pos}
use turborg.Base.Text.{to_lower, codes, is_empty}
use turborg.Base.Text.Split.{fields, trim_left}
use turborg.Irc.Protocol.{Message}
use turborg.Irc.Session.{parse_unix_seconds}

pub record WhoisBuilder : Type 0 where
  pub nick : Str
  pub user : Str
  pub host : Str
  pub real_name : Str
  pub server : Str
  pub server_info : Str
  pub account : Str
  pub idle_seconds : ℤ
  pub signon_at : ℤ
  pub secure : Bool
  pub is_operator : Bool
  pub channels : List Str

abbrev pub new_builder : WhoisBuilder
new_builder = record {
  nick = [];
  user = [];
  host = [];
  real_name = [];
  server = [];
  server_info = [];
  account = [];
  idle_seconds = pos 0;
  signon_at = pos 0;
  secure = false;
  is_operator = false;
  channels = [];
}

-- A field of an event, under its name; one that is not populated is left out.
pub data Field : Type 0 where
  text : Str → Str → Field
  number : Str → ℤ → Field
  flag : Str → Field
  texts : Str → List Str → Field

abbrev pub text_field : Str → Str → List Field
text_field name value = if is_empty value then [] else text name value ∷ []

abbrev pub number_field : Str → ℤ → List Field
number_field name value = if le_pos value 0 then [] else number name value ∷ []

abbrev pub flag_field : Str → Bool → List Field
flag_field name value = if value then flag name ∷ [] else []

abbrev pub texts_field : Str → List Str → List Field
texts_field name [] = []
texts_field name (v ∷ values) = texts name (v ∷ values) ∷ []

unfoldable pub whois_fields : WhoisBuilder → List Field
whois_fields b =
    text_field (codes "user") b.user
    ++ (text_field (codes "host") b.host
        ++ (text_field (codes "realName") b.real_name
            ++ (text_field (codes "account") b.account
                ++ (text_field (codes "server") b.server
                    ++ (text_field (codes "serverInfo") b.server_info
                        ++ (number_field (codes "idleSeconds") b.idle_seconds
                            ++ (number_field (codes "signonAt") b.signon_at
                                ++ (flag_field (codes "secure") b.secure
                                    ++ (flag_field (codes "isOperator") b.is_operator
                                        ++ texts_field (codes "channels") b.channels)))))))))

pub data Result : Type 0 where
  whois_result : Str → List Field → Result
  whois_error : Str → Str → Result

-- Positions of the parameters, from 0; "" if there are fewer.
abbrev pub nth : ℕ → List Str → Option Str
nth n [] = none
nth zero (p ∷ ps) = some p
nth (suc n) (p ∷ ps) = nth n ps

abbrev pub is_glyph : ℕ → Bool
is_glyph c = contains c (codes "~&@%+")

abbrev pub clean_all : List Str → List Str
clean_all [] = []
clean_all (channel ∷ channels) = trim_left is_glyph channel ∷ clean_all channels

-- The numerics of WHOIS, with the parts of the message that they use.
abbrev pub with_user : Option Str → Option Str → WhoisBuilder → WhoisBuilder
with_user (some user) (some host) b = record b { user = user; host = host }
with_user _ _ b = b

abbrev pub with_server : Option Str → WhoisBuilder → WhoisBuilder
with_server none b = b
with_server (some server) b = record b { server = server }

abbrev pub with_idle : Option Str → WhoisBuilder → WhoisBuilder
with_idle none b = b
with_idle (some seconds) b = record b { idle_seconds = parse_unix_seconds seconds }

abbrev pub with_signon : Option Str → WhoisBuilder → WhoisBuilder
with_signon none b = b
with_signon (some seconds) b = record b { signon_at = parse_unix_seconds seconds }

abbrev pub with_account : Option Str → WhoisBuilder → WhoisBuilder
with_account none b = b
with_account (some account) b = record b { account = account }

-- Whether the reply is complete, and the builder.
unfoldable pub apply_whois_numeric : Message → WhoisBuilder → Bool × WhoisBuilder
unfolding parse_unix_seconds fields
apply_whois_numeric m b =
    if m.command == codes "311"
    then (false, record (with_user (nth 2 m.params) (nth 3 m.params) b) { real_name = m.trailing })
    else if m.command == codes "312"
    then (false, record (with_server (nth 2 m.params) b) { server_info = m.trailing })
    else if m.command == codes "313"
    then (false, record b { is_operator = true })
    else if m.command == codes "317"
    then (false, with_signon (nth 3 m.params) (with_idle (nth 2 m.params) b))
    else if m.command == codes "319"
    then (false, record b { channels = b.channels ++ clean_all (fields m.trailing) })
    else if m.command == codes "330"
    then (false, with_account (nth 2 m.params) b)
    else if m.command == codes "671"
    then (false, record b { secure = true })
    else (m.command == codes "318", b)

abbrev pub WhoisMap : Type 0
WhoisMap = Map Str WhoisBuilder

unfoldable pub publish_whois_result : Str → WhoisBuilder → Str → WhoisMap → WhoisMap × List Result
unfolding whois_fields
publish_whois_result target b reason w = (
  delete (to_lower target) w,
  (if is_empty reason then whois_result target (whois_fields b) else whois_error target reason)
      ∷ [],
)

abbrev pub mark_absent : Str → Option WhoisBuilder → WhoisMap → WhoisMap
mark_absent key none w = insert key new_builder w
mark_absent key (some b) w = w

unfoldable pub mark_whois_requested : Str → WhoisMap → WhoisMap
mark_whois_requested target w = mark_absent (to_lower target) (lookup (to_lower target) w) w

abbrev pub with_nick : Str → WhoisBuilder → WhoisBuilder
with_nick target b = if is_empty b.nick then record b { nick = target } else b

-- The builder is a pointer, so what the numeric writes is in the map.
unfoldable pub whois_found : Message → Str → Option WhoisBuilder → WhoisMap → WhoisMap × List Result
unfolding apply_whois_numeric publish_whois_result
whois_found m target none w = (w, [])
whois_found m target (some b) w =
    let (complete, b) = apply_whois_numeric m (with_nick target b) in
    if complete then publish_whois_result target b [] w else (insert (to_lower target) b w, [])

abbrev pub whois_target : Message → Option Str → WhoisMap → WhoisMap × List Result
whois_target m none w = (w, [])
whois_target m (some target) w = whois_found m target (lookup (to_lower target) w) w

unfoldable pub handle_whois_numeric : Message → WhoisMap → WhoisMap × List Result
unfolding whois_found
handle_whois_numeric m w = whois_target m (nth 1 m.params) w

unfoldable pub no_such_nick :
    Message → Str → Option WhoisBuilder → WhoisMap → WhoisMap × List Result
unfolding publish_whois_result
no_such_nick m target none w = (w, [])
no_such_nick m target (some b) w = publish_whois_result target b m.trailing w

unfoldable pub handle_whois_no_such_nick : Message → Option Str → WhoisMap → WhoisMap × List Result
unfolding no_such_nick
handle_whois_no_such_nick m none w = (w, [])
handle_whois_no_such_nick m (some target) w = no_such_nick m target (lookup (to_lower target) w) w

abbrev pub whois_numerics : List Str
whois_numerics =
    codes "311"
    ∷ codes "312"
    ∷ codes "313"
    ∷ codes "317"
    ∷ codes "319"
    ∷ codes "330"
    ∷ codes "671"
    ∷ codes "318"
    ∷ []

-- What the WHOIS requests meet: another request, or a line from the server.
pub data Op : Type 0 where
  asked : Str → Op
  arrived : Message → Op

unfoldable pub whois_step : Op → WhoisMap → WhoisMap × List Result
unfolding mark_whois_requested handle_whois_numeric handle_whois_no_such_nick
whois_step (asked target) w = (mark_whois_requested target w, [])
whois_step (arrived m) w =
    if contains m.command whois_numerics
    then handle_whois_numeric m w
    else if m.command == codes "401"
    then handle_whois_no_such_nick m (nth 1 m.params) w
    else (w, [])

unfoldable pub whois_run : List Op → WhoisMap → WhoisMap × List Result
unfolding whois_step
whois_run [] w = (w, [])
whois_run (op ∷ ops) w =
    let (here, out) = whois_step op w in
    let (last, more) = whois_run ops here in (last, out ++ more)
