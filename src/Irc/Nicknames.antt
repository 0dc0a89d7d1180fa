-- ===== src/Irc/Nicknames.antt =====
-- internal/connector/irc/connector.go: the nicks of the connector. The hooks that hear of a change
-- are left out; `registered` and the client stand for the state of the connection.
use turborg.Base.{
  Bool, Option, Str, none, some, ◌||◌, ◌==◌, ◌++◌, ℕ, suc, str_eq, if◌then◌else◌, ltb, leb, length,
}
use turborg.Base.Text.{codes, is_empty}
use turborg.Base.Text.Split.{trim_space}
use turborg.Irc.UpstreamState.{UpstreamState, registered, disconnected_nick_invalid}

-- `configured` is the nick of the settings.
pub record Nicks : Type 0 where
  pub configured : Str
  pub current : Str
  pub desired : Str
  pub preferred : Str
  pub attempted : Str
  pub fallbacks : ℕ

abbrev pub fallback_max_nick_len : ℕ
fallback_max_nick_len = 15

abbrev pub max_nick_fallbacks : ℕ
max_nick_fallbacks = 8

unfoldable pub effective_nick : Nicks → Str
effective_nick n = if is_empty n.preferred then n.configured else n.preferred

unfoldable pub set_preferred_nick : Str → Nicks → Nicks
set_preferred_nick nick n = record n { preferred = nick }

unfoldable pub set_desired_nick : Str → Nicks → Nicks
set_desired_nick nick n = record n { desired = nick }

unfoldable pub set_current_nick : Str → Nicks → Nicks
set_current_nick nick n =
    if is_empty nick || nick == codes "*" then n else record n { current = nick }

-- What `register` does with the nicks, and the nick that it sends.
unfoldable pub start_registration : Nicks → Str × Nicks
unfolding effective_nick
start_registration n =
    let nick = effective_nick n in
    (nick, record n { desired = nick; fallbacks = 0; attempted = nick })

unfoldable pub next_fallback_nick : Nicks → Option (Str × Nicks)
next_fallback_nick n =
    let next = n.attempted ++ codes "_" in
    if leb max_nick_fallbacks n.fallbacks
    then none
    else if ltb fallback_max_nick_len (length next)
    then none
    else some (next, record n { fallbacks = suc n.fallbacks; attempted = next })

-- What ApplyNick asks of the connection.
pub data NickEffect : Type 0 where
  nothing wake_supervisor : NickEffect
  send_nick : Str → NickEffect

abbrev pub nick_effect : UpstreamState → Bool → Str → NickEffect
nick_effect registered has_client nick = if has_client then send_nick nick else nothing
nick_effect disconnected_nick_invalid has_client nick = wake_supervisor
nick_effect _ has_client nick = nothing

unfoldable pub apply_nick : UpstreamState → Bool → Str → Nicks → Nicks × NickEffect
unfolding set_preferred_nick set_desired_nick
apply_nick state has_client nick n =
    let nick = trim_space nick in
    if is_empty nick || nick == n.desired
    then (n, nothing)
    else (set_preferred_nick nick (set_desired_nick nick n), nick_effect state has_client nick)
