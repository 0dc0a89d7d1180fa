-- ===== src/Irc/Handshake.antt =====
-- internal/connector/irc/connector.go: awaitHandshake, on the lines that the server sends; where
-- they end, reading fails. What it does is returned in order. The nicks are those of
-- Irc/Nicknames.antt; a line that cannot be written is told by the parameter `write_fails`.
pub mod Fallbacks
pub mod Failures
mod Examples
use turborg.Base.{
  Bool, List, Option, Str, [], none, some, true, false, ◌||◌, ◌&&◌, ◌==◌, ◌∷◌, ◌++◌, ℕ, suc, str_eq,
  if◌then◌else◌, contains,
}
use turborg.Base.Text.{codes, is_empty}
use turborg.Base.Text.Split.{trim_space, join}
use turborg.Irc.Protocol.{Message, parse}
use turborg.Irc.Nicknames.{Nicks, set_current_nick, next_fallback_nick}
use turborg.Irc.UpstreamState.{
  UpstreamState, disconnected_nick_invalid, classify_numeric, classify_disconnect_message,
}

pub data Reason : Type 0 where
  server_said : Str → Reason
  all_taken : Str → Reason

-- Lines that are written, transitions of the state machine, and notices for the server tab.
pub data Output : Type 0 where
  wrote : Str → Output
  moved : UpstreamState → Reason → Output
  noticed : Str → Str → Output

pub data Failure : Type 0 where
  read_failed write_failed nicks_exhausted nick_erroneous nick_unavailable : Failure
  password_rejected banned not_registered : Failure

pub data Verdict : Type 0 where
  go_on complete : Verdict
  failed : Failure → Verdict

-- IsHandshakeComplete
unfoldable pub is_handshake_complete : Str → Bool
is_handshake_complete numeric = numeric == codes "376" || numeric == codes "422"

abbrev pub less_first : List Str → List Str
less_first [] = []
less_first (p ∷ []) = p ∷ []
less_first (p ∷ q ∷ ps) = q ∷ ps

unfoldable pub server_notice_text : Message → Str
server_notice_text m =
    if is_empty m.trailing then trim_space (join (codes " ") (less_first m.params)) else m.trailing

-- publishServerNotice: an empty text is not published.
abbrev pub notice : Str → Str → List Output
notice kind text = if is_empty text then [] else noticed kind text ∷ []

abbrev pub info_numerics : List Str
info_numerics =
    codes "002"
    ∷ codes "003"
    ∷ codes "004"
    ∷ codes "005"
    ∷ codes "251"
    ∷ codes "252"
    ∷ codes "253"
    ∷ codes "254"
    ∷ codes "255"
    ∷ []

abbrev pub motd_numerics : List Str
motd_numerics = codes "375" ∷ codes "372" ∷ codes "376" ∷ codes "422" ∷ []

unfoldable pub maybe_publish_handshake_server_notice : Message → List Output
unfolding server_notice_text
maybe_publish_handshake_server_notice m =
    if m.command == codes "001"
    then notice (codes "welcome") m.trailing
    else if contains m.command info_numerics
    then notice (codes "info") (server_notice_text m)
    else if contains m.command motd_numerics
    then notice (codes "motd") (server_notice_text m)
    else []

abbrev pub first_param : List Str → Str
first_param [] = []
first_param (p ∷ ps) = p

unfoldable pub respond_pong : Message → List Output
respond_pong m =
    let target = if is_empty m.trailing then first_param m.params else m.trailing in
    wrote (codes "PONG :" ++ target) ∷ []

abbrev pub classified_line : Option (UpstreamState × Str) → List Output
classified_line none = []
classified_line (some (state, reason)) = moved state (server_said reason) ∷ []

abbrev pub classified : Option UpstreamState → Str → Str → List Output
classified (some state) trailing line = moved state (server_said trailing) ∷ []
classified none trailing line = classified_line (classify_disconnect_message line)

-- The switch over the errors before the MOTD.
pub data Reply : Type 0 where
  nick_in_use other_reply : Reply
  refusal : Failure → Reply

unfoldable pub reply_of : Str → Reply
reply_of command =
    if command == codes "433"
    then nick_in_use
    else if command == codes "432"
    then refusal nick_erroneous
    else if command == codes "437"
    then refusal nick_unavailable
    else if command == codes "464"
    then refusal password_rejected
    else if command == codes "465"
    then refusal banned
    else if command == codes "451"
    then refusal not_registered
    else other_reply

module _ (write_fails : Str → Bool) where
  abbrev pub fall_back : Nicks → Option (Str × Nicks) → Verdict × Nicks × List Output
  fall_back n none =
      (failed nicks_exhausted, n, moved disconnected_nick_invalid (all_taken n.desired) ∷ [])
  fall_back n (some (next, after)) =
      let line = codes "NICK " ++ next in
      if write_fails line then (failed write_failed, after, []) else (go_on, after, wrote line ∷ [])

  unfoldable pub answer : Message → Reply → Nicks → Verdict × Nicks × List Output
  unfolding next_fallback_nick is_handshake_complete maybe_publish_handshake_server_notice
  answer m nick_in_use n = fall_back n (next_fallback_nick n)
  answer m (refusal f) n = (failed f, n, [])
  answer m other_reply n = (
    if is_handshake_complete m.command then complete else go_on,
    n,
    maybe_publish_handshake_server_notice m,
  )

  abbrev pub welcomed : Message → Nicks → Nicks
  welcomed m n = elim m.params [
    | [] ↦ n
    | p ∷ ps ↦ if m.command == codes "001" then set_current_nick p n else n
  ]

  unfoldable pub on_line : Str → Nicks → Verdict × Nicks × List Output
  unfolding answer reply_of respond_pong set_current_nick
  on_line line n =
      let m = parse line in
      let moves = classified (classify_numeric m.command) m.trailing line in
      let (verdict, after, out) = answer m (reply_of m.command) (welcomed m n) in
      if m.command == codes "PING"
      then (go_on, n, respond_pong m)
      else (verdict, after, moves ++ out)

  abbrev pub go_on_with :
      Verdict × Nicks × List Output → Verdict × Nicks × List Output → Verdict × Nicks × List Output
  go_on_with (go_on, _, out) (verdict, n, more) = (verdict, n, out ++ more)
  go_on_with (complete, n, out) later = (complete, n, out)
  go_on_with (failed f, n, out) later = (failed f, n, out)

  unfoldable pub await_handshake : List Str → Nicks → Verdict × Nicks × List Output
  unfolding on_line
  await_handshake [] n = (failed read_failed, n, [])
  await_handshake (line ∷ lines) n =
      let here = on_line line n in go_on_with here (await_handshake lines here.1)
