-- ===== src/Irc/Handshake/Examples.antt =====
-- Handshakes at concrete lines.
use turborg.Base.Text.Split.{cut, fields, has_prefix, trim_right}
use turborg.Base.{refl, ◌≡◌, Bool, List, Str, [], some, false, ◌∷◌, str_eq, str_beq}
use turborg.Base.Text.{to_upper, codes}
use turborg.Irc.Protocol.{parse, take_prefix, take_tags, take_trailing}
use turborg.Irc.Nicknames.{Nicks, next_fallback_nick, effective_nick, start_registration}
use turborg.Irc.UpstreamState.{disconnected_banned, classify_numeric, classify_disconnect_message}
use turborg.Irc.Handshake.{banned, failed, moved, server_said, Output, await_handshake}
use turborg.Irc.Handshake.Fallbacks.{fallbacks_bounded, Tried}
use turborg.Irc.Handshake.Failures.{failed_state, last_move}

abbrev mara : Nicks
mara = record {
  configured = codes "mara";
  current = codes "mara";
  desired = [];
  preferred = [];
  attempted = [];
  fallbacks = 0;
}

abbrev writable : Str → Bool
writable line = false

-- The nick is taken once; then the server welcomes its alternate.
abbrev taken_once : List Str
taken_once =
    codes ":s 433 * mara :taken"
    ∷ codes "PING :x"
    ∷ codes ":s 001 mara_ :hi"
    ∷ codes ":s 422 mara_ :none"
    ∷ []

fallbacks_bounded_example :
    Tried
      (effective_nick mara)
      []
      (await_handshake writable taken_once (start_registration mara).1).1
fallbacks_bounded_example = fallbacks_bounded writable taken_once mara

welcomed_as :
    (await_handshake writable taken_once (start_registration mara).1).1.current ≡ codes "mara_"
unfolding await_handshake start_registration effective_nick next_fallback_nick classify_numeric
    classify_disconnect_message parse str_beq take_prefix has_prefix take_tags trim_right cut fields
    take_trailing to_upper
welcomed_as = refl

-- The network bans the client.
abbrev ban_line : Str
ban_line = codes ":s 465 mara :go away"

abbrev ban_moves : List Output
ban_moves = moved disconnected_banned (server_said (codes "go away")) ∷ []

banned_run : await_handshake writable (ban_line ∷ []) mara ≡ (failed banned, mara, ban_moves)
unfolding await_handshake next_fallback_nick classify_numeric classify_disconnect_message parse
    str_beq take_prefix has_prefix take_tags trim_right cut fields take_trailing to_upper
banned_run = refl

failed_state_example : last_move ban_moves ≡ some disconnected_banned
failed_state_example =
    failed_state writable (ban_line ∷ []) mara mara banned ban_moves disconnected_banned banned_run
      refl
