-- ===== src/Irc/Policy/Examples.antt =====
-- A client that may be in two channels.
use turborg.Base.Result.{err}
use turborg.Base.{List, Str, [], false, max, refl, str_beq, true, ◌∷◌, ◌≡◌}
use turborg.Base.Int.{pos, ℤ}
use turborg.Base.Text.{codes}
use turborg.Irc.Policy.{ClientLimits, allow_command}

abbrev limits : ℤ → ClientLimits
limits max = record {
  nick_locked = true;
  realname_locked = false;
  max_channels = max;
  tb_summarize_max_messages = pos 0;
  ai_strict = false;
  ai_strict_message = [];
}

nick_refused :
    allow_command (codes "NICK") 0 (limits (pos 2))
    ≡ err (codes "nick changes are disabled by operator policy")
unfolding allow_command str_beq
nick_refused = refl

abbrev asked : List Str
asked = codes "#a" ∷ codes "#b" ∷ codes "#c" ∷ []
