-- ===== src/Irc/Policy.antt =====
-- internal/connector/irc/policy.go: what clients may ask for. Both the bouncer and the web gateway
-- ask it before they act, with the number of joined channels.
pub mod Channels
mod Examples
use turborg.Base.Result.{Result, ok, refuse}
use turborg.Base.{Bool, Str, if◌then◌else◌, not, str_eq, ℕ, ◌&&◌, ◌++◌, ◌==◌}
use turborg.Base.Int.{ℤ, clamp, lt_pos, le_pos}
use turborg.Base.Text.{codes, decimal, is_empty}

pub record ClientLimits : Type 0 where
  pub nick_locked : Bool
  pub realname_locked : Bool
  pub max_channels : ℤ
  pub tb_summarize_max_messages : ℤ
  pub ai_strict : Bool
  pub ai_strict_message : Str

pub default_ai_strict_message : Str
default_ai_strict_message =
    codes
      "AI commands that read channel history require channel-operator status here, per this network's bot policy."

pub ai_strict_deny_message : ClientLimits → Str
unfolding default_ai_strict_message
ai_strict_deny_message l =
    if is_empty l.ai_strict_message then default_ai_strict_message else l.ai_strict_message

pub cap_hit_kind : Str → Str
cap_hit_kind cmd =
    if cmd == codes "NICK"
    then codes "nick_locked"
    else if cmd == codes "USER"
    then codes "realname_locked"
    else if cmd == codes "JOIN"
    then codes "channels"
    else cmd

-- l.MaxChannels > 0 && currentChannels >= l.MaxChannels
pub at_channel_cap : ClientLimits → ℕ → Bool
at_channel_cap l current = not (lt_pos l.max_channels 1) && le_pos l.max_channels current

-- `ok` is the result (true, ""), `err reason` is (false, reason).
pub allow_command : Str → ℕ → ClientLimits → Result Str (Unit {0})
unfolding at_channel_cap
allow_command cmd current l =
    if cmd == codes "NICK"
    then refuse l.nick_locked (codes "nick changes are disabled by operator policy")
    else if cmd == codes "USER"
    then refuse l.realname_locked (codes "realname is locked by operator policy")
    else if cmd == codes "JOIN"
    then refuse (at_channel_cap l current)
        (codes "channel limit reached (" ++ decimal (clamp l.max_channels) ++ codes ")")
    else ok tt
