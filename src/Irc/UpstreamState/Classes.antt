-- ===== src/Irc/UpstreamState/Classes.antt =====
-- The classes of states that decide what the reconnect supervisor does.
use turborg.Base.{
  Bool, List, Option, Str, [], ap, false, if◌then◌else◌, none, or_zero, refl, some, str_beq, str_eq,
  sym, true, ℕ, ◌+◌, ◌==◌, ◌∙◌, ◌∷◌, ◌≡◌,
}
use turborg.Base.Text.{codes}
use turborg.Irc.UpstreamState.{
  connecting, disconnected_auth_failed, disconnected_banned, disconnected_by_user,
  disconnected_nick_invalid, disconnected_nick_unavailable, disconnected_transient, idle,
  paused_idle, registered, registering, stopped, UpstreamState, value, is_recoverable, is_terminal,
  is_parkable,
}

-- A session that is up or coming up.
abbrev pub is_live : UpstreamState → Bool
is_live idle = true
is_live connecting = true
is_live registering = true
is_live registered = true
is_live _ = false

abbrev pub count_true : List Bool → ℕ
count_true [] = 0
count_true (b ∷ bs) = (if b then 1 else 0) + count_true bs

-- Every state that is not live is in exactly one of the supervisor's classes: it retries, it
-- parks, or it gives up; a live state is in none.
pub one_class :
    (s : UpstreamState)
    → count_true (is_live s ∷ is_recoverable s ∷ is_parkable s ∷ is_terminal s ∷ []) ≡ 1
unfolding is_recoverable is_terminal is_parkable
one_class idle = refl
one_class connecting = refl
one_class registering = refl
one_class registered = refl
one_class disconnected_transient = refl
one_class disconnected_nick_unavailable = refl
one_class disconnected_nick_invalid = refl
one_class disconnected_by_user = refl
one_class disconnected_auth_failed = refl
one_class disconnected_banned = refl
one_class paused_idle = refl
one_class stopped = refl

-- The state that a string names.
state_named : Str → Option UpstreamState
state_named s =
    if s == codes "idle"
    then some idle
    else if s == codes "connecting"
    then some connecting
    else if s == codes "registering"
    then some registering
    else if s == codes "registered"
    then some registered
    else if s == codes "disconnected_transient"
    then some disconnected_transient
    else if s == codes "disconnected_nick_unavailable"
    then some disconnected_nick_unavailable
    else if s == codes "disconnected_nick_invalid"
    then some disconnected_nick_invalid
    else if s == codes "disconnected_by_user"
    then some disconnected_by_user
    else if s == codes "disconnected_auth_failed"
    then some disconnected_auth_failed
    else if s == codes "disconnected_banned"
    then some disconnected_banned
    else if s == codes "paused_idle"
    then some paused_idle
    else if s == codes "stopped"
    then some stopped
    else none

named-value : (s : UpstreamState) → state_named (value s) ≡ some s
unfolding value state_named str_beq
named-value idle = refl
named-value connecting = refl
named-value registering = refl
named-value registered = refl
named-value disconnected_transient = refl
named-value disconnected_nick_unavailable = refl
named-value disconnected_nick_invalid = refl
named-value disconnected_by_user = refl
named-value disconnected_auth_failed = refl
named-value disconnected_banned = refl
named-value paused_idle = refl
named-value stopped = refl

some-injective {ℓ} : {A : Type ℓ} (a b : A) → some a ≡ some b → a ≡ b
some-injective a b e = ap (λ o. or_zero o a) e

-- The strings tell the states apart.
pub value-injective : (s t : UpstreamState) → value s ≡ value t → s ≡ t
value-injective s t e = some-injective s t (sym (named-value s) ∙ ap state_named e ∙ named-value t)
