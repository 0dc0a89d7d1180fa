-- ===== src/Irc/UpstreamState.antt =====
-- internal/connector/irc/upstream_state.go: the state of the connection to the network, its
-- machine, and what the texts of a server mean for it. A subscriber is a handler that the machine
-- calls; the model returns the calls. `Transition` holds the lock of the state and then that of the
-- subscribers, so it is two steps, `commit` and `notify`.
pub mod Classes
pub mod Transitions
pub mod Messages
mod Examples
use turborg.Base.Map.{Map, delete, insert}
use turborg.Base.Time.{Time}
use turborg.Base.Text.Split.{contains_text, last_cut, trim_space}
use turborg.Base.{
  not, Bool, List, Option, Str, [], false, if◌then◌else◌, map, none, or_zero, some, str_eq, nat_eq,
  suc, true, ℕ, ◌-◌, ◌==◌, ◌||◌, ◌∷◌,
}
use turborg.Base.Text.{codes, equal_fold, is_empty, to_lower}
use turborg.Irc.Protocol.{parse}

pub data UpstreamState : Type 0 where
  idle : UpstreamState
  connecting : UpstreamState
  registering : UpstreamState
  registered : UpstreamState
  disconnected_transient : UpstreamState
  disconnected_nick_unavailable : UpstreamState
  disconnected_nick_invalid : UpstreamState
  disconnected_by_user : UpstreamState
  disconnected_auth_failed : UpstreamState
  disconnected_banned : UpstreamState
  paused_idle : UpstreamState
  stopped : UpstreamState

-- The strings of the constants.
unfoldable pub value : UpstreamState → Str
value idle = codes "idle"
value connecting = codes "connecting"
value registering = codes "registering"
value registered = codes "registered"
value disconnected_transient = codes "disconnected_transient"
value disconnected_nick_unavailable = codes "disconnected_nick_unavailable"
value disconnected_nick_invalid = codes "disconnected_nick_invalid"
value disconnected_by_user = codes "disconnected_by_user"
value disconnected_auth_failed = codes "disconnected_auth_failed"
value disconnected_banned = codes "disconnected_banned"
value paused_idle = codes "paused_idle"
value stopped = codes "stopped"

unfoldable pub is_recoverable : UpstreamState → Bool
is_recoverable disconnected_transient = true
is_recoverable disconnected_nick_unavailable = true
is_recoverable _ = false

unfoldable pub is_terminal : UpstreamState → Bool
is_terminal disconnected_auth_failed = true
is_terminal disconnected_banned = true
is_terminal paused_idle = true
is_terminal stopped = true
is_terminal _ = false

unfoldable pub is_parkable : UpstreamState → Bool
is_parkable disconnected_by_user = true
is_parkable disconnected_nick_invalid = true
is_parkable _ = false

pub record UpstreamStateChange : Type 0 where
  pub from : UpstreamState
  pub to : UpstreamState
  pub changed_at : Time
  pub server_reason : Str

pub record UpstreamStateMachine (Subscriber : Type 0) : Type 0 where
  pub state : UpstreamState
  pub entered_at : Time
  pub reason : Str
  pub next_sub_id : ℕ
  pub subscribers : Map ℕ Subscriber

unfoldable pub severity_for_upstream_state : UpstreamState → Str
severity_for_upstream_state idle = []
severity_for_upstream_state connecting = codes "warning"
severity_for_upstream_state registering = codes "warning"
severity_for_upstream_state registered = codes "info"
severity_for_upstream_state disconnected_transient = codes "warning"
severity_for_upstream_state disconnected_nick_unavailable = codes "warning"
severity_for_upstream_state disconnected_nick_invalid = codes "error"
severity_for_upstream_state disconnected_by_user = codes "info"
severity_for_upstream_state disconnected_auth_failed = codes "error"
severity_for_upstream_state disconnected_banned = codes "error"
severity_for_upstream_state paused_idle = codes "error"
severity_for_upstream_state stopped = codes "error"

module _ {Subscriber : Type 0} where
  pub new_upstream_state_machine : Time → UpstreamStateMachine Subscriber
  new_upstream_state_machine now = record {
    state = idle;
    entered_at = now;
    reason = [];
    next_sub_id = 0;
    subscribers = [];
  }

  pub duration_in : Time → UpstreamStateMachine Subscriber → ℕ
  duration_in now m = now - m.entered_at

  -- The part of Transition under the lock of the state; `none` is the early return.
  pub commit :
      UpstreamState
      → Str
      → Time
      → UpstreamStateMachine Subscriber
      → UpstreamStateMachine Subscriber × Option UpstreamStateChange
  unfolding value
  commit to reason now m =
      let change : UpstreamStateChange = record {
        from = m.state;
        to = to;
        changed_at = now;
        server_reason = reason;
      } in
      if value m.state == value to
      then (m, none)
      else (record m { state = to; entered_at = now; reason = reason }, some change)

  -- The calls of the subscribers, in some order.
  pub notify :
      UpstreamStateChange
      → UpstreamStateMachine Subscriber
      → List (Subscriber × UpstreamStateChange)
  notify change m = map (λ ((id, f) : ℕ × Subscriber). (f, change)) m.subscribers

  pub transition :
      UpstreamState
      → Str
      → Time
      → UpstreamStateMachine Subscriber
      → UpstreamStateMachine Subscriber × List (Subscriber × UpstreamStateChange)
  unfolding commit notify
  transition to reason now m =
      let (after, change) = commit to reason now m in
      (after, elim change [ none ↦ [] | some c ↦ notify c after ])

  -- The handle that a caller keeps is the id.
  pub subscribe : Subscriber → UpstreamStateMachine Subscriber → UpstreamStateMachine Subscriber × ℕ
  subscribe f m =
      let id = suc m.next_sub_id in
      (record m { next_sub_id = id; subscribers = insert id f m.subscribers }, id)

  pub unsubscribe : ℕ → UpstreamStateMachine Subscriber → UpstreamStateMachine Subscriber
  unsubscribe id m = record m { subscribers = delete id m.subscribers }

-- A numeric of which nothing else is looked at.
unfoldable pub classify_numeric : Str → Option UpstreamState
classify_numeric numeric =
    if numeric == codes "433"
    then some disconnected_nick_unavailable
    else if numeric == codes "432" || numeric == codes "437"
    then some disconnected_nick_invalid
    else if numeric == codes "464" || numeric == codes "904" || numeric == codes "905"
    then some disconnected_auth_failed
    else if numeric == codes "465"
    then some disconnected_banned
    else none

unfoldable pub ban_patterns : List Str
ban_patterns =
    codes "k-lined"
    ∷ codes "k:lined"
    ∷ codes "g-lined"
    ∷ codes "z-lined"
    ∷ codes "user has been banned"
    ∷ codes "you are not welcome"
    ∷ codes "glined"
    ∷ codes "klined"
    ∷ []

-- The text between the last "(" and the last ")" after it, or all of it.
unfoldable pub reason_of : Str → Str
reason_of body = elim (last_cut b'(' body) [
  | none ↦ trim_space body
  | some (_, after) ↦ elim (last_cut b')' after) [
    | none ↦ trim_space body
    | some (inside, _) ↦ trim_space inside
  ]
]

-- `none` is the result `ok == false`.
unfoldable pub parse_error_line : Str → Option Str
unfolding reason_of
parse_error_line line =
    let msg = parse line in
    if equal_fold msg.command (codes "ERROR")
    then some (if is_empty msg.trailing then [] else reason_of msg.trailing)
    else none

unfoldable pub any_pattern : Str → List Str → Bool
any_pattern lower [] = false
any_pattern lower (p ∷ ps) = let rest = any_pattern lower ps in contains_text p lower || rest

unfoldable pub classify_ban_reason : Str → Option UpstreamState
unfolding any_pattern ban_patterns
classify_ban_reason reason =
    if is_empty reason
    then none
    else if any_pattern (to_lower reason) ban_patterns
    then some disconnected_banned
    else none

unfoldable pub classify_disconnect_message : Str → Option (UpstreamState × Str)
unfolding parse_error_line classify_ban_reason
classify_disconnect_message line = elim (parse_error_line line) [
  | none ↦ none
  | some reason ↦ some (or_zero (classify_ban_reason reason) disconnected_transient, reason)
]
