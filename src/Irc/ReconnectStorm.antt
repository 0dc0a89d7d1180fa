-- ===== src/Irc/ReconnectStorm.antt =====
-- internal/connector/irc/reconnect_storm.go: the circuit breaker of the reconnect loop. The clock
-- reading is the argument `now`, as in the code; logging is left out.
pub mod Rate
mod Examples
use turborg.Base.Time.{Time, after_cutoff}
use turborg.Base.Int.{le_pos, lt_pos, ℤ}
use turborg.Base.{Bool, List, [], false, if◌then◌else◌, keep, length, ℕ, ◌++◌, ◌∷◌}

pub record ReconnectStorm : Type 0 where
  pub window : ℕ
  pub max_attempts : ℤ
  pub cooldown : ℕ
  pub attempts : List Time

pub new_reconnect_storm : ℕ → ℤ → ℕ → ReconnectStorm
new_reconnect_storm window max_attempts cooldown = record {
  window = window;
  max_attempts = max_attempts;
  cooldown = cooldown;
  attempts = [];
}

pub record_attempt : Time → ReconnectStorm → ReconnectStorm × Bool
record_attempt now r =
    let attempts = keep (after_cutoff r.window now) r.attempts ++ now ∷ [] in
    if le_pos r.max_attempts 0
    then (r, false)
    else (record r { attempts = attempts }, lt_pos r.max_attempts (length attempts))

pub next_delay : Time → ℕ → ReconnectStorm → ReconnectStorm × ℕ
next_delay now backoff r =
    let (r', storm) = record_attempt now r in (r', if storm then r.cooldown else backoff)
