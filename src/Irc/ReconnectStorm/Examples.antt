-- ===== src/Irc/ReconnectStorm/Examples.antt =====
-- The theorems on reconnect_storm.go at concrete inputs.
use turborg.Base.Int.{pos}
use turborg.Base.{[], refl, ◌∷◌, ◌≡◌}
use turborg.Irc.ReconnectStorm.{ReconnectStorm, next_delay, record_attempt}
use turborg.Irc.ReconnectStorm.Rate.{attempt_all}

abbrev breaker : ReconnectStorm
breaker = record { window = 600; max_attempts = pos 2; cooldown = 900; attempts = [] }

quiet_run : (next_delay 700 60 (attempt_all breaker (10 ∷ 70 ∷ []))).1 ≡ 60
unfolding next_delay record_attempt attempt_all
quiet_run = refl
