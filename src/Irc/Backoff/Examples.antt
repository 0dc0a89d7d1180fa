-- ===== src/Irc/Backoff/Examples.antt =====
-- A schedule whose draws are added to the durations.
use turborg.Base.{[], true, ℕ, ◌+◌, ◌∷◌}
use turborg.Irc.Backoff.{BackoffSchedule}

abbrev schedule : BackoffSchedule
schedule = record { base = 1 ∷ 2 ∷ 4 ∷ []; jitter = true; idx = 2 }

abbrev added : ℕ → ℕ → ℕ
added draw t = draw + t
