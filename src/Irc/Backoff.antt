-- ===== src/Irc/Backoff.antt =====
-- internal/connector/irc/backoff.go: how long the supervisor sleeps before it dials again. The
-- jitter is a multiplication of floating-point numbers by a random factor: it is the parameter
-- `jittered`, from a draw of the random generator and a duration, and `jitter` says whether the
-- field is above 0. Durations are nanoseconds.
pub mod Schedule
mod Examples
use turborg.Base.{Bool, List, [], if◌then◌else◌, leb, length, suc, true, zero, ℕ, ◌*◌, ◌-◌, ◌∷◌}
use turborg.Base.Result.{Run, done, panicked}

abbrev pub second : ℕ
second = 1000000000

pub default_backoff_schedule : List ℕ
default_backoff_schedule =
    second ∷ 2 * second ∷ 4 * second ∷ 8 * second ∷ 16 * second ∷ 30 * second ∷ 60 * second ∷ []

pub record BackoffSchedule : Type 0 where
  pub base : List ℕ
  pub jitter : Bool
  pub idx : ℕ

pub new_backoff_schedule_with : List ℕ → Bool → BackoffSchedule
unfolding default_backoff_schedule
new_backoff_schedule_with [] jitter = record {
  base = default_backoff_schedule;
  jitter = jitter;
  idx = 0;
}
new_backoff_schedule_with (d ∷ base) jitter = record { base = d ∷ base; jitter = jitter; idx = 0 }

pub new_backoff_schedule : BackoffSchedule
unfolding new_backoff_schedule_with default_backoff_schedule
new_backoff_schedule = new_backoff_schedule_with default_backoff_schedule true

-- base[i], which panics out of range.
pub element : List ℕ → ℕ → Run ℕ
element [] i = panicked
element (d ∷ base) zero = done d
element (d ∷ base) (suc i) = element base i

pub next_index : BackoffSchedule → BackoffSchedule × ℕ
next_index b =
    if leb (length b.base) b.idx
    then (b, length b.base - 1)
    else (record b { idx = suc b.idx }, b.idx)

module _ {Draw : Type 0} (jittered : Draw → ℕ → ℕ) where
  pub next : Draw → BackoffSchedule → BackoffSchedule × Run ℕ
  unfolding next_index element
  next draw b =
      let (after, i) = next_index b in
      (
        after,
        elim (element b.base i) [
          | panicked ↦ panicked
          | done d ↦ done (if b.jitter then jittered draw d else d)
        ],
      )

pub reset : BackoffSchedule → BackoffSchedule
reset b = record b { idx = 0 }
