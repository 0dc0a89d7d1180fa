-- ===== src/Skill/Scheduler.antt =====
-- internal/skill/scheduler.go: the schedule skills, when they are due and what a tick fires.
-- time.ParseDuration is a parameter, `duration_of`, with `none` for its error. The clock is an
-- argument, and the ticker of Run is left out.
pub mod Ticks
pub mod Installed
mod Examples
use turborg.Base.{
  ltb, not, Bool, List, Option, Str, [], none, some, zero, ◌++◌, ◌+◌, ◌∷◌, ◌||◌, if◌then◌else◌, ℕ,
  str_eq, ◌==◌, keep,
}
use turborg.Base.Int.{ℤ, pos, negsuc}
use turborg.Base.Time.{Time}
use turborg.Base.Result.{Result, ok, err}
use turborg.Base.Text.{codes, is_empty}
use turborg.Base.Text.Split.{trim_space}
use turborg.Skill.Cron.{CronSpec, CronError, parse_cron}
use turborg.Skill.Cron.Next.{next, minute_length}
use turborg.Skill.Model.{Skill}

-- `interval` is 0 for a cron cadence.
pub record Scheduled : Type 0 where
  pub skill : Skill
  pub interval : ℕ
  pub cron : Option CronSpec
  pub next_due : Time

pub data ScheduleError : Type 0 where
  empty_schedule : ScheduleError
  bad_cron : CronError → ScheduleError

abbrev pub floored : Option ℤ → Option ℕ
floored none = none
floored (some (negsuc d)) = none
floored (some (pos d)) = if ltb d minute_length then none else some d

abbrev pub from_cron : Skill → Time → Result CronError CronSpec → Result ScheduleError Scheduled
from_cron s now (err e) = err (bad_cron e)
from_cron s now (ok c) =
    ok (record { skill = s; interval = 0; cron = some c; next_due = next c now })

abbrev pub from_interval :
    Skill → Time → Option ℕ → Result CronError CronSpec → Result ScheduleError Scheduled
from_interval s now (some d) parsed =
    ok (record { skill = s; interval = d; cron = none; next_due = now + d })
from_interval s now none parsed = from_cron s now parsed

abbrev pub keep_ok : {E A : Type 0} → Result E A → List A → List A
keep_ok (ok a) rest = a ∷ rest
keep_ok (err e) rest = rest

module _ (duration_of : Str → Option ℤ) where
  unfoldable pub parse_interval : Str → Option ℕ
  parse_interval spec = floored (duration_of spec)

  unfoldable pub parse_schedule : Skill → Time → Result ScheduleError Scheduled
  unfolding parse_interval parse_cron trim_space
  parse_schedule s now =
      let spec = trim_space s.trigger.schedule in
      if is_empty spec
      then err empty_schedule
      else from_interval s now (parse_interval spec) (parse_cron spec)

  -- The new items; those that are there already are dropped.
  unfoldable pub replace_skills : Time → List Skill → List Scheduled
  unfolding parse_schedule
  replace_skills now [] = []
  replace_skills now (s ∷ ss) =
      let rest = replace_skills now ss in
      if s.trigger.kind == codes "schedule" then keep_ok (parse_schedule s now) rest else rest

abbrev pub advance_by : Time → ℕ → Option CronSpec → Time
advance_by now interval (some c) = next c now
advance_by now interval none = now + interval

unfoldable pub advance : Time → Scheduled → Time
unfolding next
advance now it = advance_by now it.interval it.cron

-- A skill that is fired, and the channel that its action runs in.
pub record Firing : Type 0 where
  pub skill : Skill
  pub channel : Str

abbrev pub first_channel : List Str → Str
first_channel [] = []
first_channel (c ∷ cs) = c

unfoldable pub firing_of : Scheduled → Firing
firing_of it = record { skill = it.skill; channel = first_channel it.skill.trigger.channels }

-- !now.Before(it.nextDue)
abbrev pub is_due : Time → Scheduled → Bool
is_due now it = not (ltb now it.next_due)

-- What a tick fires, before the lifts are swept, and the items after it.
unfoldable pub tick : Time → List Scheduled → List Firing × List Scheduled
unfolding advance firing_of
tick now [] = ([], [])
tick now (it ∷ items) =
    let (due, rest) = tick now items in
    if is_due now it
    then (firing_of it ∷ due, record it { next_due = advance now it } ∷ rest)
    else (due, it ∷ rest)
