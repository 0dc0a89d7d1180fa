-- ===== src/Skill/Scheduler/Installed.antt =====
-- What a reload of the scheduler installs.
use turborg.Base.Text.Split.{trim_space}
use turborg.Base.{
  ◌∙◌, Bool-cases, ap, arith, inl, inr, ltb, map, refl, ◌&&◌, ◌≡◌, Bool, List, Option, Str, [],
  none, some, ◌∷◌, if◌then◌else◌, str_eq, ◌==◌, keep, All,
}
use turborg.Base.Int.{ℤ, pos, negsuc}
use turborg.Base.Time.{Time}
use turborg.Base.Result.{is_ok, Result, ok, err}
use turborg.Base.Text.{codes, is_empty}
use turborg.Skill.Cron.{CronSpec, CronError, parse_cron}
use turborg.Skill.Cron.Next.{minute_length, next_found}
use turborg.Skill.Model.{Skill}
use turborg.Skill.Scheduler.{
  ScheduleError, floored, from_cron, from_interval, keep_ok, parse_interval, Scheduled,
  parse_schedule, replace_skills,
}
use turborg.Skill.Scheduler.Ticks.{HasCadence, Waits}

-- A schedule that was parsed is sound: it is that of the skill, has a cadence, and waits.
abbrev pub Sound : Skill → Time → Result ScheduleError Scheduled → Type 0
Sound s now (ok it) = (it.skill ≡ s) × HasCadence it × Waits now it
Sound s now (err e) = Unit

from_cron-Sound :
    (s : Skill) (now : Time) (r : Result CronError CronSpec) → Sound s now (from_cron s now r)
from_cron-Sound s now (err e) = tt
from_cron-Sound s now (ok c) = (refl, tt, (next_found c now).0)

from_interval-Sound :
    (s : Skill) (now : Time) (d : Option ℤ) (r : Result CronError CronSpec)
    → Sound s now (from_interval s now (floored d) r)
from_interval-Sound s now none r = from_cron-Sound s now r
from_interval-Sound s now (some (negsuc d)) r = from_cron-Sound s now r
from_interval-Sound s now (some (pos d)) r = elim (Bool-cases (ltb d minute_length)) [
  | inl e ↦ rw e (from_cron-Sound s now r)
  | inr e ↦ rw e (refl, ground arith, ground arith)
]

module _ (duration_of : Str → Option ℤ) where
  parse_schedule-Sound : (s : Skill) (now : Time) → Sound s now (parse_schedule duration_of s now)
  unfolding parse_schedule parse_interval parse_cron
  parse_schedule-Sound s now = elim (Bool-cases (is_empty (trim_space s.trigger.schedule))) [
    | inl e ↦ rw e tt
    | inr e ↦ rw e (
        from_interval-Sound s now (duration_of (trim_space s.trigger.schedule))
          (parse_cron (trim_space s.trigger.schedule)))
  ]

  -- The skills that a reload keeps.
  abbrev pub is_kept : Time → Skill → Bool
  is_kept now s = s.trigger.kind == codes "schedule" && is_ok (parse_schedule duration_of s now)

  keep_ok-Sound :
      (s : Skill) (now : Time) (r : Result ScheduleError Scheduled) (items : List Scheduled)
      → Sound s now r
      → All HasCadence items × All (Waits now) items
      → All HasCadence (keep_ok r items)
        × All (Waits now) (keep_ok r items)
        × (map (λ it. it.skill) (keep_ok r items)
            ≡ (if is_ok r then s ∷ map (λ it. it.skill) items else map (λ it. it.skill) items))
  keep_ok-Sound s now (ok it) items (same, cadence, waits) (cs, ws) =
      ((cadence, cs), (waits, ws), ap (λ x. x ∷ map (λ it. it.skill) items) same)
  keep_ok-Sound s now (err e) items h (cs, ws) = (cs, ws, refl)

  -- A reload installs exactly the schedule skills whose schedule can be read, in order; each has a
  -- cadence, and its first time is later than the reload.
  pub replace_skills_exact :
      (now : Time) (ss : List Skill)
      → let items = replace_skills duration_of now ss in
        (map (λ it. it.skill) items ≡ keep (is_kept now) ss)
        × All HasCadence items
        × All (Waits now) items
  unfolding replace_skills
  replace_skills_exact now [] = (refl, tt, tt)
  replace_skills_exact now (s ∷ ss) =
      let (exact, cs, ws) = replace_skills_exact now ss in
      elim (Bool-cases (s.trigger.kind == codes "schedule")) [
        | inl e ↦
            let r = parse_schedule duration_of s now in
            let (cadence, waits, skills) =
              keep_ok-Sound s now r (replace_skills duration_of now ss) (parse_schedule-Sound s now)
                (cs, ws) in
            rw e (skills ∙ ap (λ xs. if is_ok r then s ∷ xs else xs) exact, cadence, waits)
        | inr e ↦ rw e (exact, cs, ws)
      ]
