-- ===== src/Skill/Scheduler/Examples.antt =====
-- Reloads and ticks of the scheduler at concrete inputs.
use turborg.Base.{
  arith, map, refl, ◌*◌, ◌≡◌, List, Option, Str, [], none, some, ◌∷◌, if◌then◌else◌, str_eq, ◌==◌,
  keep, All,
}
use turborg.Base.Int.{ℤ, pos}
use turborg.Base.Text.{codes}
use turborg.Skill.Cron.Next.{minute_length}
use turborg.Skill.Model.Samples.{hello, hourly}
use turborg.Skill.Scheduler.{firing_of, is_due, tick, Scheduled, replace_skills}
use turborg.Skill.Scheduler.Ticks.{HasCadence, Waits, tick_exact}
use turborg.Skill.Scheduler.Installed.{replace_skills_exact, is_kept}

-- One duration is known: an hour.
abbrev durations : Str → Option ℤ
durations s = if s == codes "1h" then some (pos (60 * minute_length)) else none

replace_skills_exact_example :
    let items = replace_skills durations 7 (hello ∷ hourly ∷ []) in
    (map (λ it. it.skill) items ≡ keep (is_kept durations 7) (hello ∷ hourly ∷ []))
    × All HasCadence items
    × All (Waits 7) items
replace_skills_exact_example = replace_skills_exact durations 7 (hello ∷ hourly ∷ [])

abbrev due_now : List Scheduled
due_now =
    record { skill = hourly; interval = 60 * minute_length; cron = none; next_due = 5 }
    ∷ record { skill = hourly; interval = 60 * minute_length; cron = none; next_due = 9 }
    ∷ []

tick_exact_example :
    let (fired, after) = tick 7 due_now in
    (fired ≡ map firing_of (keep (is_due 7) due_now))
    × All (Waits 7) after
    × ((tick 7 after).0 ≡ [])
tick_exact_example = tick_exact 7 due_now (omega arith, (omega arith, tt))

one_fired : (tick 7 due_now).0 ≡ record { skill = hourly; channel = codes "#go" } ∷ []
unfolding tick firing_of
one_fired = refl
