-- ===== src/Skill/Scheduler/Ticks.antt =====
-- What a tick fires, and that nothing is fired twice for one deadline.
use turborg.Base.{
  ap, arith, ◌∙◌, Bool-cases, inl, inr, map, refl, ◌<◌, ◌≡◌, ◌≤◌, List, Option, [], none, some, ◌∷◌,
  ℕ, str_eq, keep, All,
}
use turborg.Base.Time.{Time}
use turborg.Skill.Cron.{CronSpec}
use turborg.Skill.Cron.Next.{minute_length, next_found}
use turborg.Skill.Scheduler.{advance_by, is_due, Scheduled, tick, firing_of}

-- An item has a cron expression, or an interval of a minute at least.
abbrev pub Cadence : ℕ → Option CronSpec → Type 0
Cadence interval (some c) = Unit
Cadence interval none = minute_length ≤ interval

abbrev pub HasCadence : Scheduled → Type 0
HasCadence it = Cadence it.interval it.cron

abbrev pub Waits : Time → Scheduled → Type 0
Waits now it = now < it.next_due

advance_by-later :
    (now : Time) (interval : ℕ) (o : Option CronSpec)
    → Cadence interval o
    → now < advance_by now interval o
advance_by-later now interval (some c) h = (next_found c now).0
advance_by-later now interval none h = omega arith

tick-due :
    (now : Time) (items : List Scheduled)
    → (tick now items).0 ≡ map firing_of (keep (is_due now) items)
unfolding tick
tick-due now [] = refl
tick-due now (it ∷ items) = elim (Bool-cases (is_due now it)) [
  | inl e ↦ rw (e, tick-due now items) refl
  | inr e ↦ rw (e, tick-due now items) refl
]

tick-Waits :
    (now : Time) (items : List Scheduled)
    → All HasCadence items
    → All (Waits now) (tick now items).1
unfolding tick
tick-Waits now [] h = tt
tick-Waits now (it ∷ items) (h, hs) = elim (Bool-cases (is_due now it)) [
  | inl e ↦ rw e (advance_by-later now it.interval it.cron h, tick-Waits now items hs)
  | inr e ↦ rw e (ground arith, tick-Waits now items hs)
]

none_due :
    (now : Time) (items : List Scheduled) → All (Waits now) items → keep (is_due now) items ≡ []
none_due now [] h = refl
none_due now (it ∷ items) h = ground (arith, none_due now items h.1)

-- A tick fires exactly the skills that are due, in order, each in the first channel of its trigger;
-- then each item waits for a later time, and the same tick again fires nothing.
pub tick_exact :
    (now : Time) (items : List Scheduled)
    → All HasCadence items
    → let (fired, after) = tick now items in
      (fired ≡ map firing_of (keep (is_due now) items))
      × All (Waits now) after
      × ((tick now after).0 ≡ [])
tick_exact now items h =
    let waiting = tick-Waits now items h in
    let again = tick-due now (tick now items).1 in
    (
      tick-due now items,
      waiting,
      again ∙ ap (map firing_of) (none_due now (tick now items).1 waiting),
    )
