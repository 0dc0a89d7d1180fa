-- ===== src/Base/Calendar.antt =====
-- Package `time`: the date of a day in UTC. Day 0 is 1 January 1970; the calendar is walked from
-- that year on, so no day before it has a date.
use Prim.Native.Nat.{ℕ, zero, suc, ◌+◌, ◌-◌, ◌%◌, ◌≤◌}
use mathlib.Core.Path.{subst, ◌≡◌, refl, ap, ◌∙◌}
use mathlib.Core.Bool.{Bool, true, false, not, ◌&&◌, ◌||◌}
use native.Mathlib.Omega.{arith}
use turborg.Base.Tests.{if◌then◌else◌, ltb, nat_beq, on_branches}

pub record Date : Type 0 where
  pub year : ℕ
  pub month : ℕ
  pub day : ℕ

unfoldable pub is_leap : ℕ → Bool
is_leap y = nat_beq (y % 4) 0 && (not (nat_beq (y % 100) 0) || nat_beq (y % 400) 0)

unfoldable pub days_in_year : ℕ → ℕ
unfolding is_leap
days_in_year y = if is_leap y then 366 else 365

unfoldable pub days_in_month : ℕ → ℕ → ℕ
unfolding is_leap
days_in_month y m =
    if nat_beq m 2
    then (if is_leap y then 29 else 28)
    else if nat_beq m 4 || nat_beq m 6 || nat_beq m 9 || nat_beq m 11
    then 30
    else 31

-- The month and day of day `d` of a year, from month `m` on, with `left` more months to go.
unfoldable pub walk_months : ℕ → ℕ → ℕ → ℕ → Date
unfolding days_in_month
walk_months zero y m d = record { year = y; month = m; day = suc d }
walk_months (suc left) y m d = elim (ltb d (days_in_month y m)) [
  | true ↦ record { year = y; month = m; day = suc d }
  | false ↦ walk_months left y (suc m) (d - days_in_month y m)
]

unfoldable pub walk_years : ℕ → ℕ → ℕ → Date
unfolding walk_months days_in_year
walk_years zero y d = walk_months 11 y 1 d
walk_years (suc fuel) y d = elim (ltb d (days_in_year y)) [
  | true ↦ walk_months 11 y 1 d
  | false ↦ walk_years fuel (suc y) (d - days_in_year y)
]

-- t.Date()
unfoldable pub date_of : ℕ → Date
unfolding walk_years
date_of day = walk_years day 1970 day

-- The days from 1970 to the begin of the year that is `n` years later.
unfoldable pub days_before_year : ℕ → ℕ
unfolding days_in_year
days_before_year zero = 0
days_before_year (suc n) = days_before_year n + days_in_year (1970 + n)

-- The days of a year before the begin of a month.
unfoldable pub days_before_month : ℕ → ℕ → ℕ
unfolding days_in_month
days_before_month y zero = 0
days_before_month y (suc zero) = 0
days_before_month y (suc (suc m)) = days_before_month y (suc m) + days_in_month y (suc m)

-- time.Date(y, m, d, ...), of a day of the month that may run over its end.
unfoldable pub day_number : ℕ → ℕ → ℕ → ℕ
unfolding days_before_year days_before_month
day_number y m d = days_before_year (y - 1970) + days_before_month y m + (d - 1)

month_begin :
    (y m : ℕ) → 1 ≤ m → days_before_month y (suc m) ≡ days_before_month y m + days_in_month y m
unfolding days_before_month
month_begin y zero h = absurd (omega arith)
month_begin y (suc m) h = refl

year_begin :
    (y : ℕ)
    → 1970 ≤ y
    → days_before_year (suc y - 1970) ≡ days_before_year (y - 1970) + days_in_year y
unfolding days_before_year
year_begin y h =
    let later : suc y - 1970 ≡ suc (y - 1970) = omega arith in
    let back : 1970 + (y - 1970) ≡ y = omega arith in
    ap days_before_year later ∙ ap (λ z. days_before_year (y - 1970) + days_in_year z) back

-- What a date of a walk says: its day counts from its month on.
abbrev Says : ℕ → ℕ → Date → Type 0
Says y d t =
    (t.year ≡ y) × (1 ≤ t.month) × (1 ≤ t.day) × (days_before_month y t.month + t.day ≡ suc d)

walk_months-Says :
    (left y m d : ℕ) → 1 ≤ m → Says y (days_before_month y m + d) (walk_months left y m d)
unfolding walk_months
walk_months-Says zero y m d h = (refl, h, omega arith, omega arith)
walk_months-Says (suc left) y m d h =
    let begin = days_before_month y m in
    on_branches (Says y (begin + d)) (ltb d (days_in_month y m))
      (record { year = y; month = m; day = suc d })
      (walk_months left y (suc m) (d - days_in_month y m))
      (λ e. (refl, h, omega arith, omega arith))
      (λ e.
        let same : days_before_month y (suc m) + (d - days_in_month y m) ≡ begin + d =
          ground (arith, month_begin y m h) in
        subst (λ n. Says y n (walk_months left y (suc m) (d - days_in_month y m))) same
          (walk_months-Says left y (suc m) (d - days_in_month y m) (omega arith)))

-- The day of a date of a walk, counted from 1970 on.
abbrev Dates : ℕ → Date → Type 0
Dates d t =
    (1970 ≤ t.year)
    × (1 ≤ t.month)
    × (1 ≤ t.day)
    × (days_before_year (t.year - 1970) + days_before_month t.year t.month + t.day ≡ suc d)

Says-Dates :
    (y d : ℕ) (t : Date) → 1970 ≤ y → Says y d t → Dates (days_before_year (y - 1970) + d) t
Says-Dates y d t h (year, month, day, sum) = (
  omega arith,
  month,
  day,
  ap (λ z. days_before_year (z - 1970) + days_before_month z t.month + t.day) year ∙ omega arith,
)

january : (y d : ℕ) → 1970 ≤ y → Dates (days_before_year (y - 1970) + d) (walk_months 11 y 1 d)
unfolding days_before_month
january y d h =
    let none_before : 0 + d ≡ d = omega arith in
    Says-Dates y d (walk_months 11 y 1 d) h (
      subst (λ n. Says y n (walk_months 11 y 1 d)) none_before
        (walk_months-Says 11 y 1 d (omega arith)))

walk_years-Dates :
    (fuel y d : ℕ) → 1970 ≤ y → Dates (days_before_year (y - 1970) + d) (walk_years fuel y d)
unfolding walk_years
walk_years-Dates zero y d h = january y d h
walk_years-Dates (suc fuel) y d h =
    on_branches (Dates (days_before_year (y - 1970) + d)) (ltb d (days_in_year y))
      (walk_months 11 y 1 d) (walk_years fuel (suc y) (d - days_in_year y)) (λ e. january y d h)
      (λ e.
        let same : days_before_year (suc y - 1970) + (d - days_in_year y)
            ≡ days_before_year (y - 1970) + d =
          ground (arith, year_begin y h) in
        subst (λ n. Dates n (walk_years fuel (suc y) (d - days_in_year y))) same
          (walk_years-Dates fuel (suc y) (d - days_in_year y) (omega arith)))

pub date_of-Dates : (d : ℕ) → Dates d (date_of d)
unfolding date_of days_before_year
date_of-Dates d =
    let none_before : 0 + d ≡ d = omega arith in
    subst (λ n. Dates n (walk_years d 1970 d)) none_before (walk_years-Dates d 1970 d (omega arith))

-- Two years differ in their February only.
same_month : (y z m : ℕ) → nat_beq m 2 ≡ false → days_in_month y m ≡ days_in_month z m
unfolding days_in_month
same_month y z m h = rw h refl

march :
    (y z m : ℕ)
    → days_before_month y (suc (suc (suc m))) + days_in_month z 2
      ≡ days_before_month z (suc (suc (suc m))) + days_in_month y 2
unfolding days_before_month
march y z zero = omega (arith, same_month y z 1 refl)
march y z (suc m) = omega (arith, march y z m, same_month y z (suc (suc (suc m))) (ground arith))

days_in_year_range : (y : ℕ) → (365 ≤ days_in_year y) × (days_in_year y ≤ 366)
unfolding days_in_year
days_in_year_range y = ground arith

february : (y : ℕ) → (28 ≤ days_in_month y 2) × (days_in_month y 2 ≤ 29)
unfolding days_in_month
february y = ground arith

-- The days before a month, in two years.
days_before_month_later :
    (y z m : ℕ)
    → (days_before_month y m ≤ days_before_month z m + 1)
      × (days_before_month z m ≤ days_before_month y m + 1)
unfolding days_before_month
days_before_month_later y z zero = ground arith
days_before_month_later y z (suc zero) = ground arith
days_before_month_later y z (suc (suc zero)) = ground (arith, same_month y z 1 refl)
days_before_month_later y z (suc (suc (suc m))) =
    ground (arith, march y z m, february y, february z)

-- time.AddDate(1, 0, 1) of a day is at least a year later, and at most 368 days.
pub next_year :
    (d : ℕ)
    → let t = date_of d in
      (d + 365 ≤ day_number (suc t.year) t.month (suc t.day))
      × (day_number (suc t.year) t.month (suc t.day) ≤ d + 368)
unfolding day_number
next_year d =
    let t = date_of d in
    let (since, month, day, sum) = date_of-Dates d in
    ground (
      arith,
      year_begin t.year since,
      days_in_year_range t.year,
      days_before_month_later t.year (suc t.year) t.month,
    )
