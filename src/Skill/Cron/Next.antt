-- ===== src/Skill/Cron/Next.antt =====
-- internal/skill/cron.go: when a cron expression matches. A time is a count of nanoseconds since
-- the begin of 1970 in UTC, and the search for the next match runs over whole minutes.
use turborg.Base.{
  ap, nat_beq_iff, sym, ◌∙◌, Bool-cases, arith, inl, inr, nat_beq, on_branches, false, not, true,
  zero, ◌⊎◌, Bool, ◌*◌, ◌&&◌, ◌≤◌, ◌+◌, ◌-◌, ◌/◌, ◌||◌, ◌<◌, if◌then◌else◌, suc, ℕ, ◌%◌, ◌≡◌,
}
use mathlib.Core.Path.{subst}
use turborg.Base.Int.{pos}
use turborg.Base.Time.{Time}
use turborg.Base.Calendar.{date_of, day_number, next_year}
use turborg.Skill.Cron.{CronSpec, has}

-- time.Minute
abbrev pub minute_length : ℕ
minute_length = 60 * 1000000000

abbrev pub day_length : ℕ
day_length = 1440

-- What a cron expression looks at in a time.
pub record Stamp : Type 0 where
  pub minute : ℕ
  pub hour : ℕ
  pub day : ℕ
  pub month : ℕ
  pub weekday : ℕ

-- The 1 January 1970 was a Thursday.
unfoldable pub stamp_of : ℕ → Stamp
unfolding date_of
stamp_of n =
    let d = date_of (n / day_length) in
    record {
      minute = n % 60;
      hour = n / 60 % 24;
      day = d.day;
      month = d.month;
      weekday = (n / day_length + 4) % 7;
    }

unfoldable pub matches : CronSpec → Stamp → Bool
unfolding has
matches c t =
    let dom_ok = has c.dom (pos t.day) in
    let dow_ok = has c.dow (pos t.weekday) in
    if not (has c.minute (pos t.minute))
      || not (has c.hour (pos t.hour))
      || not (has c.month (pos t.month))
    then false
    else if not c.dom_star && not c.dow_star
    then dom_ok || dow_ok
    else dom_ok && dow_ok

-- for ; t.Before(limit); t = t.Add(time.Minute), with `left` minutes before the limit.
unfoldable pub scan : (ℕ → Bool) → ℕ → ℕ → ℕ
scan is_match zero t = t
scan is_match (suc left) t = elim (is_match t) [ true ↦ t | false ↦ scan is_match left (suc t) ]

-- t.AddDate(1, 0, 1), of a minute.
unfoldable pub limit_of : ℕ → ℕ
unfolding date_of day_number
limit_of t =
    let d = date_of (t / day_length) in
    day_number (suc d.year) d.month (suc d.day) * day_length + t % day_length

-- In minutes.
unfoldable pub next_minute : CronSpec → ℕ → ℕ
unfolding scan matches stamp_of limit_of
next_minute c t = scan (λ n. matches c (stamp_of n)) (limit_of t - t) t

unfoldable pub next : CronSpec → Time → Time
unfolding next_minute
next c from = next_minute c (suc (from / minute_length)) * minute_length

scan_range : (p : ℕ → Bool) (left t : ℕ) → (t ≤ scan p left t) × (scan p left t ≤ t + left)
unfolding scan
scan_range p zero t = omega arith
scan_range p (suc left) t =
    let (low, high) = scan_range p left (suc t) in
    on_branches (λ n. (t ≤ n) × (n ≤ t + suc left)) (p t) t (scan p left (suc t))
      (λ e. (omega arith, omega arith)) (λ e. (omega arith, omega arith))

-- A scan ends at a match, or at its end.
scan_found : (p : ℕ → Bool) (left t : ℕ) → (scan p left t ≡ t + left) ⊎ (p (scan p left t) ≡ true)
unfolding scan
scan_found p zero t = inl (omega arith)
scan_found p (suc left) t =
    on_branches (λ n. (n ≡ t + suc left) ⊎ (p n ≡ true)) (p t) t (scan p left (suc t)) (λ e. inr e)
      (λ e. elim (scan_found p left (suc t)) [ inl h ↦ inl (omega arith) | inr h ↦ inr h ])

scan_first : (p : ℕ → Bool) (left t m : ℕ) → t ≤ m → m < scan p left t → p m ≡ false
unfolding scan
scan_first p zero t m h k = absurd (omega arith)
scan_first p (suc left) t m h k =
    on_branches (λ n. m < n → p m ≡ false) (p t) t (scan p left (suc t))
      (λ e k. absurd (omega arith))
      (λ e k. elim (Bool-cases (nat_beq t m)) [
        | inl same ↦ ap p (sym ((nat_beq_iff t m).0 same)) ∙ e
        | inr differ ↦ scan_first p left (suc t) m (ground arith) k
      ])
      k

limit_range : (t : ℕ) → (t + 365 * day_length ≤ limit_of t) × (limit_of t ≤ t + 368 * day_length)
unfolding limit_of
limit_range t = omega (arith, next_year (t / day_length))

next_minute-facts :
    (c : CronSpec) (t : ℕ)
    → let n = next_minute c t in
      (t ≤ n) × (n ≤ t + 368 * day_length) × ((n ≡ limit_of t) ⊎ (matches c (stamp_of n) ≡ true))
unfolding next_minute
next_minute-facts c t =
    let p = λ (n : ℕ). matches c (stamp_of n) in
    let left = limit_of t - t in
    let limit = limit_range t in
    let range = scan_range p left t in
    (
      range.0,
      omega (arith, limit, range),
      elim (scan_found p left t) [ inl h ↦ inl (omega (arith, h, limit)) | inr h ↦ inr h ],
    )

whole : (n : ℕ) → n * minute_length / minute_length ≡ n
whole n = omega arith

-- The next time of a cron expression lies behind the time it is asked for, by at most 368 days and
-- a minute; it is a match, or the end of the search.
pub next_found :
    (c : CronSpec) (from : Time)
    → let n = next c from / minute_length in
      (from < next c from)
      × (next c from ≤ from + (368 * day_length + 1) * minute_length)
      × ((n ≡ limit_of (suc (from / minute_length))) ⊎ (matches c (stamp_of n) ≡ true))
unfolding next
next_found c from =
    let t = suc (from / minute_length) in
    let (low, high, found) = next_minute-facts c t in
    (
      omega (arith, low),
      omega (arith, high),
      subst (λ n. (n ≡ limit_of t) ⊎ (matches c (stamp_of n) ≡ true))
          (sym (whole (next_minute c t))) found,
    )

-- Between the two times, no minute matches.
pub next_first :
    (c : CronSpec) (from : Time) (m : ℕ)
    → from < m * minute_length
    → m * minute_length < next c from
    → matches c (stamp_of m) ≡ false
unfolding next next_minute
next_first c from m h k =
    let t = suc (from / minute_length) in
    scan_first (λ n. matches c (stamp_of n)) (limit_of t - t) t m (omega arith) (omega arith)
