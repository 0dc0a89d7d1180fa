-- ===== src/Skill/Cron/Examples.antt =====
-- Runs of the cron parser and of the search for the next match, at concrete inputs.
use turborg.Base.{
  str_beq, arith, refl, ◌≡◌, ◌≢◌, Str, [], false, ◌*◌, ◌+◌, ◌-◌, ◌^◌, ◌∷◌, ℕ, str_eq, All,
}
use turborg.Base.Int.{negsuc, pos}
use turborg.Base.Result.{err, ok}
use turborg.Base.Text.Split.{split}
use turborg.Base.Text.{codes}
use turborg.Skill.Cron.{
  read_step, CronSpec, bad_field, parse_cron, parse_field, has, stuck, of_minute,
}
use turborg.Skill.Cron.Next.{next_first, minute_length, stamp_of, next, matches}
use turborg.Skill.Cron.Parsed.{parse_field_exact, any_permits, StaysBelow}
use turborg.Skill.Cron.Rounds.{parse_cron_ends}

-- A range with a step and a number.
abbrev office : Str
office = codes "9-17/4,20"

office_hours : parse_field 0 23 office ≡ ok (pos 9 ∷ pos 13 ∷ pos 17 ∷ pos 20 ∷ [])
unfolding parse_field str_beq
office_hours = refl

office_fits : All (λ part. StaysBelow 23 (read_step part)) (split b',' office)
unfolding split read_step
office_fits = (omega arith, (omega arith, tt))

parse_field_exact_example :
    has (pos 9 ∷ pos 13 ∷ pos 17 ∷ pos 20 ∷ []) (pos 13)
    ≡ any_permits 0 23 (split b',' office) (pos 13)
parse_field_exact_example =
    parse_field_exact 0 23 office (pos 9 ∷ pos 13 ∷ pos 17 ∷ pos 20 ∷ []) (pos 13) (omega arith)
      office_fits office_hours

-- The widest step wraps around: values out of the range of the part, also negative ones, are
-- permitted.
abbrev wide : Str
wide = codes "2-5/9223372036854775807"

wide_values : parse_field 1 31 wide ≡ ok (pos 2 ∷ negsuc (2 ^ 63 - 2) ∷ pos 0 ∷ [])
unfolding parse_field str_beq
wide_values = refl

parse_cron_ends_example :
    parse_cron (codes "*/9223372036854775807 * * * *") ≢ err (bad_field of_minute stuck)
parse_cron_ends_example = parse_cron_ends (codes "*/9223372036854775807 * * * *") of_minute

-- At nine o'clock on each Monday.
abbrev mondays : CronSpec
mondays = record {
  minute = pos 0 ∷ [];
  hour = pos 9 ∷ [];
  dom = pos 1 ∷ [];
  month = pos 1 ∷ [];
  dow = pos 1 ∷ [];
  dom_star = false;
  dow_star = false;
}

-- On Thursday, 1 January 1970, at 8:58:03.
abbrev thursday : ℕ
thursday = (8 * 60 + 58) * minute_length + 3000000000

first_monday : next mondays thursday ≡ 9 * 60 * minute_length
unfolding next
first_monday = refl

next_first_example : matches mondays (stamp_of 539) ≡ false
next_first_example = next_first mondays thursday 539 (omega arith) (rw first_monday (omega arith))
