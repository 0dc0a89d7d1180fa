-- ===== src/Skill/Cron.antt =====
-- internal/skill/cron.go: cron expressions of five fields, evaluated in UTC. Bytes stand for text.
-- A set of values is the list of the values written to it; only membership and emptiness are read.
-- The loop over the steps of a part runs on 64 rounds.
pub mod Values
pub mod Next
pub mod Parsed
pub mod Rounds
mod Examples
use turborg.Base.{
  nat_beq, map, Bool, List, Option, Str, [], true, false, none, not, some, zero, ◌&&◌, ◌*◌, ◌++◌,
  ◌+◌, ◌-◌, ◌/◌, ◌==◌, ◌^◌, ◌||◌, ◌∷◌, ltb, if◌then◌else◌, length, contains, leb, suc, ℕ, ◌%◌,
  str_eq,
}
use mathlib.Core.Option
use turborg.Base.Int.{ℤ, negsuc, pos, lt_pos, le_pos}
use turborg.Base.Calendar.{date_of, day_number}
use turborg.Base.Result.{Result, err, ok, ◌>>=◌, ◌>>◌, refuse}
use turborg.Base.Text.{codes}
use turborg.Base.Text.Split.{cut, fields, split}
use turborg.Base.Text.Numbers.{int_end, atoi}

pub data FieldName : Type 0 where
  of_minute of_hour of_day_of_month of_month of_day_of_week : FieldName

-- `stuck` marks a loop that ran out of rounds.
pub data FieldError : Type 0 where
  bad_step bad_range bad_value : Str → FieldError
  out_of_range : Str → ℕ → ℕ → FieldError
  empty_field stuck : FieldError

pub data CronError : Type 0 where
  wrong_number : ℕ → CronError
  bad_field : FieldName → FieldError → CronError

abbrev pub FieldSet : Type 0
FieldSet = List ℤ

pub record CronSpec : Type 0 where
  pub minute : FieldSet
  pub hour : FieldSet
  pub dom : FieldSet
  pub month : FieldSet
  pub dow : FieldSet
  pub dom_star : Bool
  pub dow_star : Bool

abbrev pub int_beq : ℤ → ℤ → Bool
int_beq (pos a) (pos b) = nat_beq a b
int_beq (negsuc a) (negsuc b) = nat_beq a b
int_beq _ _ = false

unfoldable pub has : FieldSet → ℤ → Bool
has [] v = false
has (w ∷ ws) v = int_beq w v || has ws v

abbrev pub less : ℤ → ℤ → Bool
less (pos a) (pos b) = ltb a b
less (pos a) (negsuc b) = false
less (negsuc a) (pos b) = true
less (negsuc a) (negsuc b) = ltb b a

-- v + step in 64 bits, for a step below 1 << 63.
unfoldable pub wrap_add : ℤ → ℕ → ℤ
wrap_add (pos v) step =
    if ltb (v + step) int_end then pos (v + step) else negsuc (2 ^ 64 - (v + step) - 1)
wrap_add (negsuc n) step = if ltb n step then pos (step - n - 1) else negsuc (n - step)

-- for v := start; v <= end; v += step
unfoldable pub fill : ℕ → ℤ → ℕ → ℕ → Option FieldSet
unfolding wrap_add
fill zero v end step = none
fill (suc fuel) v end step =
    let rest = fill fuel (wrap_add v step) end step in
    if less (pos end) v then some [] else Option.map (λ vs. v ∷ vs) rest

-- if err != nil || s < 1
abbrev pub step_of : Str → Str → Option ℤ → Result FieldError (Str × ℕ)
step_of part rng (some (pos (suc n))) = ok (rng, suc n)
step_of part rng _ = err (bad_step part)

-- if slash >= 0
unfoldable pub slashed : Str → Option (Str × Str) → Result FieldError (Str × ℕ)
unfolding atoi
slashed part none = ok (part, 1)
slashed part (some (rng, s)) = step_of part rng (atoi s)

-- The range and the step of a part.
unfoldable pub read_step : Str → Result FieldError (Str × ℕ)
unfolding cut slashed
read_step part = slashed part (cut (codes "/") part)

abbrev pub both : Str → Option ℤ → Option ℤ → Result FieldError (ℤ × ℤ)
both part (some a) (some b) = ok (a, b)
both part _ _ = err (bad_range part)

abbrev pub single : Str → Option ℤ → Result FieldError (ℤ × ℤ)
single part (some v) = ok (v, v)
single part none = err (bad_value part)

unfoldable pub dashed : Str → Str → Option (Str × Str) → Result FieldError (ℤ × ℤ)
unfolding atoi
dashed part rng none = single part (atoi rng)
dashed part rng (some (a, b)) = both part (atoi a) (atoi b)

unfoldable pub read_range : ℕ → ℕ → Str → Str → Result FieldError (ℤ × ℤ)
unfolding cut dashed
read_range lo hi part rng =
    if rng == codes "*" then ok (pos lo, pos hi) else dashed part rng (cut (codes "-") rng)

-- The first value, the last one and the step of a part.
pub record Steps : Type 0 where
  pub start : ℕ
  pub end : ℕ
  pub step : ℕ

-- if start < lo || end > hi || start > end
unfoldable pub check_range : ℕ → ℕ → Str → ℕ → ℤ × ℤ → Result FieldError Steps
check_range lo hi part step (pos start, pos end) =
    if ltb start lo || ltb hi end || ltb end start
    then err (out_of_range part lo hi)
    else ok (record { start = start; end = end; step = step })
check_range lo hi part step _ = err (out_of_range part lo hi)

unfoldable pub read_part : ℕ → ℕ → Str → Result FieldError Steps
unfolding read_step read_range check_range
read_part lo hi part =
    read_step part >>= λ (rng, step). (read_range lo hi part rng >>= check_range lo hi part step)

abbrev pub rounds : ℕ
rounds = 64

abbrev pub write_values : FieldSet → Option FieldSet → Result FieldError FieldSet
write_values out none = err stuck
write_values out (some vs) = ok (out ++ vs)

unfoldable pub add_steps : FieldSet → Steps → Result FieldError FieldSet
unfolding fill
add_steps out s = write_values out (fill rounds (pos s.start) s.end s.step)

unfoldable pub parse_parts : ℕ → ℕ → List Str → FieldSet → Result FieldError FieldSet
unfolding read_part add_steps
parse_parts lo hi [] out = ok out
parse_parts lo hi (part ∷ parts) out =
    read_part lo hi part >>= add_steps out >>= parse_parts lo hi parts

abbrev pub not_empty : FieldSet → Result FieldError FieldSet
not_empty [] = err empty_field
not_empty (v ∷ vs) = ok (v ∷ vs)

unfoldable pub parse_field : ℕ → ℕ → Str → Result FieldError FieldSet
unfolding parse_parts split
parse_field lo hi field = parse_parts lo hi (split b',' field) [] >>= not_empty

abbrev pub naming : {A : Type 0} → FieldName → Result FieldError A → Result CronError A
naming name (ok a) = ok a
naming name (err e) = err (bad_field name e)

unfoldable pub parse_words : List Str → Result CronError CronSpec
unfolding parse_field
parse_words (m ∷ h ∷ d ∷ mo ∷ w ∷ []) = naming of_minute (parse_field 0 59 m) >>= λ minute.
    naming of_hour (parse_field 0 23 h) >>= λ hour.
    naming of_day_of_month (parse_field 1 31 d) >>= λ dom.
    naming of_month (parse_field 1 12 mo) >>= λ month.
    naming of_day_of_week (parse_field 0 6 w) >>= λ dow. ok (record {
      minute = minute;
      hour = hour;
      dom = dom;
      month = month;
      dow = dow;
      dom_star = d == codes "*";
      dow_star = w == codes "*";
    })
parse_words ws = err (wrong_number (length ws))

unfoldable pub parse_cron : Str → Result CronError CronSpec
unfolding parse_words fields
parse_cron spec = parse_words (fields spec)
