-- ===== src/Skill/Lifts/Deadlines.antt =====
-- When a timed effect is over.
use turborg.Base.{ap, arith, leb, ◌*◌, ◌/◌, ◌<◌, ◌^◌, ◌≡◌, ◌≤◌, Str, ◌+◌, ℕ, str_eq}
use native.Mathlib.Nat.{mod-eq_of_lt}
use turborg.Base.Int.{pos}
use turborg.Base.Time.{Time}
use turborg.Skill.Lifts.{is_due, second, seconds, unix_after}
use turborg.Skill.Lifts.Persistence.{lift_at}

shifted : (now secs : ℕ) → (now + secs * second) / second ≡ now / second + secs
shifted now secs = omega arith

seconds_exact : (secs : ℕ) → secs ≤ 9223372036 → seconds secs ≡ pos (secs * second)
unfolding seconds
seconds_exact secs h =
    let small : secs * second < 2 ^ 64 = omega arith in ground (arith, mod-eq_of_lt small)

-- A lift for at most 9223372036 seconds is due from exactly that many seconds after it was
-- scheduled on, counted in whole seconds of the clock.
pub due_exact :
    (now later : Time) (channel modes arg : Str) (secs : ℕ)
    → secs ≤ 9223372036
    → is_due (later / second) (lift_at now channel modes arg secs)
      ≡ leb (now / second + secs) (later / second)
unfolding unix_after
due_exact now later channel modes arg secs h =
    let d = seconds_exact secs h in rw d (ap (λ n. leb n (later / second)) (shifted now secs))
