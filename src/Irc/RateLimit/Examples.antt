-- ===== src/Irc/RateLimit/Examples.antt =====
-- The theorems on ratelimit.go at concrete inputs, and runs of its methods.
use turborg.Base.Text.{codes}
use turborg.Base.Time.{Time}
use turborg.Base.Int.{negsuc, pos}
use turborg.Base.Result.{err, ok}
use turborg.Base.{
  List, Str, [], arith, false, keep, length, refl, str_beq, str_eq, true, ◌∷◌, ◌≡◌, ◌≤◌,
}
use turborg.Base.Map.{insert, lookup}
use turborg.Irc.RateLimit.{
  RateLimiter, Throttle, new_rate_limiter, is_locked, record_success, record_failure,
  allow_with_reason, bucket_of, max_below_one,
}
use turborg.Irc.RateLimit.Calls.{IsValid, new-IsValid}
use turborg.Irc.RateLimit.Lockout.{fail_all, nth_failure_locks, success_clears}
use turborg.Irc.RateLimit.Quota.{granted, throttle_quota, span}

abbrev limiter : RateLimiter
limiter = record { max_failures = 3; window = 60; lockout = 100; failures = []; locked_until = [] }

new_limiter : new_rate_limiter (pos 3) (pos 60) (pos 100) ≡ ok limiter
unfolding new_rate_limiter
new_limiter = refl

no_failures_allowed : new_rate_limiter (negsuc 0) (pos 60) (pos 100) ≡ err max_below_one
unfolding new_rate_limiter
no_failures_allowed = refl

limiter-IsValid : IsValid limiter
limiter-IsValid = new-IsValid (pos 3) (pos 60) (pos 100) limiter new_limiter

abbrev alice : Str
alice = codes "10.0.0.1"

abbrev bob : Str
bob = codes "10.0.0.2"

nth_failure_locks_example :
    (record_failure alice 40 (fail_all alice (5 ∷ 65 ∷ []) limiter)).1
    ≡ record { count = 3; locked = true }
unfolding lookup
nth_failure_locks_example =
    nth_failure_locks alice 5 40 (5 ∷ 65 ∷ []) limiter refl (omega arith) (omega arith)
      (omega arith)

abbrev twice_failed : RateLimiter
twice_failed = fail_all alice (5 ∷ 65 ∷ []) limiter

success_clears_example :
    (bucket_of alice (record_success alice twice_failed).failures ≡ [])
    × ((is_locked alice 41 (record_success alice twice_failed)).1 ≡ false)
success_clears_example = success_clears alice 41 twice_failed

abbrev throttle : Throttle
throttle = record { max_per_window = 2; window = 10; events = [] }

abbrev chatter : List (Str × Time)
chatter = (alice, 1) ∷ (alice, 4) ∷ (bob, 5) ∷ (alice, 6) ∷ (alice, 12) ∷ []

granted_twice_then_again : granted alice throttle chatter ≡ 1 ∷ 4 ∷ 12 ∷ []
unfolding granted allow_with_reason lookup insert str_beq
granted_twice_then_again = refl

throttle_quota_example : length (keep (span 2 10) (granted alice throttle chatter)) ≤ 2
unfolding lookup
throttle_quota_example = throttle_quota alice 0 2 throttle chatter refl (omega arith)

abbrev full : Throttle
full = record { max_per_window = 2; window = 10; events = (alice, 1 ∷ 4 ∷ []) ∷ [] }
