-- ===== src/Irc/RateLimit/Calls.antt =====
-- Sequences of calls of the failure counter of ratelimit.go, and what stays true of it.
use turborg.Base.{
  ◌≤◌, ◌<◌, ◌≡◌, List, [], ◌∷◌, ◌++◌, arith, if◌then◌else◌, length, keep, Str, str_eq, ◌==◌,
}
use turborg.Base.Int.{ℤ}
use turborg.Base.Map.{lookup, insert, lookup-insert, lookup-delete}
use turborg.Base.Result.{ok}
use turborg.Base.Time.{Time, in_window}
use turborg.Irc.RateLimit.{
  RateLimiter, new_rate_limiter, time_until_unlock, record_success, record_failure, bucket_of,
}

pub record IsValid (r : RateLimiter) : Type 0 where
  pub max_positive : 1 ≤ r.max_failures
  pub window_positive : 0 < r.window
  pub lockout_positive : 0 < r.lockout
  pub short : (ip : Str) → length (bucket_of ip r.failures) < r.max_failures

pub new-IsValid : (m w l : ℤ) (r : RateLimiter) → new_rate_limiter m w l ≡ ok r → IsValid r
unfolding new_rate_limiter lookup
new-IsValid m w l r h = record {
  max_positive = ground arith;
  window_positive = ground arith;
  lockout_positive = ground arith;
  short = λ ip. ground arith;
}

-- One call of the limiter, whoever makes it.
pub data Call : Type 0 where
  query : Str → Time → Call
  success : Str → Call
  failure : Str → Time → Call

unfoldable pub call : RateLimiter → Call → RateLimiter
call r (query ip now) = (time_until_unlock ip now r).0
call r (success ip) = record_success ip r
call r (failure ip now) = (record_failure ip now r).0

unfoldable pub calls : RateLimiter → List Call → RateLimiter
calls r [] = r
calls r (c ∷ cs) = calls (call r c) cs

pub bucket_of-failure :
    (ip other : Str) (now : Time) (r : RateLimiter)
    → bucket_of other (record_failure ip now r).0.failures ≡ (
        if ip == other
        then (if (record_failure ip now r).1.locked
            then []
            else keep (in_window r.window now) (bucket_of ip r.failures) ++ now ∷ [])
        else bucket_of other r.failures)
unfolding record_failure
bucket_of-failure ip other now r =
    let pruned = keep (in_window r.window now) (bucket_of ip r.failures) ++ now ∷ [] in
    ground (
      arith,
      lookup-insert ip other pruned r.failures,
      lookup-delete ip other (insert ip pruned r.failures),
    )

pub short-failure :
    (ip other : Str) (now : Time) (r : RateLimiter)
    → IsValid r
    → length (bucket_of other (record_failure ip now r).0.failures) < r.max_failures
short-failure ip other now r v =
    let pruned = keep (in_window r.window now) (bucket_of ip r.failures) ++ now ∷ [] in
    rw bucket_of-failure (unfold record_failure in ground (arith, v.short other, v.max_positive))

pub failure-IsValid :
    (ip : Str) (now : Time) (r : RateLimiter) → IsValid r → IsValid (record_failure ip now r).0
failure-IsValid ip now r v = record {
  max_positive = unfold record_failure in ground (arith, v.max_positive);
  window_positive = unfold record_failure in ground (arith, v.window_positive);
  lockout_positive = unfold record_failure in ground (arith, v.lockout_positive);
  short = λ other. unfold record_failure in ground (arith, short-failure ip other now r v);
}

pub success-IsValid : (ip : Str) (r : RateLimiter) → IsValid r → IsValid (record_success ip r)
unfolding record_success
success-IsValid ip r v = record {
  max_positive = v.max_positive;
  window_positive = v.window_positive;
  lockout_positive = v.lockout_positive;
  short = λ other. ground (arith, lookup-delete ip other r.failures, v.short other, v.max_positive);
}

pub query-IsValid :
    (ip : Str) (now : Time) (r : RateLimiter) → IsValid r → IsValid (time_until_unlock ip now r).0
unfolding time_until_unlock
query-IsValid ip now r v = record {
  max_positive = ground (arith, v.max_positive);
  window_positive = ground (arith, v.window_positive);
  lockout_positive = ground (arith, v.lockout_positive);
  short = λ other. ground (arith, v.short other);
}

pub call-IsValid : (r : RateLimiter) (c : Call) → IsValid r → IsValid (call r c)
unfolding call
call-IsValid r (query ip now) v = query-IsValid ip now r v
call-IsValid r (success ip) v = success-IsValid ip r v
call-IsValid r (failure ip now) v = failure-IsValid ip now r v

-- Whatever the calls, no address ever holds `MaxFailures` recorded failures: the bucket is emptied
-- by the failure that fills it. The limits stay positive.
pub calls-IsValid : (r : RateLimiter) (cs : List Call) → IsValid r → IsValid (calls r cs)
unfolding calls
calls-IsValid r [] v = v
calls-IsValid r (c ∷ cs) v = calls-IsValid (call r c) cs (call-IsValid r c v)
