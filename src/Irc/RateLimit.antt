-- ===== src/Irc/RateLimit.antt =====
-- internal/connector/irc/ratelimit.go: the failure counter of the bouncer's PASS check and the
-- throttle of commands. Each method reads the clock once; the reading is its argument `now`. The
-- mutex makes each method one step.
pub mod Calls
pub mod Lockout
pub mod Quota
mod Examples
use turborg.Base.{
  ℕ, ◌+◌, ◌-◌, Bool, true, false, Option, none, some, List, [], ◌∷◌, ◌++◌, ltb, leb, if◌then◌else◌,
  length, keep, Str, str_eq, or_zero,
}
use turborg.Base.Int.{ℤ, lt_pos, le_pos, clamp}
use turborg.Base.Map.{Map, lookup, insert, delete}
use turborg.Base.Result.{Result, ok, ◌>>◌, refuse}
use turborg.Base.Time.{Time, in_window}

pub data ConfigError : Type 0 where
  max_below_one window_not_positive lockout_not_positive : ConfigError

pub record FailureResult : Type 0 where
  pub count : ℕ
  pub locked : Bool

pub record RateLimiter : Type 0 where
  pub max_failures : ℕ
  pub window : ℕ
  pub lockout : ℕ
  pub failures : Map Str (List Time)
  pub locked_until : Map Str Time

pub new_rate_limiter : ℤ → ℤ → ℤ → Result ConfigError RateLimiter
new_rate_limiter max_failures window lockout = do
  refuse (lt_pos max_failures 1) max_below_one
  refuse (le_pos window 0) window_not_positive
  refuse (le_pos lockout 0) lockout_not_positive
  ok (record {
    max_failures = clamp max_failures;
    window = clamp window;
    lockout = clamp lockout;
    failures = [];
    locked_until = [];
  })

-- `until.Sub(now) <= 0` is `until <= now`; past that test the truncated difference is exact.
expire_lock : Str → Time → RateLimiter → Option Time → RateLimiter × ℕ
expire_lock ip now r none = (r, 0)
expire_lock ip now r (some until) =
    if leb until now
    then (record r { locked_until = delete ip r.locked_until }, 0)
    else (r, until - now)

pub time_until_unlock : Str → Time → RateLimiter → RateLimiter × ℕ
unfolding expire_lock
time_until_unlock ip now r = expire_lock ip now r (lookup ip r.locked_until)

pub is_locked : Str → Time → RateLimiter → RateLimiter × Bool
is_locked ip now r = let (r', remaining) = time_until_unlock ip now r in (r', ltb 0 remaining)

pub record_success : Str → RateLimiter → RateLimiter
record_success ip r = record r {
  failures = delete ip r.failures;
  locked_until = delete ip r.locked_until;
}

-- The bucket of a missing key is the nil slice.
abbrev pub bucket_of : Str → Map Str (List Time) → List Time
bucket_of k m = or_zero (lookup k m) []

pub record_failure : Str → Time → RateLimiter → RateLimiter × FailureResult
record_failure ip now r =
    let pruned = keep (in_window r.window now) (bucket_of ip r.failures) ++ now ∷ [] in
    let count = length pruned in
    let failures = insert ip pruned r.failures in
    if leb r.max_failures count
    then (
      record r {
        failures = delete ip failures;
        locked_until = insert ip (now + r.lockout) r.locked_until;
      },
      record { count = count; locked = true },
    )
    else (record r { failures = failures }, record { count = count; locked = false })

pub record Throttle : Type 0 where
  pub max_per_window : ℕ
  pub window : ℕ
  pub events : Map Str (List Time)

pub new_throttle : ℤ → ℤ → Result ConfigError Throttle
new_throttle max_per_window window = do
  refuse (lt_pos max_per_window 1) max_below_one
  refuse (le_pos window 0) window_not_positive
  ok (record { max_per_window = clamp max_per_window; window = clamp window; events = [] })

pub record ThrottleResult : Type 0 where
  pub allow : Bool
  pub retry_after : ℕ

-- `pruned[0]`; the throttle refuses only at `max_per_window >= 1` events, so there is one.
abbrev pub oldest : List Time → Time
oldest [] = 0
oldest (t ∷ _) = t

-- pruned[0] is at most `window` before `now`, so the truncated difference is exact.
pub allow_with_reason : Str → Time → Throttle → Throttle × ThrottleResult
allow_with_reason key now t =
    let pruned = keep (in_window t.window now) (bucket_of key t.events) in
    if leb t.max_per_window (length pruned)
    then (
      record t { events = insert key pruned t.events },
      record { allow = false; retry_after = oldest pruned + t.window - now },
    )
    else (
      record t { events = insert key (pruned ++ now ∷ []) t.events },
      record { allow = true; retry_after = 0 },
    )

pub allow : Str → Time → Throttle → Throttle × Bool
allow key now t = let (t', result) = allow_with_reason key now t in (t', result.allow)
