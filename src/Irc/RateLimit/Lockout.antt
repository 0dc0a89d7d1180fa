-- ===== src/Irc/RateLimit/Lockout.antt =====
-- What the failure counter of ratelimit.go guarantees: when it locks an address, for how long, and
-- that addresses do not touch one another.
use mathlib.Core.List.{append-nil, append_assoc}
use turborg.Base.{
  some, ◌&&◌, All-append, Option, false, leb, length-append, ne→beq, suc, ◌≢◌, All, refl, ℕ, ◌+◌,
  ◌≤◌, ◌<◌, ◌≡◌, true, List, [], ◌∷◌, ◌++◌, arith, ltb, if◌then◌else◌, length, keep, Str, str_eq,
  beq_refl, ◌==◌,
}
use turborg.Base.Map.{lookup, lookup-insert, lookup-delete}
use turborg.Base.Time.{Time, in_window}
use turborg.Irc.RateLimit.{
  RateLimiter, time_until_unlock, is_locked, record_success, record_failure, bucket_of,
}
use turborg.Irc.RateLimit.Calls.{Call, query, success, failure, call, bucket_of-failure}

-- A failure that locks keeps the address locked until exactly `lockout` later, and forgets its
-- failures.
pub failure_locks :
    (ip : Str) (now later : Time) (r : RateLimiter)
    → (record_failure ip now r).1.locked ≡ true
    → ((is_locked ip later (record_failure ip now r).0).1 ≡ ltb later (now + r.lockout))
      × (bucket_of ip (record_failure ip now r).0.failures ≡ [])
failure_locks ip now later r h = (
  unfold record_failure is_locked time_until_unlock in
      ground (arith, lookup-insert ip ip (now + r.lockout) r.locked_until, beq_refl ip, h),
  ground (arith, bucket_of-failure ip ip now r, beq_refl ip, h),
)

abbrev Within : Time → ℕ → List Time → Type 0
Within start window ts = All (λ t. (start ≤ t) × (t ≤ start + window)) ts

keep-Within :
    (start window now : ℕ) (ts : List Time)
    → now ≤ start + window
    → Within start window ts
    → keep (in_window window now) ts ≡ ts
keep-Within start window now [] h w = refl
keep-Within start window now (t ∷ ts) h w = ground (arith, keep-Within start window now ts h w.1)

unfoldable pub fail_all : Str → List Time → RateLimiter → RateLimiter
fail_all ip [] r = r
fail_all ip (t ∷ ts) r = fail_all ip ts (record_failure ip t r).0

-- The limits of the limiter and what it holds of one address.
record Holds (ip : Str) (window max : ℕ) (b : List Time) (r : RateLimiter) : Type 0 where
  bucket : bucket_of ip r.failures ≡ b
  same_window : r.window ≡ window
  same_max : r.max_failures ≡ max

module _ (ip : Str) (start : Time) (window max : ℕ) where
  failure-Within :
      (t : Time) (b : List Time) (r : RateLimiter)
      → Holds ip window max b r
      → Within start window b
      → t ≤ start + window
      → (record_failure ip t r).1
        ≡ record { count = suc (length b); locked = leb max (suc (length b)) }
  unfolding record_failure
  failure-Within t b r h w late = ground (
    arith,
    h.bucket,
    h.same_window,
    h.same_max,
    keep-Within start window t b late w,
    length-append b (t ∷ []),
  )

  failure-Holds :
      (t : Time) (b : List Time) (r : RateLimiter)
      → Holds ip window max b r
      → Within start window b
      → t ≤ start + window
      → suc (length b) < max
      → Holds ip window max (b ++ t ∷ []) (record_failure ip t r).0
  failure-Holds t b r h w late few = record {
    bucket = ground (
      arith,
      bucket_of-failure ip ip t r,
      beq_refl ip,
      failure-Within t b r h w late,
      h.bucket,
      h.same_window,
      keep-Within start window t b late w,
    );
    same_window = unfold record_failure in ground (arith, h.same_window);
    same_max = unfold record_failure in ground (arith, h.same_max);
  }

  fail_all-Holds :
      (b ts : List Time) (r : RateLimiter)
      → Holds ip window max b r
      → Within start window b
      → Within start window ts
      → length b + length ts < max
      → Holds ip window max (b ++ ts) (fail_all ip ts r)
  unfolding fail_all
  fail_all-Holds b [] r h wb wt few = rw append-nil h
  fail_all-Holds b (t ∷ ts) r h wb wt few =
      let here = All-append (λ t. (start ≤ t) × (t ≤ start + window)) b (t ∷ []) wb (wt.0, tt) in
      rw (← append_assoc b (t ∷ []) ts) (
        fail_all-Holds (b ++ t ∷ []) ts (record_failure ip t r).0
          (failure-Holds t b r h wb wt.0.1 (omega arith)) here wt.1
          (omega (arith, length-append b (t ∷ []))))

-- Failures of an address with no failure on record, all within one window, are counted exactly up to
-- the lock: while those before it are fewer than `MaxFailures`, so that none of them has locked yet,
-- a failure reports how many they are with it, and locks the address if and only if it is the one
-- that reaches `MaxFailures`.
pub nth_failure_locks :
    (ip : Str) (start t : Time) (ts : List Time) (r : RateLimiter)
    → bucket_of ip r.failures ≡ []
    → Within start r.window ts
    → t ≤ start + r.window
    → length ts < r.max_failures
    → (record_failure ip t (fail_all ip ts r)).1
      ≡ record { count = suc (length ts); locked = leb r.max_failures (suc (length ts)) }
nth_failure_locks ip start t ts r e w late few =
    failure-Within ip start r.window r.max_failures t ts (fail_all ip ts r)
      (fail_all-Holds ip start r.window r.max_failures [] ts r
        (record { bucket = e; same_window = refl; same_max = refl }) tt w (omega arith))
      w late

-- What a limiter says of an address: its failures on record, and the end of its lockout.
abbrev pub entry : Str → RateLimiter → List Time × Option Time
entry ip r = (bucket_of ip r.failures, lookup ip r.locked_until)

abbrev pub subject : Call → Str
subject (query ip _) = ip
subject (success ip) = ip
subject (failure ip _) = ip

locked_until-failure :
    (ip other : Str) (now : Time) (r : RateLimiter)
    → lookup other (record_failure ip now r).0.locked_until ≡ (
        if ip == other && (record_failure ip now r).1.locked
        then some (now + r.lockout)
        else lookup other r.locked_until)
unfolding record_failure
locked_until-failure ip other now r =
    ground (arith, lookup-insert ip other (now + r.lockout) r.locked_until)

-- A call about one address leaves every other address as it was.
pub call_frame :
    (r : RateLimiter) (c : Call) (other : Str)
    → subject c ≢ other
    → entry other (call r c) ≡ entry other r
unfolding call time_until_unlock record_success
call_frame r (query ip now) other h =
    ground (arith, ne→beq ip other h, lookup-delete ip other r.locked_until)
call_frame r (success ip) other h = ground (
  arith,
  ne→beq ip other h,
  lookup-delete ip other r.locked_until,
  lookup-delete ip other r.failures,
)
call_frame r (failure ip now) other h = ground (
  arith,
  ne→beq ip other h,
  bucket_of-failure ip other now r,
  locked_until-failure ip other now r,
)

-- A success wipes the address: nothing on record, not locked at any time.
pub success_clears :
    (ip : Str) (now : Time) (r : RateLimiter)
    → (bucket_of ip (record_success ip r).failures ≡ [])
      × ((is_locked ip now (record_success ip r)).1 ≡ false)
unfolding record_success is_locked time_until_unlock
success_clears ip now r = (
  ground (arith, lookup-delete ip ip r.failures, beq_refl ip),
  ground (arith, lookup-delete ip ip r.locked_until, beq_refl ip),
)
