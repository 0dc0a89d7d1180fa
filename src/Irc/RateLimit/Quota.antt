-- ===== src/Irc/RateLimit/Quota.antt =====
-- What the throttle of ratelimit.go guarantees: never more than `MaxPerWindow` events of a key in
-- any window, over any sequence of calls on a clock that does not go back.
use mathlib.Core.List.{append_assoc, append-nil}
use turborg.Base.Time.{
  Nondecreasing, Nondecreasing-keep, oldest_leaves, keep-in_window_twice, Time, in_window,
}
use turborg.Base.Map.{lookup-insert}
use turborg.Base.{
  All, All-keep_self, length-keep, refl, str_beq_iff, sym, length-append, length-keep_mono, Bool,
  Bool-cases, beq_refl, inl, inr, keep-append, leb, max, ℕ, ◌<◌, ◌∙◌, List, Str, [], arith, false,
  if◌then◌else◌, keep, length, ltb, str_eq, true, ◌&&◌, ◌++◌, ◌+◌, ◌-◌, ◌==◌, ◌∷◌, ◌≡◌, ◌≤◌,
}
use mathlib.Core.Path.{subst}
use turborg.Irc.RateLimit.{Throttle, allow_with_reason, bucket_of, oldest}

-- The events of `key` that a sequence of calls (key and clock reading) is granted, in order.
unfoldable pub granted : Str → Throttle → List (Str × Time) → List Time
granted key t [] = []
granted key t ((k, now) ∷ cs) =
    let (t', result) = allow_with_reason k now t in
    let rest = granted key t' cs in if k == key && result.allow then now ∷ rest else rest

abbrev pub Clocked : Time → List (Str × Time) → Type 0
Clocked t [] = Unit
Clocked t ((_, now) ∷ cs) = (t ≤ now) × Clocked now cs

bucket_of-allow :
    (k key : Str) (now : Time) (t : Throttle)
    → bucket_of key (allow_with_reason k now t).0.events ≡ (
        if k == key
        then (if (allow_with_reason k now t).1.allow
            then keep (in_window t.window now) (bucket_of k t.events) ++ now ∷ []
            else keep (in_window t.window now) (bucket_of k t.events))
        else bucket_of key t.events)
unfolding allow_with_reason
bucket_of-allow k key now t =
    let pruned = keep (in_window t.window now) (bucket_of k t.events) in
    ground (
      arith,
      lookup-insert k key pruned t.events,
      lookup-insert k key (pruned ++ now ∷ []) t.events,
    )

-- An event is granted exactly when fewer than `MaxPerWindow` of the key's events are in the
-- window; a refusal says how long the oldest of them still is.
pub allow_iff :
    (key : Str) (now : Time) (t : Throttle)
    → let pruned = keep (in_window t.window now) (bucket_of key t.events) in
      (allow_with_reason key now t).1 ≡ (
        if ltb (length pruned) t.max_per_window
        then record { allow = true; retry_after = 0 }
        else record { allow = false; retry_after = oldest pruned + t.window - now })
unfolding allow_with_reason
allow_iff key now t = ground arith

-- The instant lies in the window that begins at `x`.
abbrev pub span : Time → ℕ → Time → Bool
span x window t = leb x t && leb t (x + window)

-- `log` is what the key was granted so far, the last call was at `last`.
record Kept (key : Str) (x : Time) (window max : ℕ) (log : List Time) (last : Time) (t : Throttle)
    : Type 0 where
  same_window : t.window ≡ window
  same_max : t.max_per_window ≡ max
  recent :
      (now : Time)
      → last ≤ now
      → keep (in_window window now) (bucket_of key t.events) ≡ keep (in_window window now) log
  bounded : length (keep (span x window) log) ≤ max

module _ (key : Str) (x : Time) (window max : ℕ) where
  other-Kept :
      (k : Str) (log : List Time) (last now : Time) (t : Throttle)
      → Kept key x window max log last t
      → last ≤ now
      → (k == key) ≡ false
      → Kept key x window max log now (allow_with_reason k now t).0
  other-Kept k log last now t h le ne = record {
    same_window = unfold allow_with_reason in ground (arith, h.same_window);
    same_max = unfold allow_with_reason in ground (arith, h.same_max);
    recent = λ u le'. rw (bucket_of-allow k key now t, ne) (h.recent u (omega arith));
    bounded = h.bounded;
  }

  refused-Kept :
      (log : List Time) (last now : Time) (t : Throttle)
      → Kept key x window max log last t
      → last ≤ now
      → (allow_with_reason key now t).1.allow ≡ false
      → Kept key x window max log now (allow_with_reason key now t).0
  refused-Kept log last now t h le no' = record {
    same_window = unfold allow_with_reason in ground (arith, h.same_window);
    same_max = unfold allow_with_reason in ground (arith, h.same_max);
    recent = λ u le'.
        rw (bucket_of-allow key key now t, beq_refl key, no', h.same_window)
          (keep-in_window_twice window now u _ le' ∙ h.recent u (omega arith));
    bounded = h.bounded;
  }

  room :
      (log : List Time) (last now : Time) (t : Throttle)
      → Kept key x window max log last t
      → last ≤ now
      → (allow_with_reason key now t).1.allow ≡ true
      → length (keep (in_window window now) log) < max
  room log last now t h le granted =
      ground (arith, allow_iff key now t, h.recent now le, h.same_window, h.same_max)

  -- What lies in the span that `now` lies in too is in the window before `now`.
  spans_in_window :
      (log : List Time) (now : Time)
      → now ≤ x + window
      → length (keep (span x window) log) ≤ length (keep (in_window window now) log)
  spans_in_window log now le =
      length-keep_mono (span x window) (in_window window now) (λ t s. ground arith) log

  span_room :
      (log : List Time) (now : Time)
      → length (keep (in_window window now) log) < max
      → length (keep (span x window) log) ≤ max
      → length (keep (span x window) (log ++ now ∷ [])) ≤ max
  span_room log now r b = ground (
    arith,
    keep-append (span x window) log (now ∷ []),
    length-append (keep (span x window) log) (now ∷ []),
    append-nil (keep (span x window) log),
    spans_in_window log now,
  )

  pruned_again :
      (log b : List Time) (u now : Time)
      → keep (in_window window now) b ≡ keep (in_window window now) log
      → now ≤ u
      → keep (in_window window u) (keep (in_window window now) b ++ now ∷ [])
        ≡ keep (in_window window u) (log ++ now ∷ [])
  pruned_again log b u now e le = cc (
    e,
    keep-append (in_window window u) (keep (in_window window now) log) (now ∷ []),
    keep-append (in_window window u) log (now ∷ []),
    keep-in_window_twice window now u log le,
  )

  granted-Kept :
      (log : List Time) (last now : Time) (t : Throttle)
      → Kept key x window max log last t
      → last ≤ now
      → (allow_with_reason key now t).1.allow ≡ true
      → Kept key x window max (log ++ now ∷ []) now (allow_with_reason key now t).0
  granted-Kept log last now t h le ok' = record {
    same_window = unfold allow_with_reason in ground (arith, h.same_window);
    same_max = unfold allow_with_reason in ground (arith, h.same_max);
    recent = λ u le'.
        rw (bucket_of-allow key key now t, beq_refl key, ok', h.same_window)
          (pruned_again log (bucket_of key t.events) u now (h.recent now le) le');
    bounded = span_room log now (room log last now t h le ok') h.bounded;
  }

  -- One granted or refused call of the key itself, given the bound for the calls that follow.
  own_call :
      (cs : List (Str × Time)) (log : List Time) (last now : Time) (t : Throttle)
      → Kept key x window max log last t
      → last ≤ now
      → let t' = (allow_with_reason key now t).0 in
        ((log' : List Time)
          → Kept key x window max log' now t'
          → length (keep (span x window) (log' ++ granted key t' cs)) ≤ max)
        → length (keep (span x window) (log ++ granted key t ((key, now) ∷ cs))) ≤ max
  unfolding granted
  own_call cs log last now t h le next =
      let t' = (allow_with_reason key now t).0 in
      elim (Bool-cases (allow_with_reason key now t).1.allow) [
        | inl yes' ↦
            rw (beq_refl key, yes', ← append_assoc log (now ∷ []) (granted key t' cs))
              (next (log ++ now ∷ []) (granted-Kept log last now t h le yes'))
        | inr no' ↦ rw (beq_refl key, no') (next log (refused-Kept log last now t h le no'))
      ]

  granted-bounded :
      (cs : List (Str × Time)) (log : List Time) (last : Time) (t : Throttle)
      → Kept key x window max log last t
      → Clocked last cs
      → length (keep (span x window) (log ++ granted key t cs)) ≤ max
  unfolding granted
  granted-bounded [] log last t h c = rw append-nil h.bounded
  granted-bounded ((k, now) ∷ cs) log last t h c = elim (Bool-cases (k == key)) [
    | inl same ↦
        subst
          (λ (j : Str). length (keep (span x window) (log ++ granted key t ((j, now) ∷ cs))) ≤ max)
          (sym ((str_beq_iff k key).0 same))
          (own_call cs log last now t h c.0
            (λ log' h'. granted-bounded cs log' now (allow_with_reason key now t).0 h' c.1))
    | inr other ↦ rw other (
        granted-bounded cs log now (allow_with_reason k now t).0
          (other-Kept k log last now t h c.0 other) c.1)
  ]

-- Over any calls on a clock that does not go back, whatever keys they are for, at most
-- `MaxPerWindow` events of a key are granted in any span as long as the window.
pub throttle_quota :
    (key : Str) (start x : Time) (t : Throttle) (cs : List (Str × Time))
    → bucket_of key t.events ≡ []
    → Clocked start cs
    → length (keep (span x t.window) (granted key t cs)) ≤ t.max_per_window
throttle_quota key start x t cs e c =
    granted-bounded key x t.window t.max_per_window cs [] start t
      (record {
        same_window = refl;
        same_max = refl;
        recent = λ now le. rw e;
        bounded = omega arith;
      })
      c

-- The same for a bucket that is pruned once more, at `now + e`.
later_allow :
    (key : Str) (now e d max window : ℕ) (p : List Time)
    → Nondecreasing 0 p
    → All (λ t. in_window window now t ≡ true) p
    → 1 ≤ max
    → length p ≡ max
    → d ≡ oldest p + window - now
    → ltb (length (keep (in_window window (now + e)) p)) max ≡ ltb d e
later_allow key now e d max window [] n w pos' len eq = absurd (omega arith)
later_allow key now e d max window (o ∷ us) n w pos' len eq =
    let fresh : now ≤ o + window = ground (arith, w.0) in
    let leaves = oldest_leaves window (now + e) o us n.1 in
    let gone : ltb (o + window) (now + e) ≡ ltb d e = ground arith in rw (← len) (leaves ∙ gone)

-- `RetryAfter` is one tick short: a caller that was refused with `d`, and comes back `e` later with
-- no call in between, is granted exactly when `e` is more than `d`. The bucket is in order and no
-- longer than the limit.
pub retry_after_exact :
    (key : Str) (now e d : ℕ) (t : Throttle)
    → 1 ≤ t.max_per_window
    → Nondecreasing 0 (bucket_of key t.events)
    → length (bucket_of key t.events) ≤ t.max_per_window
    → (allow_with_reason key now t).1 ≡ record { allow = false; retry_after = d }
    → (allow_with_reason key (now + e) (allow_with_reason key now t).0).1.allow ≡ ltb d e
retry_after_exact key now e d t one n short h =
    let p = keep (in_window t.window now) (bucket_of key t.events) in
    let t' = (allow_with_reason key now t).0 in
    let same_window : t'.window ≡ t.window = unfold allow_with_reason in ground arith in
    let same_max : t'.max_per_window ≡ t.max_per_window =
      unfold allow_with_reason in ground arith in
    let bucket : bucket_of key t'.events ≡ p =
      ground (arith, bucket_of-allow key key now t, beq_refl key) in
    let full : length p ≡ t.max_per_window =
      ground (
        arith,
        allow_iff key now t,
        length-keep (in_window t.window now) (bucket_of key t.events),
      ) in
    let wait : d ≡ oldest p + t.window - now = ground (arith, allow_iff key now t) in
    let again =
      later_allow key now e d t.max_per_window t.window p
        (Nondecreasing-keep (in_window t.window now) 0 (bucket_of key t.events) n)
        (All-keep_self (in_window t.window now) (bucket_of key t.events)) one full wait in
    ground (arith, allow_iff key (now + e) t', same_window, same_max, bucket, again)
