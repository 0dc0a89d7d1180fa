-- ===== src/Irc/ReconnectStorm/Rate.antt =====
-- When the breaker of reconnect_storm.go imposes its cooldown.
use mathlib.Core.List.{append-nil, append_assoc}
use turborg.Base.Time.{Nondecreasing, Time, after_cutoff}
use turborg.Base.Int.{le_pos, pos}
use turborg.Base.{
  List, [], arith, if◌then◌else◌, keep, length, length-append, ltb, max, refl, suc, true, ℕ, ◌++◌,
  ◌∷◌, ◌≡◌, ◌≤◌,
}
use turborg.Base.Window.{Remembers, Leaves, Remembers-push}
use turborg.Irc.ReconnectStorm.{ReconnectStorm, record_attempt, next_delay}

-- The breaker after reconnect attempts at these instants.
unfoldable pub attempt_all : ReconnectStorm → List Time → ReconnectStorm
attempt_all r [] = r
attempt_all r (t ∷ ts) = attempt_all (record_attempt t r).0 ts

-- The last of the instants, or `t`.
abbrev pub last_from : Time → List Time → Time
last_from t [] = t
last_from t (u ∷ us) = last_from u us

after_cutoff-Leaves : (window : ℕ) → Leaves (after_cutoff window)
after_cutoff-Leaves window t u le x h = ground arith

record Holds (window m cooldown : ℕ) (log : List Time) (last : Time) (r : ReconnectStorm)
    : Type 0 where
  same_window : r.window ≡ window
  same_max : r.max_attempts ≡ pos (suc m)
  same_cooldown : r.cooldown ≡ cooldown
  recent : Remembers (after_cutoff window) log last r.attempts

attempts-record :
    (window m cooldown now : ℕ) (log : List Time) (last : Time) (r : ReconnectStorm)
    → Holds window m cooldown log last r
    → (record_attempt now r).0.attempts ≡ keep (after_cutoff window now) r.attempts ++ now ∷ []
unfolding record_attempt
attempts-record window m cooldown now log last r h = ground (arith, h.same_max, h.same_window)

module _ (window m cooldown : ℕ) where
  attempt-Holds :
      (log : List Time) (last now : Time) (r : ReconnectStorm)
      → Holds window m cooldown log last r
      → last ≤ now
      → Holds window m cooldown (log ++ now ∷ []) now (record_attempt now r).0
  attempt-Holds log last now r h le = record {
    same_window = unfold record_attempt in ground (arith, h.same_window, h.same_max);
    same_max = unfold record_attempt in ground (arith, h.same_max);
    same_cooldown = unfold record_attempt in ground (arith, h.same_max, h.same_cooldown);
    recent = rw (attempts-record window m cooldown now log last r h) (
        Remembers-push (after_cutoff window) (after_cutoff-Leaves window) log last now r.attempts
          now h.recent le);
  }

  attempt_all-Holds :
      (ts log : List Time) (last : Time) (r : ReconnectStorm)
      → Holds window m cooldown log last r
      → Nondecreasing last ts
      → Holds window m cooldown (log ++ ts) (last_from last ts) (attempt_all r ts)
  unfolding attempt_all
  attempt_all-Holds [] log last r h n = rw append-nil h
  attempt_all-Holds (t ∷ ts) log last r h n = rw (← append_assoc log (t ∷ []) ts) (
      attempt_all-Holds ts (log ++ t ∷ []) t (record_attempt t r).0
        (attempt-Holds log last t r h n.0) n.1)

-- After earlier attempts at `ts` on a clock that does not go back, an attempt at `now` gets the
-- cooldown exactly when it and the earlier ones less than a window ago are more than
-- `maxAttempts`; else it gets the backoff delay.
pub storm_iff :
    (m start now backoff : ℕ) (ts : List Time) (r : ReconnectStorm)
    → r.max_attempts ≡ pos (suc m)
    → r.attempts ≡ []
    → Nondecreasing start ts
    → last_from start ts ≤ now
    → (next_delay now backoff (attempt_all r ts)).1
      ≡ (if ltb m (length (keep (after_cutoff r.window now) ts)) then r.cooldown else backoff)
storm_iff m start now backoff ts r max none' n le =
    let h =
      attempt_all-Holds r.window m r.cooldown ts [] start r
        (record {
          same_window = refl;
          same_max = max;
          same_cooldown = refl;
          recent = λ u le'. rw none';
        })
        n in
    let kept = keep (after_cutoff r.window now) (attempt_all r ts).attempts in
    unfold next_delay record_attempt in
    ground (
      arith,
      h.same_window,
      h.same_max,
      h.same_cooldown,
      h.recent now le,
      length-append kept (now ∷ []),
    )

-- With `maxAttempts` at zero or below the breaker never acts and remembers nothing.
pub storm_disabled :
    (now backoff : ℕ) (r : ReconnectStorm)
    → le_pos r.max_attempts 0 ≡ true
    → next_delay now backoff r ≡ (r, backoff)
unfolding next_delay record_attempt
storm_disabled now backoff r h = ground arith
