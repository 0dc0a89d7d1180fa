-- ===== src/Base/Time.antt =====
-- Package `time`: an instant and a duration are counts of nanoseconds. A cutoff `now - window` that
-- lies before the origin is compared with the window on the other side.
use Prim.Native.Nat.{suc, ℕ, ◌+◌, ◌≤◌}
use mathlib.Core.Path.{refl, ◌≡◌}
use mathlib.Core.Bool.{Bool, not}
use mathlib.Core.List.{List, [], ◌∷◌}
use native.Mathlib.Omega.{arith}
use turborg.Base.Tests.{ltb}
use turborg.Base.Lists.{length, length-keep, keep, keep-keep}

abbrev pub Time : Type 0
Time = ℕ

-- t.Before(now.Add(-window))
abbrev pub before_cutoff : ℕ → Time → Time → Bool
before_cutoff window now t = ltb (t + window) now

-- t.After(now.Add(-window))
abbrev pub after_cutoff : ℕ → Time → Time → Bool
after_cutoff window now t = ltb now (t + window)

-- !t.Before(now.Add(-window))
abbrev pub in_window : ℕ → Time → Time → Bool
in_window window now t = not (before_cutoff window now t)

-- Clock readings that never go back, from `t` on.
abbrev pub Nondecreasing : Time → List Time → Type 0
Nondecreasing t [] = Unit
Nondecreasing t (u ∷ us) = (t ≤ u) × Nondecreasing u us

-- Pruning at one instant and again at a later one is pruning at the later one.
pub keep-in_window_twice :
    (window t u : ℕ) (xs : List Time)
    → t ≤ u
    → keep (in_window window u) (keep (in_window window t) xs) ≡ keep (in_window window u) xs
keep-in_window_twice window t u xs h =
    keep-keep (in_window window t) (in_window window u) (λ x q. ground arith) xs

pub keep-after_cutoff_twice :
    (window t u : ℕ) (xs : List Time)
    → t ≤ u
    → keep (after_cutoff window u) (keep (after_cutoff window t) xs)
      ≡ keep (after_cutoff window u) xs
keep-after_cutoff_twice window t u xs h =
    keep-keep (after_cutoff window t) (after_cutoff window u) (λ x q. ground arith) xs

pub Nondecreasing-weaken :
    (s t : Time) (us : List Time) → s ≤ t → Nondecreasing t us → Nondecreasing s us
Nondecreasing-weaken s t [] h n = tt
Nondecreasing-weaken s t (u ∷ us) h n = (omega arith, n.1)

pub Nondecreasing-keep :
    (p : Time → Bool) (t : Time) (us : List Time) → Nondecreasing t us → Nondecreasing t (keep p us)
Nondecreasing-keep p t [] n = tt
Nondecreasing-keep p t (u ∷ us) n =
    ground (arith, Nondecreasing-keep p u us n.1, Nondecreasing-weaken t u (keep p us))

keep-in_window_all :
    (window now o : ℕ) (us : List Time)
    → Nondecreasing o us
    → now ≤ o + window
    → keep (in_window window now) us ≡ us
keep-in_window_all window now o [] n le = refl
keep-in_window_all window now o (u ∷ us) n le =
    ground (arith, keep-in_window_all window now u us n.1)

-- The first of ordered instants leaves the window exactly when the instant that is `window` after
-- it has passed; until then all of them are in it.
pub oldest_leaves :
    (window now o : ℕ) (us : List Time)
    → Nondecreasing o us
    → ltb (length (keep (in_window window now) (o ∷ us))) (suc (length us)) ≡ ltb (o + window) now
oldest_leaves window now o us n =
    ground (arith, length-keep (in_window window now) us, keep-in_window_all window now o us n)
