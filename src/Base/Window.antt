-- ===== src/Base/Window.antt =====
-- A list that is pruned at each use remembers, of all that was ever put in it, what is still in the
-- window. `test now x` says that `x` is still in the window at `now`.
use Prim.Native.Nat.{◌≤◌}
use mathlib.Core.Path.{◌≡◌, ◌∙◌}
use mathlib.Core.Bool.{Bool, true}
use mathlib.Core.List.{List, [], ◌∷◌, ◌++◌}
use native.Mathlib.Omega.{arith}
use turborg.Base.Lists.{keep, keep-keep, keep-append}
use turborg.Base.Time.{Time}

-- What left the window stays out.
abbrev pub Leaves {ℓ} : {A : Type ℓ} → (Time → A → Bool) → Type ℓ
Leaves {A} test = (t u : Time) → t ≤ u → (x : A) → test u x ≡ true → test t x ≡ true

module _ {ℓ} {A : Type ℓ} (test : Time → A → Bool) where
  -- From `last` on, `xs` has the elements of `log` that are in the window.
  abbrev pub Remembers : List A → Time → List A → Type ℓ
  Remembers log last xs = (now : Time) → last ≤ now → keep (test now) xs ≡ keep (test now) log

module _ {ℓ} {A : Type ℓ} (test : Time → A → Bool) (leaves : Leaves test) where
  pub Remembers-prune :
      (log : List A) (last now : Time) (xs : List A)
      → Remembers test log last xs
      → last ≤ now
      → Remembers test log now (keep (test now) xs)
  Remembers-prune log last now xs h le u le' =
      keep-keep (test now) (test u) (leaves now u le') xs ∙ h u (omega arith)

  pub Remembers-push :
      (log : List A) (last now : Time) (xs : List A) (a : A)
      → Remembers test log last xs
      → last ≤ now
      → Remembers test (log ++ a ∷ []) now (keep (test now) xs ++ a ∷ [])
  Remembers-push log last now xs a h le u le' = cc (
    keep-append (test u) (keep (test now) xs) (a ∷ []),
    keep-append (test u) log (a ∷ []),
    Remembers-prune log last now xs h le u le',
  )
