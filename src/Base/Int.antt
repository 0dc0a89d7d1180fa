-- ===== src/Base/Int.antt =====
-- Go's signed integers, where the code gives a meaning to values that are not positive.
-- No value that the code computes with nears the width of `int`, so the type is unbounded.
use Prim.Native.Nat.{ℕ, zero}
use mathlib.Core.Logic.{◌⊎◌, inl, inr}
use mathlib.Core.Path.{◌≡◌, refl}
use mathlib.Core.Bool.{Bool, true, false}
use turborg.Base.Tests.{ltb, leb}

-- `negsuc n` is -(n + 1).
pub data ℤ : Type 0 where
  pos : ℕ → ℤ
  negsuc : ℕ → ℤ

-- n < k and n <= k at a natural number k.
abbrev pub lt_pos : ℤ → ℕ → Bool
lt_pos (pos n) k = ltb n k
lt_pos (negsuc n) k = true

abbrev pub le_pos : ℤ → ℕ → Bool
le_pos (pos n) k = leb n k
le_pos (negsuc n) k = true

-- max(0, n)
abbrev pub clamp : ℤ → ℕ
clamp (pos n) = n
clamp (negsuc n) = 0

abbrev pub is_minus_one : ℤ → Bool
is_minus_one (negsuc zero) = true
is_minus_one _ = false

pub Int-cases : (i : ℤ) → ((n : ℕ) × (i ≡ pos n)) ⊎ ((n : ℕ) × (i ≡ negsuc n))
Int-cases (pos n) = inl (n, refl)
Int-cases (negsuc n) = inr (n, refl)
