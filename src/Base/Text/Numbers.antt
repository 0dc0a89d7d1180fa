-- ===== src/Base/Text/Numbers.antt =====
-- Package `strconv`: Atoi, on the bytes of a string. An `int` has 64 bits.
use Prim.Native.Nat.{ℕ, zero, suc, ◌+◌, ◌-◌, ◌*◌, ◌^◌}
use mathlib.Core.Bool.{true, false, ◌&&◌}
use mathlib.Core.Option.{Option, none, some}
use mathlib.Core.List.{[], ◌∷◌}
use turborg.Base.Tests.{if◌then◌else◌, leb, ltb}
use turborg.Base.Equality.{Str, ◌==◌, nat_eq}
use turborg.Base.Int.{ℤ, pos, negsuc}

-- 1 << 63
abbrev pub int_end : ℕ
int_end = 2 ^ 63

-- The value of decimal digits, behind the digits whose value is `n`.
unfoldable pub digits_value : ℕ → Str → Option ℕ
digits_value n [] = some n
digits_value n (c ∷ s) = elim (leb b'0' c && leb c b'9') [
  | true ↦ digits_value (n * 10 + (c - b'0')) s
  | false ↦ none
]

-- At least one digit.
unfoldable pub natural : Str → Option ℕ
unfolding digits_value
natural [] = none
natural (c ∷ s) = digits_value 0 (c ∷ s)

abbrev pub positive : ℕ → Option ℤ
positive n = if ltb n int_end then some (pos n) else none

abbrev pub negative : ℕ → Option ℤ
negative zero = some (pos 0)
negative (suc n) = if ltb n int_end then some (negsuc n) else none

abbrev pub bound_by : (ℕ → Option ℤ) → Option ℕ → Option ℤ
bound_by f none = none
bound_by f (some n) = f n

-- strconv.Atoi; `none` stands for its error.
unfoldable pub atoi : Str → Option ℤ
unfolding natural digits_value
atoi [] = none
atoi (c ∷ s) =
    if c == b'-'
    then bound_by negative (natural s)
    else if c == b'+'
    then bound_by positive (natural s)
    else bound_by positive (natural (c ∷ s))
