-- ===== src/Base/Text.antt =====
-- Package `strings`, over the bytes of a string. Letters outside ASCII are left as they are by
-- `to_lower` and `to_upper`; white space is that of Unicode, in UTF-8.
pub mod Split
pub mod Words
pub mod Numbers
pub mod Trim
use Prim.Native.Nat.{ℕ, zero, suc, ◌/◌, ◌%◌, ◌+◌, ◌-◌}
use Prim.Native.Char.{code}
use Prim.Native.String.{String}
use mathlib.Core.Bool.{Bool, true, false, ◌&&◌}
use mathlib.Core.List.{[], ◌∷◌, map, reverse}
use turborg.Base.Tests.{if◌then◌else◌, leb, ltb}
use turborg.Base.Equality.{Str, ◌==◌, str_eq}

-- The bytes of a literal.
abbrev pub codes : String → Str
codes String.[] = []
codes (String.◌∷◌ c s) = code c ∷ codes s

abbrev pub is_empty : Str → Bool
is_empty [] = true
is_empty (_ ∷ _) = false

unfoldable pub lower_byte : ℕ → ℕ
lower_byte c = if leb b'A' c && leb c b'Z' then c + 32 else c

unfoldable pub upper_byte : ℕ → ℕ
upper_byte c = if leb b'a' c && leb c b'z' then c - 32 else c

-- strings.ToLower
unfoldable pub to_lower : Str → Str
unfolding lower_byte
to_lower s = map lower_byte s

-- strings.ToUpper
unfoldable pub to_upper : Str → Str
unfolding upper_byte
to_upper s = map upper_byte s

-- strings.EqualFold
unfoldable pub equal_fold : Str → Str → Bool
unfolding to_lower
equal_fold s t = to_lower s == to_lower t

-- Decimal digits, the last one first; `fuel` bounds their number.
unfoldable pub digits_back : ℕ → ℕ → Str
digits_back zero n = []
digits_back (suc fuel) n =
    let rest = digits_back fuel (n / 10) in (b'0' + n % 10) ∷ (if ltb n 10 then [] else rest)

-- strconv.Itoa and the verb %d, of a number that is not negative.
unfoldable pub decimal : ℕ → Str
unfolding digits_back
decimal n = reverse (digits_back (suc n) n)
