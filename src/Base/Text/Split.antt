-- ===== src/Base/Text/Split.antt =====
-- Package `strings`: prefixes, trimming, cutting, splitting and joining, over bytes.
use Prim.Native.Nat.{ℕ, zero, suc, ◌-◌}
use mathlib.Core.Bool.{Bool, true, false, ◌&&◌, ◌||◌}
use mathlib.Core.Option
use mathlib.Core.Option.{Option, none, some}
use mathlib.Core.List.{List, [], ◌∷◌, ◌++◌, reverse, map}
use turborg.Base.Tests.{if◌then◌else◌, leb, nat_beq, is_some}
use turborg.Base.Equality.{Str}
use turborg.Base.Lists.{length}

-- The UTF-8 encodings of the characters that unicode.IsSpace accepts.
abbrev pub white_space : List Str
white_space =
    (32 ∷ [])
    ∷ (9 ∷ [])
    ∷ (10 ∷ [])
    ∷ (11 ∷ [])
    ∷ (12 ∷ [])
    ∷ (13 ∷ [])
    ∷ (194 ∷ 133 ∷ [])
    ∷ (194 ∷ 160 ∷ [])
    ∷ (225 ∷ 154 ∷ 128 ∷ [])
    ∷ (226 ∷ 128 ∷ 128 ∷ [])
    ∷ (226 ∷ 128 ∷ 129 ∷ [])
    ∷ (226 ∷ 128 ∷ 130 ∷ [])
    ∷ (226 ∷ 128 ∷ 131 ∷ [])
    ∷ (226 ∷ 128 ∷ 132 ∷ [])
    ∷ (226 ∷ 128 ∷ 133 ∷ [])
    ∷ (226 ∷ 128 ∷ 134 ∷ [])
    ∷ (226 ∷ 128 ∷ 135 ∷ [])
    ∷ (226 ∷ 128 ∷ 136 ∷ [])
    ∷ (226 ∷ 128 ∷ 137 ∷ [])
    ∷ (226 ∷ 128 ∷ 138 ∷ [])
    ∷ (226 ∷ 128 ∷ 168 ∷ [])
    ∷ (226 ∷ 128 ∷ 169 ∷ [])
    ∷ (226 ∷ 128 ∷ 175 ∷ [])
    ∷ (226 ∷ 129 ∷ 159 ∷ [])
    ∷ (227 ∷ 128 ∷ 128 ∷ [])
    ∷ []

-- A byte that such an encoding begins with.
abbrev pub begins_space : ℕ → Bool
begins_space c = nat_beq c 32 || (leb 9 c && leb c 13) || nat_beq c 194 || (leb 225 c && leb c 227)

-- strings.TrimLeft(s, cutset)
unfoldable pub trim_left : (ℕ → Bool) → Str → Str
trim_left p [] = []
trim_left p (c ∷ s) = let rest = trim_left p s in if p c then rest else c ∷ s

-- strings.TrimRight(s, cutset)
unfoldable pub trim_right : (ℕ → Bool) → Str → Str
unfolding trim_left
trim_right p s = reverse (trim_left p (reverse s))

-- s[len(p):] if s begins with p.
unfoldable pub strip_prefix : Str → Str → Option Str
strip_prefix [] s = some s
strip_prefix (d ∷ p) [] = none
strip_prefix (d ∷ p) (c ∷ s) = let rest = strip_prefix p s in if nat_beq d c then rest else none

unfoldable pub has_prefix : Str → Str → Bool
unfolding strip_prefix
has_prefix p s = is_some (strip_prefix p s)

abbrev pub cons_fst : ℕ → Str × Str → Str × Str
cons_fst c (a, b) = (c ∷ a, b)

-- strings.Index(s, sep) with s[:i] and s[i+len(sep):], for a `sep` that is not empty.
unfoldable pub cut : Str → Str → Option (Str × Str)
unfolding strip_prefix
cut sep [] = none
cut sep (c ∷ s) =
    let rest = cut sep s in
    elim (strip_prefix sep (c ∷ s)) [
      | some after ↦ some ([], after)
      | none ↦ Option.map (cons_fst c) rest
    ]

-- strings.Contains(s, sep)
unfoldable pub contains_text : Str → Str → Bool
unfolding cut
contains_text sep s = is_some (cut sep s)

-- A piece that is done goes in front; an empty one is dropped.
abbrev pub flush : Str → List Str → List Str
flush [] pieces = pieces
flush (c ∷ s) pieces = (c ∷ s) ∷ pieces

-- The rest of the first encoding of the table that s begins with: how many bytes follow its first.
unfoldable pub encoded : List Str → Str → Option ℕ
unfolding has_prefix
encoded [] s = none
encoded (p ∷ ps) s = let rest = encoded ps s in if has_prefix p s then some (length p - 1) else rest

-- What is left of s less its first k bytes and less the characters of the table in front.
unfoldable pub trim_front : List Str → ℕ → Str → Str
unfolding encoded
trim_front table k [] = []
trim_front table (suc k) (c ∷ s) = trim_front table k s
trim_front table zero (c ∷ s) = elim (encoded table (c ∷ s)) [
  | none ↦ c ∷ s
  | some k ↦ trim_front table k s
]

-- strings.TrimSpace: the white space in front, then that at the end. No byte that begins an
-- encoding stands inside another, so bytes are compared as the characters are.
unfoldable pub trim_space : Str → Str
unfolding trim_front
trim_space s =
    reverse (trim_front (map reverse white_space) 0 (reverse (trim_front white_space 0 s)))

-- strings.Fields, with the bytes still to skip and the piece so far.
unfoldable pub fields_from : ℕ → Str → Str → List Str
unfolding encoded
fields_from k piece [] = flush piece []
fields_from (suc k) piece (c ∷ s) = fields_from k piece s
fields_from zero piece (c ∷ s) = elim (encoded white_space (c ∷ s)) [
  | some k ↦ flush piece (fields_from k [] s)
  | none ↦ fields_from 0 (piece ++ c ∷ []) s
]

-- strings.Fields
unfoldable pub fields : Str → List Str
unfolding fields_from
fields s = fields_from 0 [] s

-- strings.Split(s, sep) for a `sep` of one byte, with the piece so far.
unfoldable pub split_from : ℕ → Str → Str → List Str
split_from sep piece [] = piece ∷ []
split_from sep piece (c ∷ s) = elim (nat_beq c sep) [
  | true ↦ piece ∷ split_from sep [] s
  | false ↦ split_from sep (piece ++ c ∷ []) s
]

-- strings.Split
unfoldable pub split : ℕ → Str → List Str
unfolding split_from
split sep s = split_from sep [] s

-- strings.Join
unfoldable pub join : Str → List Str → Str
join sep [] = []
join sep (s ∷ []) = s
join sep (s ∷ t ∷ ts) = s ++ (sep ++ join sep (t ∷ ts))

-- strings.LastIndex(s, c) of a single byte c, with s[:i] and s[i+1:].
unfoldable pub last_cut : ℕ → Str → Option (Str × Str)
last_cut c [] = none
last_cut c (d ∷ s) =
    let rest = last_cut c s in
    elim rest [ none ↦ (if nat_beq d c then some ([], s) else none) | some p ↦ some (cons_fst d p) ]
