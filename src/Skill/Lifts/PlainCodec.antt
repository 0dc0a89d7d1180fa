-- ===== src/Skill/Lifts/PlainCodec.antt =====
-- An encoding of lifts that is read back, to try the persistence of lifts with.
use turborg.Base.{
  ap, refl, true, ◌≡◌, List, Option, Str, [], none, some, zero, ◌++◌, ◌∷◌, length, suc, ℕ, str_eq,
}
use turborg.Base.Int.{ℤ, negsuc, pos}
use turborg.Skill.Lifts.{Codec, PendingLift}

-- A text with its length in front.
abbrev write_str : Str → Str → Str
write_str s rest = length s ∷ s ++ rest

abbrev split_at : ℕ → Str → Str × Str
split_at zero s = ([], s)
split_at (suc n) [] = ([], [])
split_at (suc n) (c ∷ s) = let (a, b) = split_at n s in (c ∷ a, b)

abbrev read_str : Str → Str × Str
read_str [] = ([], [])
read_str (n ∷ s) = split_at n s

abbrev write_int : ℤ → Str → Str
write_int (pos n) rest = 0 ∷ n ∷ rest
write_int (negsuc n) rest = 1 ∷ n ∷ rest

abbrev read_int : Str → ℤ × Str
read_int (zero ∷ n ∷ rest) = (pos n, rest)
read_int (suc _ ∷ n ∷ rest) = (negsuc n, rest)
read_int _ = (pos 0, [])

abbrev write_all : List PendingLift → Str
write_all [] = []
write_all (l ∷ ls) =
    write_str l.channel (write_str l.modes (write_str l.arg (write_int l.due (write_all ls))))

abbrev read_all : ℕ → Str → List PendingLift
read_all zero s = []
read_all (suc n) s =
    let (channel, s1) = read_str s in
    let (modes, s2) = read_str s1 in
    let (arg, s3) = read_str s2 in
    let (due, s4) = read_int s3 in
    record { channel = channel; modes = modes; arg = arg; due = due } ∷ read_all n s4

split_at-length : (s rest : Str) → split_at (length s) (s ++ rest) ≡ (s, rest)
split_at-length [] rest = refl
split_at-length (c ∷ s) rest = rw (split_at-length s rest) refl

read_int-write : (i : ℤ) (rest : Str) → read_int (write_int i rest) ≡ (i, rest)
read_int-write (pos n) rest = refl
read_int-write (negsuc n) rest = refl

pub read_all-write : (ls : List PendingLift) → read_all (length ls) (write_all ls) ≡ ls
read_all-write [] = refl
read_all-write (l ∷ ls) =
    rw
      (
        split_at-length l.channel _,
        split_at-length l.modes _,
        split_at-length l.arg _,
        read_int-write l.due (write_all ls),
        read_all-write ls,
      )
      refl

abbrev decode_count : Str → Option (List PendingLift)
decode_count [] = none
decode_count (n ∷ s) = some (read_all n s)

abbrev pub plain_codec : Codec
plain_codec = record {
  encode = λ ls. length ls ∷ write_all ls;
  decode = decode_count;
  is_utf8 = λ s. true;
  decode-encode = λ ls valid. ap some (read_all-write ls);
  encode_full = λ ls. refl;
}
