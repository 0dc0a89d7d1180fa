-- ===== src/Skill/Cron/Parsed.antt =====
-- What parsing a cron expression gives: the permitted values of each field, and an answer always.
use turborg.Base.Text.{codes}
use turborg.Base.{
  ap, sym, ◌∙◌, Bool-cases, inl, inr, refl, arith, ◌<◌, ◌≡◌, ◌≤◌, Bool, List, Option, Str, [],
  false, none, some, zero, ◌++◌, ◌+◌, ◌==◌, ◌||◌, ◌∷◌, ltb, suc, ℕ, str_eq, All,
}
use mathlib.Core.Path.{subst}
use turborg.Base.{nat_eq}
use turborg.Base.Int.{ℤ, negsuc, pos}
use turborg.Base.Result.{Result, err, ok, ◌>>=◌, bind_ok}
use turborg.Base.Text.Split.{split, cut}
use turborg.Base.Text.Numbers.{bound_by, natural, negative, positive, int_end, atoi}
use turborg.Skill.Cron.{
  slashed, write_values, not_empty, parse_field, add_steps, parse_parts, rounds, check_range,
  read_part, read_range, read_step, step_of, has, FieldSet, FieldError, Steps,
}
use turborg.Skill.Cron.Values.{fill_exact, is_step}

positive-bound : (o : Option ℕ) (n : ℕ) → bound_by positive o ≡ some (pos n) → n < int_end
positive-bound none n h = absurd (ground arith)
positive-bound (some m) n h = ground arith

negative-bound : (o : Option ℕ) (n : ℕ) → bound_by negative o ≡ some (pos n) → n < int_end
negative-bound none n h = absurd (ground arith)
negative-bound (some zero) n h = ground arith
negative-bound (some (suc m)) n h = absurd (ground arith)

atoi-bound : (s : Str) (n : ℕ) → atoi s ≡ some (pos n) → n < int_end
unfolding atoi
atoi-bound [] n h = absurd (ground arith)
atoi-bound (c ∷ s) n h = elim (Bool-cases (c == b'-')) [
  | inl e ↦ negative-bound (natural s) n (rw e at h)
  | inr e ↦ elim (Bool-cases (c == b'+')) [
    | inl g ↦ positive-bound (natural s) n (rw (e, g) at h)
    | inr g ↦ positive-bound (natural (c ∷ s)) n (rw (e, g) at h)
  ]
]

step_of-range :
    (part rng : Str) (o : Option ℤ) (r : Str × ℕ)
    → ((n : ℕ) → o ≡ some (pos n) → n < int_end)
    → step_of part rng o ≡ ok r
    → (1 ≤ r.1) × (r.1 < int_end)
step_of-range part rng none r f h = absurd (ground arith)
step_of-range part rng (some (negsuc n)) r f h = absurd (ground arith)
step_of-range part rng (some (pos zero)) r f h = absurd (ground arith)
step_of-range part rng (some (pos (suc n))) r f h = ground (arith, f (suc n) refl)

slashed-range :
    (part : Str) (o : Option (Str × Str)) (r : Str × ℕ)
    → slashed part o ≡ ok r
    → (1 ≤ r.1) × (r.1 < int_end)
unfolding slashed
slashed-range part none r h = ground arith
slashed-range part (some (rng, s)) r h = step_of-range part rng (atoi s) r (atoi-bound s) h

read_step-range : (part : Str) (r : Str × ℕ) → read_step part ≡ ok r → (1 ≤ r.1) × (r.1 < int_end)
unfolding read_step
read_step-range part r h = slashed-range part (cut (codes "/") part) r h

-- A part that is read lies in its range.
abbrev pub Fits : ℕ → ℕ → Steps → Type 0
Fits lo hi s = (lo ≤ s.start) × (s.start ≤ s.end) × (s.end ≤ hi) × (1 ≤ s.step) × (s.step < int_end)

check_range-Fits :
    (lo hi : ℕ) (part : Str) (step : ℕ) (r : ℤ × ℤ) (s : Steps)
    → 1 ≤ step
    → step < int_end
    → check_range lo hi part step r ≡ ok s
    → Fits lo hi s × (s.step ≡ step)
unfolding check_range
check_range-Fits lo hi part step (pos a, pos b) s h k e =
    elim (Bool-cases (ltb a lo || ltb hi b || ltb b a)) [
      | inl g ↦ absurd (ground arith)
      | inr g ↦ ground arith
    ]
check_range-Fits lo hi part step (negsuc a, b) s h k e = absurd (ground arith)
check_range-Fits lo hi part step (pos a, negsuc b) s h k e = absurd (ground arith)

pub read_part-Fits :
    (lo hi : ℕ) (part : Str) (s : Steps) → read_part lo hi part ≡ ok s → Fits lo hi s
unfolding read_part
read_part-Fits lo hi part s h =
    let ((rng, step), first, rest) = bind_ok (read_step part) _ s h in
    let (r, ranged, checked) =
      bind_ok (read_range lo hi part rng) (check_range lo hi part step) s rest in
    let (low, high) = read_step-range part (rng, step) first in
    (check_range-Fits lo hi part step r s low high checked).0

-- The reference: the values that some part of a field permits.
unfoldable pub permits : ℕ → ℕ → Str → ℤ → Bool
unfolding read_part is_step
permits lo hi part v = elim (read_part lo hi part) [ ok s ↦ is_step s v | err e ↦ false ]

unfoldable pub any_permits : ℕ → ℕ → List Str → ℤ → Bool
unfolding permits
any_permits lo hi [] v = false
any_permits lo hi (part ∷ parts) v = permits lo hi part v || any_permits lo hi parts v

permits-ok :
    (lo hi : ℕ) (part : Str) (s : Steps) (v : ℤ)
    → read_part lo hi part ≡ ok s
    → permits lo hi part v ≡ is_step s v
unfolding permits
permits-ok lo hi part s v h =
    let p : Result FieldError Steps → Bool = λ r. elim r [ ok s ↦ is_step s v | err e ↦ false ] in
    ap p h

-- The step of a part stays below the width of an `int` where it is added.
abbrev pub StaysBelow : ℕ → Result FieldError (Str × ℕ) → Type 0
StaysBelow hi (ok (rng, step)) = hi + step < int_end
StaysBelow hi (err e) = Unit

has-append : (xs ys : FieldSet) (v : ℤ) → has (xs ++ ys) v ≡ (has xs v || has ys v)
unfolding has
has-append [] ys v = refl
has-append (x ∷ xs) ys v = ground (arith, has-append xs ys v)

read_part-StaysBelow :
    (lo hi : ℕ) (part : Str) (s : Steps)
    → StaysBelow hi (read_step part)
    → read_part lo hi part ≡ ok s
    → s.end + s.step < int_end
unfolding read_part
read_part-StaysBelow lo hi part s small h =
    let ((rng, step), first, rest) = bind_ok (read_step part) _ s h in
    let (r, ranged, checked) =
      bind_ok (read_range lo hi part rng) (check_range lo hi part step) s rest in
    let (low, high) = read_step-range part (rng, step) first in
    let (fits, same) = check_range-Fits lo hi part step r s low high checked in
    let below : hi + step < int_end = subst (StaysBelow hi) first small in
    omega (arith, fits, same, below)

add_steps_exact :
    (lo hi : ℕ) (s : Steps) (acc out : FieldSet) (v : ℤ)
    → hi < 60
    → Fits lo hi s
    → s.end + s.step < int_end
    → add_steps acc s ≡ ok out
    → has out v ≡ (has acc v || is_step s v)
unfolding add_steps
add_steps_exact lo hi s acc out v width fits small h =
    let (vs, run, exact) =
      fill_exact rounds s.start s.end s.step fits.3 (omega arith) (omega (arith, fits)) small in
    let written : Result.ok (acc ++ vs) ≡ ok out = sym (ap (write_values acc) run) ∙ h in
    let same : acc ++ vs ≡ out = ground arith in
    ap (λ o. has o v) (sym same) ∙ has-append acc vs v ∙ ap (λ b. has acc v || b) (exact v)

parse_parts_exact :
    (lo hi : ℕ) (parts : List Str) (acc out : FieldSet) (v : ℤ)
    → hi < 60
    → All (λ part. StaysBelow hi (read_step part)) parts
    → parse_parts lo hi parts acc ≡ ok out
    → has out v ≡ (has acc v || any_permits lo hi parts v)
unfolding parse_parts any_permits
parse_parts_exact lo hi [] acc out v width small h =
    let same : acc ≡ out = ground arith in ap (λ o. has o v) (sym same) ∙ ground arith
parse_parts_exact lo hi (part ∷ parts) acc out v width (first, small) h =
    let (next, grown, rest) = bind_ok (read_part lo hi part >>= add_steps acc) _ out h in
    let (s, read, added) = bind_ok (read_part lo hi part) (add_steps acc) next grown in
    let fits = read_part-Fits lo hi part s read in
    let below = read_part-StaysBelow lo hi part s first read in
    let here = add_steps_exact lo hi s acc next v width fits below added in
    let later = parse_parts_exact lo hi parts next out v width small rest in
    ground (arith, permits-ok lo hi part s v read, here, later)

not_empty-ok : (vs out : FieldSet) → not_empty vs ≡ ok out → vs ≡ out
not_empty-ok [] out h = absurd (ground arith)
not_empty-ok (v ∷ vs) out h = ground arith

-- A field that is parsed holds exactly the values that one of its parts permits, where no step
-- takes a value out of the 64 bits.
pub parse_field_exact :
    (lo hi : ℕ) (field : Str) (out : FieldSet) (v : ℤ)
    → hi < 60
    → All (λ part. StaysBelow hi (read_step part)) (split b',' field)
    → parse_field lo hi field ≡ ok out
    → has out v ≡ any_permits lo hi (split b',' field) v
unfolding parse_field has
parse_field_exact lo hi field out v width small h =
    let (all, parsed, same) = bind_ok (parse_parts lo hi (split b',' field) []) not_empty out h in
    let exact = parse_parts_exact lo hi (split b',' field) [] all v width small parsed in
    ap (λ o. has o v) (sym (not_empty-ok all out same)) ∙ exact
