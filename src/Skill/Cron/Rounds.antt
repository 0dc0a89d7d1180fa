-- ===== src/Skill/Cron/Rounds.antt =====
-- The loop over the steps of a part ends in its rounds, also where a step wraps around.
use turborg.Base.Text.{codes}
use turborg.Base.{
  ◌≢◌, Bool-cases, ap, arith, inl, inr, is_some, refl, ◌<◌, ◌≡◌, ◌≤◌, List, Option, Str, [], true,
  none, some, zero, ◌+◌, ◌-◌, ◌==◌, ◌^◌, ◌||◌, ◌∷◌, ltb, suc, ℕ, str_eq,
}
use mathlib.Core.Option
use turborg.Base.Int.{ℤ, negsuc, pos}
use turborg.Base.Result.{Result, err, ok, ◌>>=◌, bind_safe}
use turborg.Base.Text.Split.{split, cut, fields}
use turborg.Base.Text.Numbers.{positive, int_end, atoi}
use turborg.Skill.Cron.{
  dashed, slashed, CronError, both, check_range, naming, of_day_of_month, of_day_of_week, of_hour,
  of_minute, of_month, parse_words, read_range, read_step, single, step_of, write_values, FieldName,
  add_steps, bad_field, not_empty, parse_cron, parse_field, parse_parts, read_part, rounds, less,
  wrap_add, fill, FieldSet, FieldError, stuck, Steps,
}
use turborg.Skill.Cron.Values.{wrap_add-small, fill_exact}
use turborg.Skill.Cron.Parsed.{Fits, read_part-Fits}

is_some-map : {A B : Type 0} (f : A → B) (o : Option A) → is_some (Option.map f o) ≡ is_some o
is_some-map f none = refl
is_some-map f (some a) = refl

-- One round.
fill-suc :
    (fuel : ℕ) (v : ℤ) (end step : ℕ)
    → is_some (fill (suc fuel) v end step)
      ≡ (less (pos end) v || is_some (fill fuel (wrap_add v step) end step))
unfolding fill
fill-suc fuel v end step = elim (Bool-cases (less (pos end) v)) [
  | inl e ↦ rw e refl
  | inr e ↦ rw e (is_some-map (λ vs. v ∷ vs) (fill fuel (wrap_add v step) end step))
]

fill_past :
    (fuel : ℕ) (v : ℤ) (end step : ℕ)
    → 1 ≤ fuel
    → less (pos end) v ≡ true
    → is_some (fill fuel v end step) ≡ true
fill_past zero v end step f h = absurd (omega arith)
fill_past (suc fuel) v end step f h = ground (arith, fill-suc fuel v end step)

wrap_add-over :
    (v step : ℕ) → int_end ≤ v + step → wrap_add (pos v) step ≡ negsuc (2 ^ 64 - (v + step) - 1)
unfolding wrap_add
wrap_add-over v step h = ground arith

wrap_add-back : (n step : ℕ) → n < step → wrap_add (negsuc n) step ≡ pos (step - n - 1)
unfolding wrap_add
wrap_add-back n step h = ground arith

wrap_add-below : (n step : ℕ) → step ≤ n → wrap_add (negsuc n) step ≡ negsuc (n - step)
unfolding wrap_add
wrap_add-below n step h = ground arith

-- A round that does not end the loop.
go_on :
    (fuel : ℕ) (v w : ℤ) (end step : ℕ)
    → wrap_add v step ≡ w
    → is_some (fill fuel w end step) ≡ true
    → is_some (fill (suc fuel) v end step) ≡ true
go_on fuel v w end step e h =
    let run : is_some (fill fuel (wrap_add v step) end step) ≡ true = rw e h in
    ground (arith, fill-suc fuel v end step, run)

four_more :
    (left u end step : ℕ)
    → ((k : ℕ) → u ≤ k → is_some (fill (suc (suc (suc (suc k)))) (pos u) end step) ≡ true)
    → u + 2 ≤ left
    → is_some (fill (suc (suc left)) (pos u) end step) ≡ true
four_more zero u end step f h = absurd (omega arith)
four_more (suc zero) u end step f h = absurd (omega arith)
four_more (suc (suc left)) u end step f h = f left (omega arith)

-- A step that wraps around, of the widest ones: two rounds later the value is smaller by two at
-- least, or the loop ends in another two.
fill_wide :
    (bound fuel v end step : ℕ)
    → v < bound
    → v ≤ fuel
    → end < 60
    → step < int_end
    → int_end ≤ end + step
    → is_some (fill (suc (suc (suc (suc fuel)))) (pos v) end step) ≡ true
fill_wide zero fuel v end step b f e small wide = absurd (omega arith)
fill_wide (suc bound) fuel v end step b f e small wide =
    let n = 2 ^ 64 - (v + step) - 1 in
    elim (Bool-cases (ltb (v + step) int_end)) [
      | inl g ↦
          go_on (suc (suc (suc fuel))) (pos v) (pos (v + step)) end step
            (wrap_add-small v step (ground arith))
            (fill_past (suc (suc (suc fuel))) (pos (v + step)) end step (omega arith)
              (ground arith))
      | inr g ↦
          go_on (suc (suc (suc fuel))) (pos v) (negsuc n) end step
            (wrap_add-over v step (ground arith))
            (elim (Bool-cases (ltb n step)) [
              | inl k ↦
                  go_on (suc (suc fuel)) (negsuc n) (pos (step - n - 1)) end step
                    (wrap_add-back n step (ground arith))
                    (four_more fuel (step - n - 1) end step
                      (λ left le.
                        fill_wide bound left (step - n - 1) end step (ground arith) le e small wide)
                      (ground arith))
              | inr k ↦
                  go_on (suc (suc fuel)) (negsuc n) (negsuc (n - step)) end step
                    (wrap_add-below n step (ground arith))
                    (go_on (suc fuel) (negsuc (n - step)) (pos (step - (n - step) - 1)) end step
                      (wrap_add-back (n - step) step (ground arith))
                      (fill_past (suc fuel) (pos (step - (n - step) - 1)) end step (omega arith)
                        (ground arith)))
            ])
    ]

fill_ends :
    (start end step : ℕ)
    → start ≤ end
    → end < 60
    → 1 ≤ step
    → step < int_end
    → is_some (fill rounds (pos start) end step) ≡ true
fill_ends start end step le width positive small = elim (Bool-cases (ltb (end + step) int_end)) [
  | inl e ↦
      let (vs, run, exact) =
        fill_exact rounds start end step positive (omega arith) (omega arith) (ground arith) in
      ap is_some run
  | inr e ↦
      fill_wide (suc start) 60 start end step (omega arith) (omega arith) width small (ground arith)
]

write_values-safe :
    (acc : FieldSet) (o : Option FieldSet) → is_some o ≡ true → write_values acc o ≢ err stuck
write_values-safe acc none h = absurd (ground arith)
write_values-safe acc (some vs) h = λ e. ground arith

add_steps-safe :
    (lo hi : ℕ) (acc : FieldSet) (s : Steps) → hi < 60 → Fits lo hi s → add_steps acc s ≢ err stuck
unfolding add_steps
add_steps-safe lo hi acc s width (low, order, high, positive, small) =
    write_values-safe acc (fill rounds (pos s.start) s.end s.step)
      (fill_ends s.start s.end s.step order (omega arith) positive small)

step_of-safe : (part rng : Str) (o : Option ℤ) → step_of part rng o ≢ err stuck
step_of-safe part rng none = λ e. ground arith
step_of-safe part rng (some (negsuc n)) = λ e. ground arith
step_of-safe part rng (some (pos zero)) = λ e. ground arith
step_of-safe part rng (some (pos (suc n))) = λ e. ground arith

slashed-safe : (part : Str) (o : Option (Str × Str)) → slashed part o ≢ err stuck
unfolding slashed
slashed-safe part none = λ e. ground arith
slashed-safe part (some (rng, s)) = step_of-safe part rng (atoi s)

read_step-safe : (part : Str) → read_step part ≢ err stuck
unfolding read_step
read_step-safe part = slashed-safe part (cut (codes "/") part)

single-safe : (part : Str) (o : Option ℤ) → single part o ≢ err stuck
single-safe part none = λ e. ground arith
single-safe part (some v) = λ e. ground arith

both-safe : (part : Str) (o p : Option ℤ) → both part o p ≢ err stuck
both-safe part none p = λ e. ground arith
both-safe part (some a) none = λ e. ground arith
both-safe part (some a) (some b) = λ e. ground arith

dashed-safe : (part rng : Str) (o : Option (Str × Str)) → dashed part rng o ≢ err stuck
unfolding dashed
dashed-safe part rng none = single-safe part (atoi rng)
dashed-safe part rng (some (a, b)) = both-safe part (atoi a) (atoi b)

read_range-safe : (lo hi : ℕ) (part rng : Str) → read_range lo hi part rng ≢ err stuck
unfolding read_range
read_range-safe lo hi part rng = elim (Bool-cases (rng == codes "*")) [
  | inl e ↦ rw e (λ h. ground arith)
  | inr e ↦ rw e (dashed-safe part rng (cut (codes "-") rng))
]

check_range-safe :
    (lo hi : ℕ) (part : Str) (step : ℕ) (r : ℤ × ℤ) → check_range lo hi part step r ≢ err stuck
unfolding check_range
check_range-safe lo hi part step (pos a, pos b) =
    elim (Bool-cases (ltb a lo || ltb hi b || ltb b a)) [
      | inl e ↦ rw e (λ h. ground arith)
      | inr e ↦ rw e (λ h. ground arith)
    ]
check_range-safe lo hi part step (pos a, negsuc b) = λ e. ground arith
check_range-safe lo hi part step (negsuc a, b) = λ e. ground arith

read_part-safe : (lo hi : ℕ) (part : Str) → read_part lo hi part ≢ err stuck
unfolding read_part
read_part-safe lo hi part =
    bind_safe (read_step part) _ stuck (read_step-safe part) (λ (rng, step) read.
      bind_safe (read_range lo hi part rng) (check_range lo hi part step) stuck
        (read_range-safe lo hi part rng) (λ r ranged. check_range-safe lo hi part step r))

not_empty-safe : (vs : FieldSet) → not_empty vs ≢ err stuck
not_empty-safe [] = λ e. ground arith
not_empty-safe (v ∷ vs) = λ e. ground arith

parse_parts-safe :
    (lo hi : ℕ) (parts : List Str) (acc : FieldSet)
    → hi < 60
    → parse_parts lo hi parts acc ≢ err stuck
unfolding parse_parts
parse_parts-safe lo hi [] acc width = λ e. ground arith
parse_parts-safe lo hi (part ∷ parts) acc width =
    bind_safe (read_part lo hi part >>= add_steps acc) (parse_parts lo hi parts) stuck
      (bind_safe (read_part lo hi part) (add_steps acc) stuck (read_part-safe lo hi part)
        (λ s read. add_steps-safe lo hi acc s width (read_part-Fits lo hi part s read)))
      (λ next grown. parse_parts-safe lo hi parts next width)

parse_field-safe : (lo hi : ℕ) (field : Str) → hi < 60 → parse_field lo hi field ≢ err stuck
unfolding parse_field
parse_field-safe lo hi field width =
    bind_safe (parse_parts lo hi (split b',' field) []) not_empty stuck
      (parse_parts-safe lo hi (split b',' field) [] width) (λ vs parsed. not_empty-safe vs)

naming-safe :
    {A : Type 0} (field name : FieldName) (r : Result FieldError A)
    → r ≢ err stuck
    → naming field r ≢ err (bad_field name stuck)
naming-safe field name (ok a) h = λ e. ground arith
naming-safe field name (err d) h = λ e. h (ground arith)

-- One field of an expression, and what comes behind it.
field_then :
    {A : Type 0} (field name : FieldName) (lo hi : ℕ) (text : Str)
    (f : FieldSet → Result CronError A)
    → hi < 60
    → ((vs : FieldSet) → f vs ≢ err (bad_field name stuck))
    → (naming field (parse_field lo hi text) >>= f) ≢ err (bad_field name stuck)
field_then field name lo hi text f width h =
    bind_safe (naming field (parse_field lo hi text)) f (bad_field name stuck)
      (naming-safe field name (parse_field lo hi text) (parse_field-safe lo hi text width))
      (λ vs parsed. h vs)

parse_words-safe : (ws : List Str) (name : FieldName) → parse_words ws ≢ err (bad_field name stuck)
unfolding parse_words
parse_words-safe (m ∷ h ∷ d ∷ mo ∷ w ∷ []) name =
    field_then of_minute name 0 59 m _ (omega arith) (λ minute.
      field_then of_hour name 0 23 h _ (omega arith) (λ hour.
        field_then of_day_of_month name 1 31 d _ (omega arith) (λ dom.
          field_then of_month name 1 12 mo _ (omega arith) (λ month.
            field_then of_day_of_week name 0 6 w _ (omega arith) (λ dow e. ground arith)))))
parse_words-safe [] name = λ e. ground arith
parse_words-safe (_ ∷ []) name = λ e. ground arith
parse_words-safe (_ ∷ _ ∷ []) name = λ e. ground arith
parse_words-safe (_ ∷ _ ∷ _ ∷ []) name = λ e. ground arith
parse_words-safe (_ ∷ _ ∷ _ ∷ _ ∷ []) name = λ e. ground arith
parse_words-safe (_ ∷ _ ∷ _ ∷ _ ∷ _ ∷ _ ∷ _) name = λ e. ground arith

-- Parsing a cron expression never runs out of rounds, in any field.
pub parse_cron_ends : (spec : Str) (name : FieldName) → parse_cron spec ≢ err (bad_field name stuck)
unfolding parse_cron
parse_cron_ends spec name = parse_words-safe (fields spec) name
