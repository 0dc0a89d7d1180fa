-- ===== src/Skill/Cron/Values.antt =====
-- Which values a field of a cron expression permits.
use turborg.Base.{
  ap, sym, ◌∙◌, Bool-cases, arith, inl, inr, nat_beq, refl, ◌<◌, ◌≡◌, ◌≤◌, Bool, [], false, some,
  zero, ◌&&◌, ◌*◌, ◌+◌, ◌-◌, ◌||◌, ◌∷◌, ltb, leb, suc, ℕ, ◌%◌, str_eq,
}
use native.Mathlib.Nat.{mul-add-mod_self_left, mod-eq_of_lt}
use turborg.Base.Int.{ℤ, negsuc, pos}
use turborg.Base.Text.Numbers.{int_end}
use turborg.Skill.Cron.{int_beq, has, wrap_add, fill, FieldSet, Steps}

-- The values of a part: every `step`-th one from `start` to `end`.
unfoldable pub is_step : Steps → ℤ → Bool
is_step s (negsuc n) = false
is_step s (pos v) = leb s.start v && leb v s.end && nat_beq ((v - s.start) % s.step) 0

abbrev at : ℕ → ℕ → ℕ → Steps
at start end step = record { start = start; end = end; step = step }

mod_less : (d step : ℕ) → step ≤ d → (d - step) % step ≡ d % step
mod_less d step h =
    let back : step * 1 + (d - step) ≡ d = omega arith in
    sym (mul-add-mod_self_left step 1 (d - step)) ∙ ap (λ n. n % step) back

-- The next value is the only one left out.
is_step-next :
    (v end step : ℕ) (w : ℤ)
    → 1 ≤ step
    → v ≤ end
    → is_step (at v end step) w ≡ (int_beq (pos v) w || is_step (at (v + step) end step) w)
unfolding is_step
is_step-next v end step (negsuc n) h k = refl
is_step-next v end step (pos w) h k = elim (Bool-cases (leb (v + step) w)) [
  | inl e ↦
      let later : w - v - step ≡ w - (v + step) = omega arith in
      let same : (w - (v + step)) % step ≡ (w - v) % step =
        ap (λ n. n % step) (sym later) ∙ mod_less (w - v) step (ground arith) in
      ground (arith, same)
  | inr e ↦ elim (Bool-cases (leb v w)) [
    | inl g ↦ let near : w - v < step = ground arith in ground (arith, mod-eq_of_lt near)
    | inr g ↦ ground arith
  ]
]

is_step-past : (v end step : ℕ) (w : ℤ) → end < v → is_step (at v end step) w ≡ false
unfolding is_step
is_step-past v end step (negsuc n) h = refl
is_step-past v end step (pos w) h = ground arith

pub wrap_add-small : (v step : ℕ) → v + step < int_end → wrap_add (pos v) step ≡ pos (v + step)
unfolding wrap_add
wrap_add-small v step h = ground arith

-- Enough rounds write exactly the values of a part, where no step leaves the 64 bits.
pub fill_exact :
    (fuel v end step : ℕ)
    → 1 ≤ step
    → 1 ≤ fuel
    → end + 2 ≤ v + fuel
    → end + step < int_end
    → (vs : FieldSet) × (fill fuel (pos v) end step ≡ some vs)
      × ((w : ℤ) → has vs w ≡ is_step (at v end step) w)
unfolding fill has
fill_exact zero v end step h f k small = absurd (omega arith)
fill_exact (suc fuel) v end step h f k small = elim (Bool-cases (ltb end v)) [
  | inl e ↦ rw e ([], refl, λ w. sym (is_step-past v end step w (ground arith)))
  | inr e ↦
      let (vs, run, exact) =
        fill_exact fuel (v + step) end step h (ground arith) (ground arith) small in
      rw e (
        rw (wrap_add-small v step (ground arith)) (
          rw run (
            pos v ∷ vs,
            refl,
            λ w.
                ap (λ b. int_beq (pos v) w || b) (exact w)
                ∙ sym (is_step-next v end step w h (ground arith)),
          )))
]
