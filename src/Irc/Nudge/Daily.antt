-- ===== src/Irc/Nudge/Daily.antt =====
-- How often the owner hears of a day's messages.
use turborg.Base.{
  Bool, false, none, some, str_beq, str_eq, sym, ◌&&◌, ◌==◌, Str, is_some, nat_beq_iff, refl,
  str_beq_iff, true, zero, ◌≢◌, arith, inl, inr, ◌*◌, ap, if◌then◌else◌, nat_beq, suc, ℕ, ◌%◌, ◌+◌,
  ◌/◌, ◌<◌, ◌∙◌, ◌≡◌,
}
use native.Mathlib.Nat.{
  mul-add-div, mul-add-mod_self_left, mod-add-div, mod-lt, mod_self, div_self, div-eq_of_lt,
  mod-eq_of_lt,
}
use turborg.Base.{Bool-cases}
use turborg.Irc.Nudge.{nudge_line, OwnerNudge, note, on_day}

-- The quotient grows by one exactly where the new number is a multiple.
div-suc : (n c : ℕ) → 0 < n → suc c / n ≡ c / n + (if nat_beq (suc c % n) 0 then 1 else 0)
div-suc n c h =
    let r = c % n in
    let q = c / n in
    let small = mod-lt c h in
    let divided = mod-add-div c n in
    let whole : suc c ≡ n * q + suc r = ground (arith, divided) in
    let quotient : suc c / n ≡ q + suc r / n = ap (λ x. x / n) whole ∙ mul-add-div h q (suc r) in
    let remainder : suc c % n ≡ suc r % n =
      ap (λ x. x % n) whole ∙ mul-add-mod_self_left n q (suc r) in
    elim (Bool-cases (nat_beq (suc r) n)) [
      | inl e ↦
          let full = (nat_beq_iff (suc r) n).0 e in
          ground (
            arith,
            quotient,
            remainder,
            ap (λ x. x / n) full,
            div_self h,
            ap (λ x. x % n) full,
            mod_self n,
          )
      | inr e ↦
          let short : suc r < n = ground (arith, small, e) in
          ground (arith, quotient, remainder, div-eq_of_lt short, mod-eq_of_lt short)
    ]

-- What the counter goes on from on a day.
abbrev start : Str → OwnerNudge → ℕ
start today n = if today == n.today then n.count else 0

on_day-facts :
    (today : Str) (n : OwnerNudge)
    → let m = on_day today n in
      (m.every_n ≡ n.every_n) × (m.today ≡ today) × (m.count ≡ start today n)
unfolding on_day
on_day-facts today n = elim (Bool-cases (str_beq today n.today)) [
  | inl e ↦ rw e (refl, sym ((str_beq_iff today n.today).0 e), refl)
  | inr e ↦ rw e (refl, refl, refl)
]

is_some-if : {A : Type 0} (b : Bool) (a : A) → is_some (if b && true then some a else none) ≡ b
is_some-if true a = refl
is_some-if false a = refl

note-facts :
    (today : Str) (n : OwnerNudge)
    → let (after, line) = note today true n in
      (after.every_n ≡ n.every_n)
      × (after.today ≡ today)
      × (after.count ≡ suc (start today n))
      × (is_some line ≡ nat_beq (suc (start today n) % n.every_n) 0)
unfolding note
note-facts today n =
    let m = on_day today n in
    let (every, day, count) = on_day-facts today n in
    (
      every,
      day,
      ap suc count,
      is_some-if (nat_beq (suc m.count % m.every_n) 0)
            (nudge_line (record m { count = suc m.count }))
          ∙ ap (λ (x : ℕ). nat_beq (suc x % m.every_n) 0) count
          ∙ ap (λ (x : ℕ). nat_beq (suc (start today n) % x) 0) every,
    )

-- The nudge after `k` messages on a day, and the number of lines to the owner.
unfoldable pub notes : Str → ℕ → OwnerNudge → OwnerNudge × ℕ
notes today zero n = (n, 0)
notes today (suc k) n =
    let (after, line) = note today true n in
    let (last, lines) = notes today k after in (last, (if is_some line then 1 else 0) + lines)

start-next :
    (today : Str) (n : OwnerNudge) → start today (note today true n).0 ≡ suc (start today n)
start-next today n =
    let (_, day, count, _) = note-facts today n in
    let after = (note today true n).0 in
    ap (λ (b : Bool). if b then after.count else 0) ((str_beq_iff today after.today).1 (sym day))
    ∙ count

lines-from :
    (today : Str) (k : ℕ) (n : OwnerNudge)
    → 0 < n.every_n
    → (notes today k n).1 + start today n / n.every_n ≡ (start today n + k) / n.every_n
unfolding notes
lines-from today zero n h =
    let same : (start today n + 0) / n.every_n ≡ start today n / n.every_n =
      ap (λ (x : ℕ). x / n.every_n) (omega arith) in
    ground (arith, same)
lines-from today (suc k) n h =
    let (every, _, _, line) = note-facts today n in
    let after = (note today true n).0 in
    let s = start today n in
    let sent = (notes today k after).1 in
    let rest : sent + start today after / n.every_n ≡ (start today after + k) / n.every_n =
      ap (λ (x : ℕ). sent + start today after / x) (sym every)
      ∙ lines-from today k after (ground (arith, every, h))
      ∙ ap (λ (x : ℕ). (start today after + k) / x) every in
    let more : sent + suc s / n.every_n ≡ (suc s + k) / n.every_n =
      ap (λ (x : ℕ). sent + x / n.every_n) (sym (start-next today n))
      ∙ rest
      ∙ ap (λ (x : ℕ). (x + k) / n.every_n) (start-next today n) in
    let moved : (s + suc k) / n.every_n ≡ (suc s + k) / n.every_n =
      ap (λ (x : ℕ). x / n.every_n) (omega arith) in
    let flag = ap (λ (b : Bool). (if b then 1 else 0) + sent + s / n.every_n) line in
    flag ∙ ground (arith, more, moved, div-suc n.every_n s h)

-- On a day that the nudge has not counted yet, `k` messages send the owner one line for each full
-- EveryN of them.
pub lines_in_day :
    (today : Str) (k : ℕ) (n : OwnerNudge)
    → 0 < n.every_n
    → today ≢ n.today
    → (notes today k n).1 ≡ k / n.every_n
lines_in_day today k n h new =
    let fresh : start today n ≡ 0 = ground (arith, str_beq_iff today n.today, new) in
    let lines : (notes today k n).1 + 0 / n.every_n ≡ (0 + k) / n.every_n =
      ap (λ (x : ℕ). (notes today k n).1 + x / n.every_n) (sym fresh)
      ∙ lines-from today k n h
      ∙ ap (λ (x : ℕ). (x + k) / n.every_n) fresh in
    let moved : (0 + k) / n.every_n ≡ k / n.every_n = ap (λ (x : ℕ). x / n.every_n) (omega arith) in
    ground (arith, lines, moved, div-eq_of_lt h)
