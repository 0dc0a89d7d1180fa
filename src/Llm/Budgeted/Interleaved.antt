-- ===== src/Llm/Budgeted/Interleaved.antt =====
-- Requests of several goroutines at once.
use native.Mathlib.Nat.{suc-mul}
use turborg.Base.Int.{pos, ℤ}
use turborg.Base.{
  suc, zero, sym, Option, ap, arith, refl, true, false, ◌∙◌, ◌≤◌, ◌<◌, none, some, ℕ, ◌+◌, ◌-◌, ◌*◌,
  ◌≡◌,
}
use turborg.Base.Time.{Time}
use turborg.Llm.Budget.{allow, totals}
use turborg.Llm.Budget.Charge.{allow-below, allow-totals, totals-later}
use turborg.Llm.Budgeted.{Answer, BudgetedProvider, begin_ask, settle}
use turborg.Llm.Budgeted.Accounts.{charged, settle-charged}

-- The provider that the goroutines share, the number of calls between their check and their record,
-- and a time that no reading of the clock was behind.
pub record Shared : Type 0 where
  pub provider : BudgetedProvider
  pub running : ℕ
  pub now : Time

abbrev used : Shared → ℕ
used s = (totals s.now s.provider.budget).1.0

begin-used : (s : Shared) → (totals s.now (begin_ask s.now s.provider).0.budget).1.0 ≡ used s
unfolding begin_ask
begin-used s =
    ap (λ (t : ℕ × ℕ). t.0)
      (allow-totals s.now s.now s.provider.input_cap s.provider.output_cap s.provider.budget
        (omega arith))

begin-below :
    (c : ℕ) (s : Shared)
    → s.provider.input_cap ≡ pos (suc c)
    → (begin_ask s.now s.provider).1 ≡ true
    → used s ≤ c
unfolding begin_ask
begin-below c s capped h =
    allow-below s.now c s.provider.output_cap s.provider.budget
      (ap (λ (i : ℤ). (allow s.now i s.provider.output_cap s.provider.budget).1) (sym capped) ∙ h)

begin-cap : (s : Shared) → (begin_ask s.now s.provider).0.input_cap ≡ s.provider.input_cap
unfolding begin_ask
begin-cap s = refl

-- What is used, with the most that the running calls may still use.
abbrev IsCovered : ℕ → ℕ → ℕ → Shared → Type 0
IsCovered at_once most c s =
    (s.provider.input_cap ≡ pos (suc c))
    × (s.running ≤ at_once)
    × (used s + s.running * most ≤ c + at_once * most)

settle-cap :
    {S Error : Type 0} (t : Time) (p : BudgetedProvider) (world : S) (a : Answer Error)
    (e : Option Error)
    → (settle t p world a e).provider.input_cap ≡ p.input_cap
unfolding settle
settle-cap t p world a none = refl
settle-cap t p world a (some e) = refl

charged-settle :
    {S Error : Type 0} (later : Time) (p : BudgetedProvider) (world : S) (a : Answer Error)
    (error : Option Error)
    → (charged (settle later p world a error).answer).0 ≤ a.usage.input_tokens
unfolding settle
charged-settle later p world a none = omega arith
charged-settle later p world a (some e) = omega arith

settle-used :
    {S Error : Type 0} (most : ℕ) (t : Time) (p : BudgetedProvider) (world : S) (a : Answer Error)
    → a.usage.input_tokens ≤ most
    → (totals t (settle t p world a a.error).provider.budget).1.0 ≤ (totals t p.budget).1.0 + most
settle-used most t p world a small = ground (
  arith,
  ap (λ (x : ℕ × ℕ). x.0) (settle-charged t p world a a.error),
  charged-settle t p world a a.error,
  small,
)

-- Products with the most, one call at a time.
less_one : (most k : ℕ) → 0 < k → k * most ≡ (k - 1) * most + most
less_one most zero h = absurd (omega (arith, h))
less_one most (suc k) h = suc-mul k most ∙ ap (λ j. j * most + most) (omega arith)

below_all : (most k n : ℕ) → k < n → suc k * most ≤ n * most
below_all most k zero h = absurd (omega (arith, h))
below_all most zero (suc n) h = omega (arith, suc-mul zero most, suc-mul n most)
below_all most (suc k) (suc n) h =
    omega (arith, suc-mul (suc k) most, suc-mul n most, below_all most k n (omega (arith, h)))

module _ (S Error : Type 0) (at_once most : ℕ) where
  -- A step: time passes, a call is refused, one begins while fewer than `at_once` run, or one ends
  -- with an answer of at most `most` input tokens.
  pub data Step : Shared → Shared → Type 0 where
    passes : (s : Shared) (t : Time) → s.now ≤ t → Step s (record s { now = t })
    refused :
        (s : Shared)
        → (begin_ask s.now s.provider).1 ≡ false
        → Step s (record s { provider = (begin_ask s.now s.provider).0 })
    begins :
        (s : Shared)
        → (begin_ask s.now s.provider).1 ≡ true
        → s.running < at_once
        → Step s (record s { provider = (begin_ask s.now s.provider).0; running = suc s.running })
    ends :
        (s : Shared) (world : S) (a : Answer Error)
        → 0 < s.running
        → a.usage.input_tokens ≤ most
        → Step s (record s {
          provider = (settle s.now s.provider world a a.error).provider;
          running = s.running - 1;
        })

  pub data Run : Shared → Shared → Type 0 where
    rest : (s : Shared) → Run s s
    then_run : (s t u : Shared) → Step s t → Run t u → Run s u

  Step-IsCovered :
      (c : ℕ) (s t : Shared) → Step s t → IsCovered at_once most c s → IsCovered at_once most c t
  Step-IsCovered c s _ (passes _ t h) (cap, few, low) =
      (cap, few, omega (arith, low, totals-later s.now t s.provider.budget h))
  Step-IsCovered c s _ (refused _ h) (cap, few, low) =
      (begin-cap s ∙ cap, few, omega (arith, low, begin-used s))
  Step-IsCovered c s _ (begins _ h room) (cap, few, low) = (
    begin-cap s ∙ cap,
    omega (arith, room),
    omega (arith, begin-used s, begin-below c s cap h, below_all most s.running at_once room),
  )
  Step-IsCovered c s _ (ends _ world a some_run small) (cap, few, low) = (
    settle-cap s.now s.provider world a a.error ∙ cap,
    omega (arith, few),
    omega (
      arith,
      low,
      settle-used most s.now s.provider world a small,
      less_one most s.running some_run,
    ),
  )

  Run-IsCovered :
      (c : ℕ) (s u : Shared) → Run s u → IsCovered at_once most c s → IsCovered at_once most c u
  Run-IsCovered c s _ (rest _) h = h
  Run-IsCovered c s u (then_run _ t _ step run) h =
      Run-IsCovered c t u run (Step-IsCovered c s t step h)

  -- However the calls of Ask interleave, with at most `at_once` of them under way and no answer of
  -- more than `most` input tokens, what is used never exceeds the cap less one by more than
  -- `at_once` answers, if no call is under way and nothing is overdrawn at first.
  pub overdraw_bounded :
      (c : ℕ) (s u : Shared)
      → Run s u
      → s.provider.input_cap ≡ pos (suc c)
      → s.running ≡ 0
      → (totals s.now s.provider.budget).1.0 ≤ c
      → (totals u.now u.provider.budget).1.0 ≤ c + at_once * most
  overdraw_bounded c s u run cap idle low =
      let nothing : s.running * most ≡ 0 = ap (λ (k : ℕ). k * most) idle ∙ zero_times in
      let (_, _, covered) =
        Run-IsCovered c s u run (cap, omega (arith, idle), omega (arith, nothing, low)) in
      omega (arith, covered)
    where
      zero_times : 0 * most ≡ 0
      zero_times = omega arith
