-- ===== src/Llm/Budgeted/Accounts.antt =====
-- What a request costs.
use turborg.Base.{Option, Str, ap, arith, inl, inr, ◌∙◌, ◌≤◌, none, some, ℕ, ◌+◌, ◌≡◌, Bool-cases}
use turborg.Base.Time.{Time}
use turborg.Llm.Budget.{allow, totals}
use turborg.Llm.Budget.Charge.{allow-totals, totals-record_usage}
use turborg.Llm.Budgeted.{Answer, BudgetedProvider, ask, begin_ask, settle}

-- What an answer without an error used.
abbrev pub charged : {Error : Type 0} → Answer Error → ℕ × ℕ
charged a = elim a.error [ none ↦ (a.usage.input_tokens, a.usage.output_tokens) | some e ↦ (0, 0) ]

unchanged : (t : ℕ × ℕ) → t ≡ (t.0 + 0, t.1 + 0)
unchanged (i, o) = ground arith

module _ {S Error : Type 0} where
  pub settle-charged :
      (later : Time) (p : BudgetedProvider) (world : S) (a : Answer Error) (error : Option Error)
      → let t = (totals later p.budget).1 in
        let asked = settle later p world a error in
        (totals later asked.provider.budget).1
        ≡ (t.0 + (charged asked.answer).0, t.1 + (charged asked.answer).1)
  unfolding settle
  settle-charged later p world a none =
      totals-record_usage later a.usage.input_tokens a.usage.output_tokens p.budget
  settle-charged later p world a (some e) = unchanged (totals later p.budget).1

  -- A request adds to the totals exactly what an answer without an error used: a request that the
  -- budget refuses and one that fails cost nothing, and the check itself costs nothing.
  pub ask_charges :
      (inner : Str → S → S × Answer Error) (now later : Time) (prompt : Str) (p : BudgetedProvider)
      (world : S)
      → now ≤ later
      → let asked = ask inner now later prompt p world in
        let t = (totals later p.budget).1 in
        (totals later asked.provider.budget).1
        ≡ (t.0 + (charged asked.answer).0, t.1 + (charged asked.answer).1)
  unfolding ask begin_ask
  ask_charges inner now later prompt p world h =
      let (budget, allowed) = allow now p.input_cap p.output_cap p.budget in
      let checked : BudgetedProvider = record p { budget = budget } in
      let (after, a) = inner prompt world in
      let same = allow-totals now later p.input_cap p.output_cap p.budget h in
      elim (Bool-cases (allow now p.input_cap p.output_cap p.budget).1) [
        | inl e ↦ rw e (
            settle-charged later checked after a a.error
            ∙ ap
                (λ ((i, o) : ℕ × ℕ). (
                  i + (charged (settle later checked after a a.error).answer).0,
                  o + (charged (settle later checked after a a.error).answer).1,
                ))
                same)
        | inr e ↦ rw e (same ∙ unchanged (totals later p.budget).1)
      ]
