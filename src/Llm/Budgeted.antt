-- ===== src/Llm/Budgeted.antt =====
-- internal/llm/budgeted.go: a provider behind a token budget. The provider is a parameter: what it
-- answers to a prompt, and what it does to the rest of the world. The clock is read by the check
-- and again, later, by the record. Ask holds no lock across its check, the call of the provider and
-- the record, so the calls of several goroutines interleave between these: `begin_ask` and `settle`
-- are the two ends of a call, and `ask` is a call that no other one disturbs.
pub mod Accounts
pub mod Interleaved
mod Examples
use turborg.Base.{Bool, Option, Str, [], if◌then◌else◌, length, none, some, ℕ, ◌+◌, ◌/◌, ◌∷◌}
use turborg.Base.Int.{ℤ}
use turborg.Base.Time.{Time}
use turborg.Llm.Budget.{TokenBudget, allow, record_usage}

pub record Usage : Type 0 where
  pub input_tokens : ℕ
  pub output_tokens : ℕ

-- `budget_exhausted` is ErrBudgetExhausted.
pub data AskError (Error : Type 0) : Type 0 where
  budget_exhausted : AskError Error
  provider_error : Error → AskError Error

-- What Ask returns: text, usage and error.
pub record Answer (Error : Type 0) : Type 0 where
  pub text : Str
  pub usage : Usage
  pub error : Option Error

pub record BudgetedProvider : Type 0 where
  pub budget : TokenBudget
  pub input_cap : ℤ
  pub output_cap : ℤ
  pub on_usage : Bool

-- A call's outcome: the provider, the world, the answer, and the call of the callback.
pub record Asked (S Error : Type 0) : Type 0 where
  pub provider : BudgetedProvider
  pub world : S
  pub answer : Answer (AskError Error)
  pub reported : Option Usage

-- The check in front of the call: the provider after it, and whether the call goes on.
pub begin_ask : Time → BudgetedProvider → BudgetedProvider × Bool
begin_ask now p =
    let (budget, allowed) = allow now p.input_cap p.output_cap p.budget in
    (record p { budget = budget }, allowed)

module _ {S Error : Type 0} where
  -- What follows the answer of the provider, with its error.
  pub settle : Time → BudgetedProvider → S → Answer Error → Option Error → Asked S Error
  settle later p world a (some e) = record {
    provider = p;
    world = world;
    answer = record { text = []; usage = a.usage; error = some (provider_error e) };
    reported = none;
  }
  settle later p world a none = record {
    provider = record p {
      budget = record_usage later a.usage.input_tokens a.usage.output_tokens p.budget;
    };
    world = world;
    answer = record { text = a.text; usage = a.usage; error = none };
    reported = if p.on_usage then some a.usage else none;
  }

  -- The provider is asked only where the budget allows it.
  pub ask : (Str → S → S × Answer Error) → Time → Time → Str → BudgetedProvider → S → Asked S Error
  unfolding settle begin_ask
  ask inner now later prompt p world =
      let (checked, allowed) = begin_ask now p in
      let (after, a) = inner prompt world in
      if allowed then settle later checked after a a.error else record {
        provider = checked;
        world = world;
        answer = record {
          text = [];
          usage = record { input_tokens = 0; output_tokens = 0 };
          error = some budget_exhausted;
        };
        reported = none;
      }

-- (len(s) + 3) / 4
pub estimate_tokens : Str → ℕ
estimate_tokens [] = 0
estimate_tokens (c ∷ s) = (length (c ∷ s) + 3) / 4
