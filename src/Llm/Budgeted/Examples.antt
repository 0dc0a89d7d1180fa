-- ===== src/Llm/Budgeted/Examples.antt =====
-- A provider that answers each prompt with ten tokens, and counts the prompts.
use turborg.Base.{ap, Str, arith, none, refl, suc, true, ℕ, ◌≡◌, ◌≤◌, ◌+◌, ◌*◌}
use turborg.Base.Int.{negsuc, pos}
use turborg.Base.Text.{codes}
use turborg.Llm.Budget.{allow, new_token_budget, totals, prune, add_entries, record_usage}
use turborg.Llm.Budget.Charge.{totals-sums}
use turborg.Llm.Budgeted.{Answer, BudgetedProvider, begin_ask, settle}
use turborg.Llm.Budgeted.Interleaved.{Shared, Run, overdraw_bounded, begins, ends, then_run, rest}

abbrev inner : Str → ℕ → ℕ × Answer (Unit {0})
inner prompt n = (
  suc n,
  record { text = prompt; usage = record { input_tokens = 10; output_tokens = 4 }; error = none },
)

abbrev provider : BudgetedProvider
provider = record {
  budget = new_token_budget;
  input_cap = pos 15;
  output_cap = negsuc 0;
  on_usage = true;
}

no_use : (totals 100 provider.budget).1.0 ≡ 0
unfolding new_token_budget
no_use = ap (λ (t : ℕ × ℕ). t.0) (totals-sums 100 new_token_budget)

-- Two calls begin before either of them ends, and both are answered.
abbrev answer : Answer (Unit {0})
answer = (inner (codes "hi") 0).1

abbrev start : Shared
start = record { provider = provider; running = 0; now = 100 }

abbrev one_begun : Shared
one_begun = record { provider = (begin_ask 100 provider).0; running = 1; now = 100 }

abbrev both_begun : Shared
both_begun = record { provider = (begin_ask 100 one_begun.provider).0; running = 2; now = 100 }

abbrev one_ended : Shared
one_ended = record {
  provider = (settle {S = ℕ} 100 both_begun.provider 0 answer none).provider;
  running = 1;
  now = 100;
}

abbrev both_ended : Shared
both_ended = record {
  provider = (settle {S = ℕ} 100 one_ended.provider 0 answer none).provider;
  running = 0;
  now = 100;
}

allowed_first : (begin_ask 100 provider).1 ≡ true
unfolding begin_ask allow totals prune add_entries new_token_budget
allowed_first = refl

allowed_second : (begin_ask 100 one_begun.provider).1 ≡ true
unfolding begin_ask allow totals prune add_entries new_token_budget
allowed_second = refl

two_calls : Run ℕ (Unit {0}) 2 10 start both_ended
two_calls = then_run start one_begun both_ended (begins start allowed_first (omega arith)) (
    then_run one_begun both_begun both_ended (begins one_begun allowed_second (omega arith)) (
      then_run both_begun one_ended both_ended
        (ends both_begun 0 answer (omega arith) (omega arith))
        (then_run one_ended both_ended both_ended
          (ends one_ended 0 answer (omega arith) (omega arith)) (rest both_ended))))

overdraw_bounded_example : (totals 100 both_ended.provider.budget).1.0 ≤ 14 + 2 * 10
overdraw_bounded_example =
    overdraw_bounded ℕ (Unit {0}) 2 10 14 start both_ended two_calls refl refl
      (ground (arith, no_use))

-- Together they overdraw: 20 tokens used under a cap of 15.
overdrawn : (totals 100 both_ended.provider.budget).1.0 ≡ 20
unfolding begin_ask allow totals prune add_entries new_token_budget settle record_usage
overdrawn = refl
