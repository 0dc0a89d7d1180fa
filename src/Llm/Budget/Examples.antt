-- ===== src/Llm/Budget/Examples.antt =====
-- The theorems on budget.go at concrete inputs.
use turborg.Base.Int.{negsuc, pos}
use turborg.Base.{List, [], arith, refl, ◌∷◌, ◌≡◌}
use turborg.Llm.Budget.{TokenBudget, totals}
use turborg.Llm.Budget.Totals.{Call, usage, baseline, read, calls, totals_exact}

abbrev budget : TokenBudget
budget = record { entries = []; baseline_input = 0; baseline_output = 0; window = 100 }

abbrev history : List Call
history = usage 10 5 7 ∷ baseline (pos 20) (negsuc 3) ∷ read 50 ∷ usage 90 1 2 ∷ []

totals_exact_example : (totals 120 (calls budget history)).1 ≡ (21, 2)
totals_exact_example = totals_exact 0 120 history budget refl (omega arith) (omega arith)
