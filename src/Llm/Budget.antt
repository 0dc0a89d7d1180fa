-- ===== src/Llm/Budget.antt =====
-- internal/llm/budget.go: tokens used in a rolling window, with a baseline for the rest of the
-- account. The clock that a method reads is an argument, `now`; the mutex makes each method one step. The
-- token counts of an entry are those of a finished request, which are not negative.
pub mod Totals
pub mod Charge
mod Examples
use turborg.Base.Int.{clamp, le_pos, ℤ}
use turborg.Base.Time.{Time, in_window}
use turborg.Base.{
  Bool, List, [], false, if◌then◌else◌, keep, not, true, ℕ, ◌&&◌, ◌*◌, ◌++◌, ◌+◌, ◌∷◌,
}

pub record TokenEntry : Type 0 where
  pub ts : Time
  pub input : ℕ
  pub output : ℕ

pub record TokenBudget : Type 0 where
  pub entries : List TokenEntry
  pub baseline_input : ℕ
  pub baseline_output : ℕ
  pub window : ℕ

-- 24 hours, in nanoseconds.
abbrev pub default_window : ℕ
default_window = 24 * 3600 * 1000000000

unfoldable pub new_token_budget : TokenBudget
new_token_budget = record {
  entries = [];
  baseline_input = 0;
  baseline_output = 0;
  window = default_window;
}

abbrev pub fresh : ℕ → Time → TokenEntry → Bool
fresh window now e = in_window window now e.ts

unfoldable pub prune : Time → TokenBudget → TokenBudget
prune now b = record b { entries = keep (fresh b.window now) b.entries }

-- Record; its two readings of the clock, in prune and for the entry, count as one.
unfoldable pub record_usage : Time → ℕ → ℕ → TokenBudget → TokenBudget
unfolding prune
record_usage now input output b =
    let b' = prune now b in
    record b' { entries = b'.entries ++ record { ts = now; input = input; output = output } ∷ [] }

pub set_baseline : ℤ → ℤ → TokenBudget → TokenBudget
set_baseline input output b = record b {
  baseline_input = clamp input;
  baseline_output = clamp output;
}

-- The loop of `Totals` over the entries, from the two sums so far.
unfoldable pub add_entries : ℕ → ℕ → List TokenEntry → ℕ × ℕ
add_entries input output [] = (input, output)
add_entries input output (e ∷ es) = add_entries (input + e.input) (output + e.output) es

unfoldable pub totals : Time → TokenBudget → TokenBudget × (ℕ × ℕ)
unfolding prune add_entries
totals now b =
    let b' = prune now b in (b', add_entries b'.baseline_input b'.baseline_output b'.entries)

-- cap > 0 && used >= cap
abbrev pub over : ℤ → ℕ → Bool
over cap used = not (le_pos cap 0) && le_pos cap used

unfoldable pub allow : Time → ℤ → ℤ → TokenBudget → TokenBudget × Bool
allow now input_cap output_cap b =
    let (b', (input, output)) = totals now b in
    (b', if over input_cap input then false else if over output_cap output then false else true)
