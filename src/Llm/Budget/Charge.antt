-- ===== src/Llm/Budget/Charge.antt =====
-- What one record adds to the totals.
use turborg.Base.{
  suc, true, refl, ◌∙◌, List, [], ap, arith, ℕ, ◌++◌, ◌+◌, ◌∷◌, ◌≡◌, ◌≤◌, keep, keep-append,
  keep-keep,
}
use turborg.Base.Int.{ℤ, pos}
use turborg.Base.Time.{Time}
use turborg.Llm.Budget.{
  allow, TokenBudget, TokenEntry, add_entries, fresh, prune, record_usage, totals,
}
use turborg.Llm.Budget.Totals.{add_entries-sums, input_sum, output_sum}

fresh-later :
    (window now later : Time) (es : List TokenEntry)
    → now ≤ later
    → keep (fresh window later) (keep (fresh window now) es) ≡ keep (fresh window later) es
fresh-later window now later es h =
    keep-keep (fresh window now) (fresh window later) (λ x q. ground arith) es

input_sum-append : (xs ys : List TokenEntry) → input_sum (xs ++ ys) ≡ input_sum xs + input_sum ys
input_sum-append [] ys = omega arith
input_sum-append (x ∷ xs) ys = ground (arith, input_sum-append xs ys)

output_sum-append :
    (xs ys : List TokenEntry) → output_sum (xs ++ ys) ≡ output_sum xs + output_sum ys
output_sum-append [] ys = omega arith
output_sum-append (x ∷ xs) ys = ground (arith, output_sum-append xs ys)

-- The totals as sums.
pub totals-sums :
    (now : Time) (b : TokenBudget)
    → let recent = keep (fresh b.window now) b.entries in
      (totals now b).1
      ≡ (b.baseline_input + input_sum recent, b.baseline_output + output_sum recent)
unfolding totals prune
totals-sums now b =
    add_entries-sums b.baseline_input b.baseline_output (keep (fresh b.window now) b.entries)

pub totals-pruned :
    (now later : Time) (b : TokenBudget)
    → now ≤ later
    → (totals later (totals now b).0).1 ≡ (totals later b).1
unfolding totals prune
totals-pruned now later b h =
    ap (add_entries b.baseline_input b.baseline_output) (fresh-later b.window now later b.entries h)

-- The entry that is recorded is recent, and the pruning before it drops nothing that is.
recent-record_usage :
    (later : Time) (i o : ℕ) (b : TokenBudget)
    → let e : TokenEntry = record { ts = later; input = i; output = o } in
      keep (fresh b.window later) (record_usage later i o b).entries
      ≡ keep (fresh b.window later) b.entries ++ e ∷ []
unfolding record_usage prune
recent-record_usage later i o b =
    let e : TokenEntry = record { ts = later; input = i; output = o } in
    let recent = keep (fresh b.window later) b.entries in
    let itself : keep (fresh b.window later) (e ∷ []) ≡ e ∷ [] = ground arith in
    keep-append (fresh b.window later) recent (e ∷ [])
    ∙ ap (λ (xs : List TokenEntry). xs ++ keep (fresh b.window later) (e ∷ []))
        (fresh-later b.window later later b.entries (omega arith))
    ∙ ap (λ (xs : List TokenEntry). recent ++ xs) itself

record_usage-fields :
    (later : Time) (i o : ℕ) (b : TokenBudget)
    → let after = record_usage later i o b in
      (after.window ≡ b.window)
      × (after.baseline_input ≡ b.baseline_input)
      × (after.baseline_output ≡ b.baseline_output)
unfolding record_usage prune
record_usage-fields later i o b = (refl, refl, refl)

pub totals-record_usage :
    (later : Time) (i o : ℕ) (b : TokenBudget)
    → (totals later (record_usage later i o b)).1
      ≡ ((totals later b).1.0 + i, (totals later b).1.1 + o)
unfolding record_usage prune
totals-record_usage later i o b =
    let e : TokenEntry = record { ts = later; input = i; output = o } in
    let recent = keep (fresh b.window later) b.entries in
    let before = totals-sums later b in
    totals-sums later (record_usage later i o b)
    ∙ ap
        (λ (es : List TokenEntry).
          (b.baseline_input + input_sum es, b.baseline_output + output_sum es))
        (recent-record_usage later i o b)
    ∙ ground (arith, input_sum-append recent (e ∷ []), output_sum-append recent (e ∷ []), before)

pub allow-totals :
    (now later : Time) (i o : ℤ) (b : TokenBudget)
    → now ≤ later
    → (totals later (allow now i o b).0).1 ≡ (totals later b).1
unfolding allow
allow-totals now later i o b h = totals-pruned now later b h

pub allow-below :
    (now : Time) (c : ℕ) (o : ℤ) (b : TokenBudget)
    → (allow now (pos (suc c)) o b).1 ≡ true
    → (totals now b).1.0 ≤ c
unfolding allow
allow-below now c o b h = ground (arith, h)

input_sum-later :
    (window now later : Time) (es : List TokenEntry)
    → now ≤ later
    → input_sum (keep (fresh window later) es) ≤ input_sum (keep (fresh window now) es)
input_sum-later window now later [] h = omega arith
input_sum-later window now later (e ∷ es) h =
    ground (arith, input_sum-later window now later es h, h)

-- Time alone does not raise the total.
pub totals-later :
    (now later : Time) (b : TokenBudget) → now ≤ later → (totals later b).1.0 ≤ (totals now b).1.0
totals-later now later b h =
    ground (
      arith,
      totals-sums now b,
      totals-sums later b,
      input_sum-later b.window now later b.entries h,
    )
