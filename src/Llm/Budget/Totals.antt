-- ===== src/Llm/Budget/Totals.antt =====
-- What the totals of budget.go are, over any history of calls.
use mathlib.Core.List.{append-nil, append_assoc}
use turborg.Base.Int.{negsuc, pos, clamp, ℤ}
use turborg.Base.Time.{Time}
use turborg.Base.{
  false, suc, true, zero, ◌<◌, ◌↔◌, List, [], arith, keep, refl, ℕ, ◌++◌, ◌+◌, ◌∷◌, ◌≡◌, ◌≤◌,
}
use turborg.Base.Window.{Remembers, Leaves, Remembers-prune, Remembers-push}
use turborg.Llm.Budget.{
  TokenEntry, TokenBudget, record_usage, set_baseline, add_entries, totals, over, allow, fresh,
}

pub data Call : Type 0 where
  usage : Time → ℕ → ℕ → Call
  baseline : ℤ → ℤ → Call
  read : Time → Call

unfoldable pub call : TokenBudget → Call → TokenBudget
call b (usage now input output) = record_usage now input output b
call b (baseline input output) = set_baseline input output b
call b (read now) = (totals now b).0

unfoldable pub calls : TokenBudget → List Call → TokenBudget
unfolding call
calls b [] = b
calls b (c ∷ cs) = calls (call b c) cs

-- The clock reading of a call, where it takes one.
abbrev pub reading : Time → Call → Time
reading t (usage now _ _) = now
reading t (baseline _ _) = t
reading t (read now) = now

abbrev pub Clocked : Time → List Call → Type 0
Clocked t [] = Unit
Clocked t (c ∷ cs) = (t ≤ reading t c) × Clocked (reading t c) cs

abbrev pub last_reading : Time → List Call → Time
last_reading t [] = t
last_reading t (c ∷ cs) = last_reading (reading t c) cs

-- Every usage of a history, whenever it was.
abbrev pub used : List Call → List TokenEntry
used [] = []
used (usage now input output ∷ cs) = record { ts = now; input = input; output = output } ∷ used cs
used (baseline _ _ ∷ cs) = used cs
used (read _ ∷ cs) = used cs

-- The baseline that was set last.
abbrev pub baseline_after : ℕ × ℕ → List Call → ℕ × ℕ
baseline_after p [] = p
baseline_after p (usage _ _ _ ∷ cs) = baseline_after p cs
baseline_after p (baseline input output ∷ cs) = baseline_after (clamp input, clamp output) cs
baseline_after p (read _ ∷ cs) = baseline_after p cs

abbrev pub input_sum : List TokenEntry → ℕ
input_sum [] = 0
input_sum (e ∷ es) = e.input + input_sum es

abbrev pub output_sum : List TokenEntry → ℕ
output_sum [] = 0
output_sum (e ∷ es) = e.output + output_sum es

pub add_entries-sums :
    (i o : ℕ) (es : List TokenEntry) → add_entries i o es ≡ (i + input_sum es, o + output_sum es)
unfolding add_entries
add_entries-sums i o [] = ground arith
add_entries-sums i o (e ∷ es) = ground (arith, add_entries-sums (i + e.input) (o + e.output) es)

fresh-Leaves : (window : ℕ) → Leaves (fresh window)
fresh-Leaves window t u le e h = ground arith

record Holds (window : ℕ) (p : ℕ × ℕ) (log : List TokenEntry) (last : Time) (b : TokenBudget)
    : Type 0 where
  same_window : b.window ≡ window
  same_input : b.baseline_input ≡ p.0
  same_output : b.baseline_output ≡ p.1
  recent : Remembers (fresh window) log last b.entries

module _ (window : ℕ) where
  usage-Holds :
      (p : ℕ × ℕ) (log : List TokenEntry) (last now i o : ℕ) (b : TokenBudget)
      → Holds window p log last b
      → last ≤ now
      → Holds window p
          (log ++ record { ts = now; input = i; output = o } ∷ [])
          now
          (record_usage now i o b)
  unfolding record_usage
  usage-Holds p log last now i o b h le = record {
    same_window = h.same_window;
    same_input = h.same_input;
    same_output = h.same_output;
    recent = rw (h.same_window) (
        Remembers-push (fresh window) (fresh-Leaves window) log last now b.entries
          (record { ts = now; input = i; output = o }) h.recent le);
  }

  read-Holds :
      (p : ℕ × ℕ) (log : List TokenEntry) (last now : ℕ) (b : TokenBudget)
      → Holds window p log last b
      → last ≤ now
      → Holds window p log now (totals now b).0
  unfolding totals
  read-Holds p log last now b h le = record {
    same_window = h.same_window;
    same_input = h.same_input;
    same_output = h.same_output;
    recent =
        rw (h.same_window)
          (Remembers-prune (fresh window) (fresh-Leaves window) log last now b.entries h.recent le);
  }

  calls-Holds :
      (cs : List Call) (p : ℕ × ℕ) (log : List TokenEntry) (last : Time) (b : TokenBudget)
      → Holds window p log last b
      → Clocked last cs
      → Holds window (baseline_after p cs) (log ++ used cs) (last_reading last cs) (calls b cs)
  unfolding calls
  calls-Holds [] p log last b h c = rw append-nil h
  calls-Holds (usage now i o ∷ cs) p log last b h c =
      let e : TokenEntry = record { ts = now; input = i; output = o } in
      rw (← append_assoc log (e ∷ []) (used cs)) (
        calls-Holds cs p (log ++ e ∷ []) now (record_usage now i o b)
          (usage-Holds p log last now i o b h c.0) c.1)
  calls-Holds (baseline i o ∷ cs) p log last b h c =
      calls-Holds cs (clamp i, clamp o) log last (set_baseline i o b)
        (unfold set_baseline in
          record {
            same_window = h.same_window;
            same_input = refl;
            same_output = refl;
            recent = h.recent;
          })
        c.1
  calls-Holds (read now ∷ cs) p log last b h c =
      calls-Holds cs p log now (totals now b).0 (read-Holds p log last now b h c.0) c.1

-- After any calls on a clock that does not go back, the totals are the baseline that was set last
-- and all that was used within the window before `now`, pruning or not.
pub totals_exact :
    (start now : Time) (cs : List Call) (b : TokenBudget)
    → b.entries ≡ []
    → Clocked start cs
    → last_reading start cs ≤ now
    → let recent = keep (fresh b.window now) (used cs) in
      let p = baseline_after (b.baseline_input, b.baseline_output) cs in
      (totals now (calls b cs)).1 ≡ (p.0 + input_sum recent, p.1 + output_sum recent)
totals_exact start now cs b e c le =
    let b' = calls b cs in
    let h =
      calls-Holds b.window cs (b.baseline_input, b.baseline_output) [] start b
        (record {
          same_window = refl;
          same_input = refl;
          same_output = refl;
          recent = λ u le'. rw e;
        })
        c in
    unfold totals in
    ground (
      arith,
      h.same_window,
      h.same_input,
      h.same_output,
      h.recent now le,
      add_entries-sums b'.baseline_input b'.baseline_output (keep (fresh b'.window now) b'.entries),
    )

-- The use is below the cap, or the cap does not bind.
abbrev pub IsBelow : ℤ → ℕ → Type 0
IsBelow (pos zero) n = Unit
IsBelow (pos (suc cap)) n = n < suc cap
IsBelow (negsuc _) n = Unit

IsBelow-over : (cap : ℤ) (n : ℕ) → (over cap n ≡ false) ↔ IsBelow cap n
IsBelow-over (pos zero) n = ground arith
IsBelow-over (pos (suc cap)) n = ground arith
IsBelow-over (negsuc _) n = ground arith

-- A request is allowed exactly when neither total is at its cap; a cap that is not positive does
-- not bind. The totals are the baseline set last and all that was used within the window.
pub allow_iff :
    (start now : Time) (input_cap output_cap : ℤ) (cs : List Call) (b : TokenBudget)
    → b.entries ≡ []
    → Clocked start cs
    → last_reading start cs ≤ now
    → let recent = keep (fresh b.window now) (used cs) in
      let p = baseline_after (b.baseline_input, b.baseline_output) cs in
      ((allow now input_cap output_cap (calls b cs)).1 ≡ true)
      ↔ (IsBelow input_cap (p.0 + input_sum recent) × IsBelow output_cap (p.1 + output_sum recent))
unfolding allow
allow_iff start now input_cap output_cap cs b e c le =
    let recent = keep (fresh b.window now) (used cs) in
    let p = baseline_after (b.baseline_input, b.baseline_output) cs in
    let exact = totals_exact start now cs b e c le in
    let i = IsBelow-over input_cap (p.0 + input_sum recent) in
    let o = IsBelow-over output_cap (p.1 + output_sum recent) in
    (
      λ h. (i.0 (ground (arith, exact)), o.0 (ground (arith, exact))),
      λ h. ground (arith, exact, i.1 h.0, o.1 h.1),
    )
