-- ===== src/Irc/Backoff/Schedule.antt =====
-- Which entry of the schedule a call uses.
use turborg.Base.{
  ap, inl, inr, ◌-◌, ◌∙◌, arith, refl, ◌+◌, ◌≤◌, List, [], if◌then◌else◌, leb, length, suc, zero, ℕ,
  ◌∷◌, ◌≡◌, Bool-cases,
}
use turborg.Base.Result.{done, panicked}
use turborg.Irc.Backoff.{BackoffSchedule, element, next, next_index, reset}

abbrev min : ℕ → ℕ → ℕ
min a b = if leb a b then a else b

-- The entry at `k`, the last one where the schedule is shorter.
abbrev pub entry : ℕ → List ℕ → ℕ → ℕ
entry d [] k = d
entry d (e ∷ base) zero = d
entry d (e ∷ base) (suc k) = entry e base k

element-entry :
    (d : ℕ) (base : List ℕ) (k : ℕ) → k ≤ length base → element (d ∷ base) k ≡ done (entry d base k)
unfolding element
element-entry d [] zero h = refl
element-entry d [] (suc k) h = absurd (ground (arith, h))
element-entry d (e ∷ base) zero h = refl
element-entry d (e ∷ base) (suc k) h = element-entry e base k (ground (arith, h))

entry-last :
    (d : ℕ) (base : List ℕ) (k : ℕ) → length base ≤ k → entry d base (length base) ≡ entry d base k
entry-last d [] k h = refl
entry-last d (e ∷ base) zero h = absurd (ground (arith, h))
entry-last d (e ∷ base) (suc k) h = entry-last e base k (ground (arith, h))

-- The entry that Next reads, of a schedule whose position is `i`.
picked :
    (d : ℕ) (base bs : List ℕ) (i k : ℕ)
    → bs ≡ d ∷ base
    → i ≡ min k (suc (length base))
    → element bs (if leb (length bs) i then length bs - 1 else i) ≡ done (entry d base k)
picked d base bs i k h e =
    rw (h, e)
      elim (Bool-cases (leb k (length base))) [
        | inl small ↦
            ap (element (d ∷ base)) (ground (arith, small))
            ∙ element-entry d base k (ground (arith, small))
        | inr large ↦
            ap (element (d ∷ base)) (ground (arith, large))
            ∙ element-entry d base (length base) (omega arith)
            ∙ ap done (entry-last d base k (ground (arith, large)))
      ]

next_index-facts :
    (b : BackoffSchedule)
    → b.idx ≤ length b.base
    → let (after, i) = next_index b in
      (after.base ≡ b.base)
      × (after.jitter ≡ b.jitter)
      × (after.idx ≡ min (suc b.idx) (length b.base))
      × (i ≡ (if leb (length b.base) b.idx then length b.base - 1 else b.idx))
unfolding next_index
next_index-facts b h = elim (Bool-cases (leb (length b.base) b.idx)) [
  | inl e ↦ rw e (refl, refl, ground (arith, h, e), refl)
  | inr e ↦ rw e (refl, refl, ground (arith, h, e), refl)
]

module _ {Draw : Type 0} (jittered : Draw → ℕ → ℕ) where
  -- The schedule after a call of Next for each draw.
  unfoldable pub call_all : List Draw → BackoffSchedule → BackoffSchedule
  call_all [] b = b
  call_all (draw ∷ draws) b = call_all draws (next jittered draw b).0

  call_all-facts :
      (draws : List Draw) (b : BackoffSchedule)
      → b.idx ≤ length b.base
      → let after = call_all draws b in
        (after.base ≡ b.base)
        × (after.jitter ≡ b.jitter)
        × (after.idx ≡ min (b.idx + length draws) (length b.base))
  unfolding call_all next
  call_all-facts [] b h = (refl, refl, ground (arith, h))
  call_all-facts (draw ∷ draws) b h =
      let mid = (next_index b).0 in
      let (base, jitter, idx, _) = next_index-facts b h in
      let (base', jitter', idx') = call_all-facts draws mid (rw (idx, base) (ground (arith, h))) in
      (
        base' ∙ base,
        jitter' ∙ jitter,
        idx' ∙ ap (min (mid.idx + length draws)) (ap length base) ∙ ground (arith, idx, h),
      )

  next-entry :
      (draw : Draw) (d : ℕ) (base : List ℕ) (k : ℕ) (b : BackoffSchedule)
      → b.idx ≤ length b.base
      → b.base ≡ d ∷ base
      → b.idx ≡ min k (suc (length base))
      → (next jittered draw b).1
        ≡ done (if b.jitter then jittered draw (entry d base k) else entry d base k)
  unfolding next
  next-entry draw d base k b small h e =
      let (_, _, _, i) = next_index-facts b small in
      ap
        (λ j. elim (element b.base j) [
          | panicked ↦ panicked
          | done t ↦ done (if b.jitter then jittered draw t else t)
        ])
        i
      ∙ ap
          (λ o. elim o [
            | panicked ↦ panicked
            | done t ↦ done (if b.jitter then jittered draw t else t)
          ])
          (picked d base b.base b.idx k h e)

  -- After a reset, the call of Next that comes after `k` others sleeps for the entry at `k` of the
  -- schedule, or for the last entry once the schedule is used up, with the jitter of its own draw;
  -- it never panics.
  pub next_after :
      (draws : List Draw) (draw : Draw) (d : ℕ) (base : List ℕ) (b : BackoffSchedule)
      → b.base ≡ d ∷ base
      → let after = call_all draws (reset b) in
        let t = entry d base (length draws) in
        (next jittered draw after).1 ≡ done (if b.jitter then jittered draw t else t)
  unfolding reset
  next_after draws draw d base b h =
      let start = record b { idx = 0 } in
      let after = call_all draws start in
      let (same, jitter, idx) = call_all-facts draws start (omega arith) in
      let long = ap length (same ∙ h) in
      let idx' : after.idx ≡ min (length draws) (suc (length base)) =
        ground (arith, idx, ap length h) in
      next-entry draw d base (length draws) after (ground (arith, idx', long)) (same ∙ h) idx'
      ∙ ap
          (λ j. done (
            if j then jittered draw (entry d base (length draws)) else entry d base (length draws)))
          jitter
