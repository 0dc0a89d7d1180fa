-- ===== src/Statepush/Emitter/Progress.antt =====
-- Left alone, the emitter comes to rest, with its last snapshot current.
use turborg.Base.{
  Bool-cases, refl, ◌∙◌, arith, ◌+◌, ◌<◌, ◌≤◌, Bool, ℕ, suc, ◌≡◌, true, false, ◌⊎◌, inl, inr,
}
use turborg.Statepush.Emitter.{
  own, collecting, fire, put, rearm, receive, receive_undebounced, returned, sending, waiting,
  Phase, State, Own, Reachable,
}
use turborg.Statepush.Emitter.Updates.{quiet_is_current}

-- Steps of the goroutine, counted, from a state on.
pub data OwnSteps (d : Bool) (s : State) : ℕ → State → Type 0 where
  none_yet : OwnSteps d s 0 s
  then_one : (n : ℕ) (t u : State) → OwnSteps d s n t → Own d t u → OwnSteps d s (suc n) u

abbrev phase_weight : Phase → ℕ
phase_weight waiting = 0
phase_weight sending = 1
phase_weight collecting = 2
phase_weight returned = 0

abbrev weight : Phase → Bool → ℕ
weight p true = phase_weight p + 3
weight p false = phase_weight p

abbrev state_weight : State → ℕ
state_weight s = weight s.phase s.notify

weight_fire : (b : Bool) → weight sending b < weight collecting b
weight_fire true = omega arith
weight_fire false = omega arith

weight_put : (b : Bool) → weight waiting b < weight sending b
weight_put true = omega arith
weight_put false = omega arith

Own-lighter : (d : Bool) (s t : State) → Own d s t → state_weight t < state_weight s
Own-lighter d _ _ (receive s _ p n) = rw (p, n) (omega arith)
Own-lighter d _ _ (receive_undebounced s _ p n) = rw (p, n) (omega arith)
Own-lighter d _ _ (rearm s p n) = rw (p, n) (omega arith)
Own-lighter d _ _ (fire s p) = rw p (weight_fire s.notify)
Own-lighter d _ _ (put s p) = rw p (weight_put s.notify)

weight_bounded : (p : Phase) (b : Bool) → weight p b ≤ 5
weight_bounded waiting true = omega arith
weight_bounded waiting false = omega arith
weight_bounded sending true = omega arith
weight_bounded sending false = omega arith
weight_bounded collecting true = omega arith
weight_bounded collecting false = omega arith
weight_bounded returned true = omega arith
weight_bounded returned false = omega arith

steps-lighter :
    (d : Bool) (s t : State) (n : ℕ) → OwnSteps d s n t → n + state_weight t ≤ state_weight s
steps-lighter d s _ _ none_yet = omega arith
steps-lighter d s _ _ (then_one n t u c o) =
    omega (arith, steps-lighter d s t n c, Own-lighter d t u o)

abbrev pub is_returned : Phase → Bool
is_returned returned = true
is_returned _ = false

-- What the goroutine leaves as it is: the state of the world, whether it is notified, and that it
-- has not returned.
abbrev Kept : State → State → Type 0
Kept s t =
    (t.version ≡ s.version)
    × (t.unnotified ≡ s.unnotified)
    × (is_returned t.phase ≡ is_returned s.phase)

Own-Kept : (d : Bool) (s t : State) → Own d s t → Kept s t
Own-Kept d _ _ (receive s _ p _) = (refl, refl, rw p refl)
Own-Kept d _ _ (receive_undebounced s _ p _) = (refl, refl, rw p refl)
Own-Kept d _ _ (rearm s _ _) = (refl, refl, refl)
Own-Kept d _ _ (fire s p) = (refl, refl, rw p refl)
Own-Kept d _ _ (put s p) = (refl, refl, rw p refl)

steps-Kept :
    (d : Bool) (s t : State) (n : ℕ) → Reachable d s → OwnSteps d s n t → Kept s t × Reachable d t
steps-Kept d s _ _ r none_yet = ((refl, refl, refl), r)
steps-Kept d s _ _ r (then_one n t u c o) =
    let ((v, a, b), reached) = steps-Kept d s t n r c in
    let (w, e, f) = Own-Kept d t u o in ((w ∙ v, e ∙ a, f ∙ b), own t u reached o)

Phase-cases :
    (p : Phase) → (p ≡ waiting) ⊎ (p ≡ collecting) ⊎ (p ≡ sending) ⊎ (is_returned p ≡ true)
Phase-cases waiting = inl refl
Phase-cases collecting = inr (inl refl)
Phase-cases sending = inr (inr (inl refl))
Phase-cases returned = inr (inr (inr refl))

-- A goroutine that waits with a notification pending goes on.
received : (d : Bool) (t : State) → t.phase ≡ waiting → t.notify ≡ true → (u : State) × Own d t u
received d t p n = elim (Bool-cases d) [
  | inl e ↦ (_, receive t e p n)
  | inr e ↦ (_, receive_undebounced t e p n)
]

-- From a state in which all changes are notified, the goroutine alone takes at most five steps; and
-- where it can go no further, unless it had returned, its last snapshot is the current state.
pub comes_to_rest :
    (d : Bool) (s t : State) (n : ℕ)
    → Reachable d s
    → s.unnotified ≡ false
    → is_returned s.phase ≡ false
    → OwnSteps d s n t
    → (n ≤ 5) × ((t.built ≡ s.version) ⊎ ((u : State) × Own d t u))
comes_to_rest d s t n r told running steps =
    let ((same, untold, still), reached) = steps-Kept d s t n r steps in
    (
      omega (arith, steps-lighter d s t n steps, weight_bounded s.phase s.notify),
      elim (Phase-cases t.phase) [
        | inl p ↦ elim (Bool-cases t.notify) [
          | inl full ↦ inr (received d t p full)
          | inr empty ↦ inl (quiet_is_current d t reached (untold ∙ told) empty (inl p) ∙ same)
        ]
        | inr (inl p) ↦ inr (_, fire t p)
        | inr (inr (inl p)) ↦ inr (_, put t p)
        | inr (inr (inr p)) ↦ absurd (ground arith)
      ],
    )
