-- ===== src/Statepush/Emitter/Updates.antt =====
-- No change is lost.
use turborg.Base.{arith, refl, Bool, ◌≡◌, true, false, ◌⊎◌, inl, inr}
use turborg.Statepush.Emitter.{
  new_emitter, fire, outside, own, put, rearm, receive, receive_undebounced, sending, start,
  waiting, change, collecting, flush, notify_change, returned, stop_collecting, stop_waiting, State,
  Outside, Own, Reachable,
}

-- The last snapshot is current, or something is still to come that will make one.
abbrev pub Covered : State → Type 0
Covered s =
    (s.built ≡ s.version)
    ⊎ (s.unnotified ≡ true)
    ⊎ (s.notify ≡ true)
    ⊎ (s.phase ≡ collecting)
    ⊎ (s.phase ≡ returned)

Outside-Covered : (s t : State) → Outside s t → Covered s → Covered t
Outside-Covered _ _ (change s) c = inr (inl refl)
Outside-Covered _ _ (notify_change s) c = inr (inr (inl refl))
Outside-Covered _ _ (flush s) c = inl refl
Outside-Covered _ _ (stop_waiting s e) c = inr (inr (inr (inr refl)))
Outside-Covered _ _ (stop_collecting s e) c = inr (inr (inr (inr refl)))

Own-Covered : (d : Bool) (s t : State) → Own d s t → Covered s → Covered t
Own-Covered d _ _ (receive s _ _ _) c = inr (inr (inr (inl refl)))
Own-Covered d _ _ (receive_undebounced s _ _ _) c = inl refl
Own-Covered d _ _ (rearm s e _) c = inr (inr (inr (inl e)))
Own-Covered d _ _ (fire s e) c = inl refl
Own-Covered d _ _ (put s e) (inl h) = inl h
Own-Covered d _ _ (put s e) (inr (inl h)) = inr (inl h)
Own-Covered d _ _ (put s e) (inr (inr (inl h))) = inr (inr (inl h))
Own-Covered d _ _ (put s e) (inr (inr (inr (inl h)))) = absurd (ground arith)
Own-Covered d _ _ (put s e) (inr (inr (inr (inr h)))) = absurd (ground arith)

pub Reachable-Covered : (d : Bool) (s : State) → Reachable d s → Covered s
unfolding new_emitter
Reachable-Covered d _ (start v) = inr (inl refl)
Reachable-Covered d _ (outside s t r o) = Outside-Covered s t o (Reachable-Covered d s r)
Reachable-Covered d _ (own s t r o) = Own-Covered d s t o (Reachable-Covered d s r)

-- In whatever order the steps were taken: where each change was notified, no notification is
-- pending and the goroutine neither gathers nor has returned, the last snapshot is the current
-- state.
pub quiet_is_current :
    (d : Bool) (s : State)
    → Reachable d s
    → s.unnotified ≡ false
    → s.notify ≡ false
    → (s.phase ≡ waiting) ⊎ (s.phase ≡ sending)
    → s.built ≡ s.version
quiet_is_current d s r u n p = elim (Reachable-Covered d s r) [
  | inl h ↦ h
  | inr (inl h) ↦ absurd (ground arith)
  | inr (inr (inl h)) ↦ absurd (ground arith)
  | inr (inr (inr (inl h))) ↦ absurd (ground arith)
  | inr (inr (inr (inr h))) ↦ absurd (ground arith)
]
