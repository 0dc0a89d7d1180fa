-- ===== src/Irc/UpstreamState/Transitions.antt =====
-- What a subscriber learns of the transitions.
use turborg.Base.Map.{lookup, lookup-delete, lookup-insert}
use turborg.Base.Time.{Time}
use turborg.Base.{
  arith, str_beq_iff, str_eq, suc, ◌<◌, ◌∙◌, ◌≤◌, nat_eq, Option, ap, inl, inr, refl, str_beq,
  str_ne, List, Str, [], none, some, ℕ, ◌∷◌, ◌≡◌, ◌≢◌, Bool-cases,
}
use turborg.Irc.UpstreamState.Classes.{value-injective}
use turborg.Irc.UpstreamState.{
  UpstreamState, UpstreamStateChange, UpstreamStateMachine, value, commit, subscribe, unsubscribe,
}

-- Changes that lead from one state to another, each starting where the one before it ended, and
-- none of which stays where it is.
abbrev pub IsChain : UpstreamState → List UpstreamStateChange → UpstreamState → Type 0
IsChain s [] t = s ≡ t
IsChain s (c ∷ cs) t = (s ≡ c.from) × (c.from ≢ c.to) × IsChain c.to cs t

-- What calls of several goroutines come to, under the lock: commits, and changes of the
-- subscriptions, in any order.
pub data Call (Subscriber : Type 0) : Type 0 where
  committing : UpstreamState → Str → Time → Call Subscriber
  subscribing : Subscriber → Call Subscriber
  unsubscribing : ℕ → Call Subscriber

abbrev Leads : UpstreamState → Option UpstreamStateChange → UpstreamState → Type 0
Leads s none t = s ≡ t
Leads s (some c) t = (s ≡ c.from) × (c.from ≢ c.to) × (c.to ≡ t)

extend :
    (s t u : UpstreamState) (change : Option UpstreamStateChange)
    (changes : List UpstreamStateChange)
    → Leads s change t
    → IsChain t changes u
    → IsChain s (elim change [ none ↦ changes | some c ↦ c ∷ changes ]) u
extend s t u none changes h k = (rw h k)
extend s t u (some c) changes h k = (h.0, h.1, (rw h.2 k))

module _ {Subscriber : Type 0} where
  -- The machine after some calls, with the changes that were committed.
  unfoldable pub run :
      List (Call Subscriber)
      → UpstreamStateMachine Subscriber
      → UpstreamStateMachine Subscriber × List UpstreamStateChange
  run [] m = (m, [])
  run (committing to reason now ∷ calls) m =
      let (after, change) = commit to reason now m in
      let (last, changes) = run calls after in
      (last, elim change [ none ↦ changes | some c ↦ c ∷ changes ])
  run (subscribing f ∷ calls) m = run calls (subscribe f m).0
  run (unsubscribing id ∷ calls) m = run calls (unsubscribe id m)

  commit-Leads :
      (to : UpstreamState) (reason : Str) (now : Time) (m : UpstreamStateMachine Subscriber)
      → Leads m.state (commit to reason now m).1 (commit to reason now m).0.state
  unfolding commit
  commit-Leads to reason now m = elim (Bool-cases (str_beq (value m.state) (value to))) [
    | inl e ↦ rw e refl
    | inr e ↦ rw e (refl, (λ k. str_ne (value m.state) (value to) e (ap value k)), refl)
  ]

  -- Whatever goroutines commit transitions and change the subscriptions, the committed changes
  -- lead, each from where the one before it ended and none to where it began, from the state
  -- before the calls to the state after them.
  pub run-IsChain :
      (calls : List (Call Subscriber)) (m : UpstreamStateMachine Subscriber)
      → IsChain m.state (run calls m).1 (run calls m).0.state
  unfolding run subscribe unsubscribe
  run-IsChain [] m = refl
  run-IsChain (committing to reason now ∷ calls) m =
      let after = commit to reason now m in
      extend m.state after.0.state (run calls after.0).0.state after.1 (run calls after.0).1
        (commit-Leads to reason now m) (run-IsChain calls after.0)
  run-IsChain (subscribing f ∷ calls) m = run-IsChain calls (subscribe f m).0
  run-IsChain (unsubscribing id ∷ calls) m = run-IsChain calls (unsubscribe id m)

  commit-state :
      (to : UpstreamState) (reason : Str) (now : Time) (m : UpstreamStateMachine Subscriber)
      → (commit to reason now m).0.state ≡ to
  unfolding commit
  commit-state to reason now m = elim (Bool-cases (str_beq (value m.state) (value to))) [
    | inl e ↦ rw e (value-injective m.state to ((str_beq_iff (value m.state) (value to)).0 e))
    | inr e ↦ rw e refl
  ]

  abbrev pub last_target : UpstreamState → List (Call Subscriber) → UpstreamState
  last_target s [] = s
  last_target s (committing to reason now ∷ calls) = last_target to calls
  last_target s (subscribing f ∷ calls) = last_target s calls
  last_target s (unsubscribing id ∷ calls) = last_target s calls

  -- The state is the target of the last transition that was asked for, whether or not it was one
  -- to the current state.
  pub run-state :
      (calls : List (Call Subscriber)) (m : UpstreamStateMachine Subscriber)
      → (run calls m).0.state ≡ last_target m.state calls
  unfolding run subscribe unsubscribe
  run-state [] m = refl
  run-state (committing to reason now ∷ calls) m =
      run-state calls (commit to reason now m).0
      ∙ ap (λ (s : UpstreamState). last_target s calls) (commit-state to reason now m)
  run-state (subscribing f ∷ calls) m = run-state calls (subscribe f m).0
  run-state (unsubscribing id ∷ calls) m = run-state calls (unsubscribe id m)

  commit-subscribers :
      (to : UpstreamState) (reason : Str) (now : Time) (m : UpstreamStateMachine Subscriber)
      → let after = (commit to reason now m).0 in
        (after.subscribers ≡ m.subscribers) × (after.next_sub_id ≡ m.next_sub_id)
  unfolding commit
  commit-subscribers to reason now m = elim (Bool-cases (str_beq (value m.state) (value to))) [
    | inl e ↦ rw e (refl, refl)
    | inr e ↦ rw e (refl, refl)
  ]

  -- The handle was given out, and nobody gives it back.
  abbrev pub IsKept : ℕ → List (Call Subscriber) → Type 0
  IsKept id [] = Unit {0}
  IsKept id (committing to reason now ∷ calls) = IsKept id calls
  IsKept id (subscribing f ∷ calls) = IsKept id calls
  IsKept id (unsubscribing j ∷ calls) = (j ≢ id) × IsKept id calls

  -- A subscriber that nobody unsubscribes stays subscribed under its handle, whatever transitions
  -- happen and whoever else comes and goes: no later handle is the same as its own.
  pub subscriber_stays :
      (f : Subscriber) (id : ℕ) (calls : List (Call Subscriber))
      (m : UpstreamStateMachine Subscriber)
      → id ≤ m.next_sub_id
      → lookup id m.subscribers ≡ some f
      → IsKept id calls
      → lookup id (run calls m).0.subscribers ≡ some f
  unfolding run subscribe unsubscribe
  subscriber_stays f id [] m given h k = h
  subscriber_stays f id (committing to reason now ∷ calls) m given h k =
      let after = (commit to reason now m).0 in
      let (subs, next) = commit-subscribers to reason now m in
      subscriber_stays f id calls after (ground (arith, given, next)) (ap (lookup id) subs ∙ h) k
  subscriber_stays f id (subscribing g ∷ calls) m given h k =
      subscriber_stays f id calls (subscribe g m).0 (omega arith)
        (lookup-insert (suc m.next_sub_id) id g m.subscribers ∙ ground (arith, given, h)) k
  subscriber_stays f id (unsubscribing j ∷ calls) m given h k =
      subscriber_stays f id calls (unsubscribe j m) given
        (lookup-delete j id m.subscribers ∙ ground (arith, k.0, h)) k.1

  -- A new handle is not in use, and subscribing puts the handler under it, before any transition.
  pub subscribe-fresh :
      (f : Subscriber) (m : UpstreamStateMachine Subscriber)
      → let (after, id) = subscribe f m in
        (lookup id after.subscribers ≡ some f) × (m.next_sub_id < id) × (id ≤ after.next_sub_id)
  unfolding subscribe
  subscribe-fresh f m = (
    lookup-insert (suc m.next_sub_id) (suc m.next_sub_id) f m.subscribers ∙ ground arith,
    omega arith,
    omega arith,
  )
