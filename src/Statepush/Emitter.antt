-- ===== src/Statepush/Emitter.antt =====
-- internal/statepush/state_emitter.go: the emitter, which gathers notifications of changes into
-- snapshots. Its goroutine, the goroutines that notify it and the state that it reports take their
-- steps in any order, so the emitter is a step relation. A state of the world is a version number;
-- a snapshot is the version that is current when it is built. The duration of the debounce window
-- is left open: a timer that runs may fire at any time.
pub mod Progress
pub mod Updates
mod Examples
use turborg.Base.{Bool, ℕ, suc, ◌≡◌, true, false}

-- Where the goroutine is: in the select of run, in collect, in send, or returned.
pub data Phase : Type 0 where
  waiting collecting sending returned : Phase

-- `notify` is whether the channel of that name, of capacity one, is full. `unnotified` is whether
-- the world has changed without a call of NotifyChange since. `built` is the last snapshot.
pub record State : Type 0 where
  pub version : ℕ
  pub unnotified : Bool
  pub notify : Bool
  pub phase : Phase
  pub built : ℕ

-- NewEmitter, at a version of the world that was never sent.
unfoldable pub new_emitter : ℕ → State
new_emitter v = record {
  version = suc v;
  unnotified = true;
  notify = false;
  phase = waiting;
  built = v;
}

-- The steps of others: a change, NotifyChange, Stop, and Flush.
pub data Outside : State → State → Type 0 where
  change : (s : State) → Outside s (record s { version = suc s.version; unnotified = true })
  notify_change : (s : State) → Outside s (record s { notify = true; unnotified = false })
  flush : (s : State) → Outside s (record s { built = s.version })
  stop_waiting : (s : State) → s.phase ≡ waiting → Outside s (record s { phase = returned })
  stop_collecting : (s : State) → s.phase ≡ collecting → Outside s (record s { phase = returned })

-- The steps of the goroutine. Without a debounce window a notification is sent at once.
pub data Own (debounced : Bool) : State → State → Type 0 where
  receive :
      (s : State)
      → debounced ≡ true
      → s.phase ≡ waiting
      → s.notify ≡ true
      → Own debounced s (record s { notify = false; phase = collecting })
  receive_undebounced :
      (s : State)
      → debounced ≡ false
      → s.phase ≡ waiting
      → s.notify ≡ true
      → Own debounced s (record s { notify = false; phase = sending; built = s.version })
  rearm :
      (s : State)
      → s.phase ≡ collecting
      → s.notify ≡ true
      → Own debounced s (record s { notify = false })
  fire :
      (s : State)
      → s.phase ≡ collecting
      → Own debounced s (record s { phase = sending; built = s.version })
  put : (s : State) → s.phase ≡ sending → Own debounced s (record s { phase = waiting })

pub data Reachable (debounced : Bool) : State → Type 0 where
  start : (v : ℕ) → Reachable debounced (new_emitter v)
  outside : (s t : State) → Reachable debounced s → Outside s t → Reachable debounced t
  own : (s t : State) → Reachable debounced s → Own debounced s t → Reachable debounced t
