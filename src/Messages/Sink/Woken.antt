-- ===== src/Messages/Sink/Woken.antt =====
-- A batch that is full does not wait for the ticker.
use turborg.Base.{
  List, [], ◌∷◌, ◌-◌, ◌<◌, ◌≤◌, ◌≡◌, ◌⊎◌, ℕ, suc, zero, true, leb, length, length-append, arith,
  refl, inl, inr, Bool-cases, ◌++◌,
}
use turborg.Messages.Store.{drop}
use turborg.Messages.Sink.{
  Entry, State, Label, Step, Run, submits, triggers, ticks, wakes, flushes, returns, closes, rest,
  then_run, flushing, returned, closed, submit, excess, flush_once, new_sink, buffer_cap,
  flush_batch_size,
}

pub length-drop : (n : ℕ) (xs : List Entry) → length (drop n xs) ≡ length xs - n
unfolding drop
length-drop n [] = omega arith
length-drop zero (x ∷ xs) = omega arith
length-drop (suc n) (x ∷ xs) = omega (arith, length-drop n xs)

-- The counter is the length of the buffer, which never exceeds its bound. From ten entries on, the
-- goroutine is about to flush, or a signal for it is in the channel or on its way; after Close it
-- only has the last flush before it.
pub record IsWoken (s : State) : Type 0 where
  pub exact : s.buffer_size ≡ length s.buffer
  pub bounded : s.buffer_size ≤ buffer_cap
  pub full :
      (s.buffer_size < flush_batch_size)
      ⊎ (s.phase ≡ flushing)
      ⊎ (s.flush_ch ≡ true)
      ⊎ (0 < s.triggering)
      ⊎ (s.phase ≡ returned)
      ⊎ (s.phase ≡ closed)

submit-length :
    (entry : Entry) (s : State)
    → s.buffer_size ≡ length s.buffer
    → (submit entry s).buffer_size ≡ length (submit entry s).buffer
unfolding submit
submit-length entry s h =
    ground
      (arith, length-append s.buffer (entry ∷ []), length-drop (excess s) (s.buffer ++ entry ∷ []))

submit-IsWoken : (entry : Entry) (s : State) → IsWoken s → IsWoken (submit entry s)
unfolding submit
submit-IsWoken entry s w = record {
  exact = submit-length entry s w.exact;
  bounded = ground (arith, w.bounded);
  full = elim (Bool-cases (leb flush_batch_size (suc s.buffer_size - excess s))) [
    | inl e ↦ rw e (inr (inr (inr (inl (omega arith)))))
    | inr e ↦ inl (ground arith)
  ];
}

pub Step-IsWoken : (s t : State) (label : Label) → Step s label t → IsWoken s → IsWoken t
unfolding flush_once
Step-IsWoken s _ _ (submits _ entry) w = submit-IsWoken entry s w
Step-IsWoken s _ _ (triggers _ some_left) w = record {
  exact = w.exact;
  bounded = w.bounded;
  full = inr (inr (inl refl));
}
Step-IsWoken s _ _ (ticks _ at) w = record {
  exact = w.exact;
  bounded = w.bounded;
  full = inr (inl refl);
}
Step-IsWoken s _ _ (wakes _ at signalled) w = record {
  exact = w.exact;
  bounded = w.bounded;
  full = inr (inl refl);
}
Step-IsWoken s _ _ (flushes _ at) w = record {
  exact = refl;
  bounded = omega arith;
  full = inl (omega arith);
}
Step-IsWoken s _ _ (returns _ at) w = record {
  exact = w.exact;
  bounded = w.bounded;
  full = inr (inr (inr (inr (inl refl))));
}
Step-IsWoken s _ _ (closes _ at) w = record {
  exact = refl;
  bounded = omega arith;
  full = inl (omega arith);
}

Run-IsWoken : (s u : State) (labels : List Label) → Run s labels u → IsWoken s → IsWoken u
Run-IsWoken s _ _ (rest _) w = w
Run-IsWoken s u _ (then_run _ t _ label labels step run) w =
    Run-IsWoken t u labels run (Step-IsWoken s t label step w)

pub new-IsWoken : IsWoken new_sink
new-IsWoken = record { exact = refl; bounded = omega arith; full = inl (omega arith) }

-- In every state that a sink reaches, however its goroutine and the calls of Submit interleave, the
-- counter is exact and at most 5000, and no full batch waits for the ticker: a flush is under way,
-- its signal is in the channel or about to be sent, or Close has been called.
pub batch_wakes : (labels : List Label) (u : State) → Run new_sink labels u → IsWoken u
batch_wakes labels u run = Run-IsWoken new_sink u labels run new-IsWoken
