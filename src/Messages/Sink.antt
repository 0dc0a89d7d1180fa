-- ===== src/Messages/Sink.antt =====
-- internal/messagesink/sink.go: the sink, which gathers entries into batches for an endpoint. Its
-- goroutine and those that submit take their steps in any order, so it is a step relation; a step
-- ends where the mutex is released. The request of `post` is outside: its batch labels the step.
pub mod Delivered
pub mod Woken
mod Examples
use turborg.Base.{
  Bool, List, Str, [], ◌∷◌, ◌++◌, ◌-◌, ◌<◌, ◌≡◌, ℕ, suc, true, false, if◌then◌else◌, leb, ltb,
}
use turborg.Messages.Store.{drop}

-- `meta` is the text of its JSON form.
pub record Entry : Type 0 where
  pub msg_id : Str
  pub channel : Str
  pub nick : Str
  pub text : Str
  pub ts : Str
  pub kind : Str
  pub meta : Str

abbrev pub flush_batch_size : ℕ
flush_batch_size = 10

abbrev pub buffer_cap : ℕ
buffer_cap = 5000

-- Where the goroutine is: in the select of run, in flushOnce, returned, or (in Close) before the
-- last flush and after it.
pub data Phase : Type 0 where
  waiting flushing returned closed : Phase

-- `flush_ch` is whether the channel of that name, of capacity one, is full. `triggering` counts the
-- calls of Submit that have yet to send to it.
pub record State : Type 0 where
  pub buffer : List Entry
  pub buffer_size : ℕ
  pub flush_ch : Bool
  pub triggering : ℕ
  pub phase : Phase

abbrev pub new_sink : State
new_sink = record {
  buffer = [];
  buffer_size = 0;
  flush_ch = false;
  triggering = 0;
  phase = waiting;
}

-- How many entries a submission drops: bufferSize - bufferCap, after the new entry is counted.
abbrev pub excess : State → ℕ
excess s = if ltb buffer_cap (suc s.buffer_size) then suc s.buffer_size - buffer_cap else 0

-- Submit, up to the release of the mutex.
unfoldable pub submit : Entry → State → State
unfolding drop
submit entry s =
    let grown = s.buffer ++ entry ∷ [] in
    let size = suc s.buffer_size - excess s in
    record s {
      buffer = if ltb buffer_cap (suc s.buffer_size) then drop (excess s) grown else grown;
      buffer_size = size;
      triggering = if leb flush_batch_size size then suc s.triggering else s.triggering;
    }

-- flushOnce, with the batch that is handed to `post`; an empty one stands for no request.
unfoldable pub flush_once : State → List Entry × State
flush_once s = (s.buffer, record s { buffer = []; buffer_size = 0 })

pub data Label : Type 0 where
  submitted : Entry → ℕ → Label
  posted : List Entry → Label
  silent : Label

-- One step. A flush is begun by the ticker, by the channel, or by Close.
pub data Step : State → Label → State → Type 0 where
  submits : (s : State) (entry : Entry) → Step s (submitted entry (excess s)) (submit entry s)
  triggers :
      (s : State)
      → 0 < s.triggering
      → Step s silent (record s { flush_ch = true; triggering = s.triggering - 1 })
  ticks : (s : State) → s.phase ≡ waiting → Step s silent (record s { phase = flushing })
  wakes :
      (s : State)
      → s.phase ≡ waiting
      → s.flush_ch ≡ true
      → Step s silent (record s { phase = flushing; flush_ch = false })
  flushes :
      (s : State)
      → s.phase ≡ flushing
      → Step s (posted (flush_once s).0) (record (flush_once s).1 { phase = waiting })
  returns : (s : State) → s.phase ≡ waiting → Step s silent (record s { phase = returned })
  closes :
      (s : State)
      → s.phase ≡ returned
      → Step s (posted (flush_once s).0) (record (flush_once s).1 { phase = closed })

pub data Run : State → List Label → State → Type 0 where
  rest : (s : State) → Run s [] s
  then_run :
      (s t u : State) (label : Label) (labels : List Label)
      → Step s label t
      → Run t labels u
      → Run s (label ∷ labels) u
