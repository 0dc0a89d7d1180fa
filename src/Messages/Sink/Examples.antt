-- ===== src/Messages/Sink/Examples.antt =====
-- A run of the sink: an entry is submitted and posted with the next tick, another one waits.
use turborg.Base.{List, Str, [], ◌∷◌, ◌++◌, ◌+◌, ◌≡◌, refl, length}
use turborg.Base.Text.{codes}
use turborg.Messages.Sink.{
  Entry, State, Label, Run, submitted, posted, silent, submits, ticks, flushes, rest, then_run,
  submit, flush_once, new_sink, waiting, flushing,
}
use turborg.Messages.Sink.Woken.{IsWoken, batch_wakes}
use turborg.Messages.Sink.Delivered.{Among, delivered_in_order, submitted_of, posted_of, dropped_of}

abbrev entry : Str → Entry
entry id = record {
  msg_id = id;
  channel = codes "#go";
  nick = codes "mara";
  text = codes "hello";
  ts = [];
  kind = [];
  meta = [];
}

abbrev first : Entry
first = entry (codes "1")

abbrev second : Entry
second = entry (codes "2")

abbrev filled : State
filled = submit first new_sink

abbrev about_to_flush : State
about_to_flush = record filled { phase = flushing }

abbrev emptied : State
emptied = record (flush_once about_to_flush).1 { phase = waiting }

abbrev labels : List Label
labels = submitted first 0 ∷ silent ∷ posted (first ∷ []) ∷ submitted second 0 ∷ []

filled_waits : filled.phase ≡ waiting
unfolding submit
filled_waits = refl

run_here : Run new_sink labels (submit second emptied)
unfolding submit flush_once
run_here = then_run new_sink filled (submit second emptied) _ _ (submits new_sink first) (
    then_run filled about_to_flush (submit second emptied) _ _ (ticks filled filled_waits) (
      then_run about_to_flush emptied (submit second emptied) _ _ (flushes about_to_flush refl) (
        then_run emptied (submit second emptied) (submit second emptied) _ _
          (submits emptied second) (rest (submit second emptied)))))

batch_wakes_example : IsWoken (submit second emptied)
batch_wakes_example = batch_wakes labels (submit second emptied) run_here

delivered_in_order_example :
    Among (posted_of labels ++ (submit second emptied).buffer) (submitted_of labels)
    × (length (posted_of labels ++ (submit second emptied).buffer) + dropped_of labels
        ≡ length (submitted_of labels))
delivered_in_order_example = delivered_in_order labels (submit second emptied) run_here
