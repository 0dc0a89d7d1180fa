-- ===== src/Messages/Sink/Delivered.antt =====
-- What becomes of the entries that are submitted.
use turborg.Base.{
  ap, ◌-◌, List, [], ◌∷◌, ◌+◌, ◌≡◌, ℕ, suc, zero, length, length-append, ◌++◌, arith, sym,
  Bool-cases, inl, inr, ltb,
}
use mathlib.Core.List.{append_assoc, append-nil}
use mathlib.Core.Path.{subst}
use turborg.Messages.Store.{drop}
use turborg.Messages.Sink.{
  Run, new_sink, rest, then_run, Entry, State, Label, submitted, posted, silent, Step, submits,
  triggers, ticks, wakes, flushes, returns, closes, submit, excess, flush_once, buffer_cap,
}
use turborg.Messages.Sink.Woken.{IsWoken, new-IsWoken, Step-IsWoken, length-drop}

-- What was submitted, posted and dropped in a run.
unfoldable pub submitted_of : List Label → List Entry
submitted_of [] = []
submitted_of (submitted entry dropped ∷ labels) = entry ∷ submitted_of labels
submitted_of (posted batch ∷ labels) = submitted_of labels
submitted_of (silent ∷ labels) = submitted_of labels

unfoldable pub posted_of : List Label → List Entry
posted_of [] = []
posted_of (submitted entry dropped ∷ labels) = posted_of labels
posted_of (posted batch ∷ labels) = batch ++ posted_of labels
posted_of (silent ∷ labels) = posted_of labels

unfoldable pub dropped_of : List Label → ℕ
dropped_of [] = 0
dropped_of (submitted entry dropped ∷ labels) = dropped + dropped_of labels
dropped_of (posted batch ∷ labels) = dropped_of labels
dropped_of (silent ∷ labels) = dropped_of labels

-- Some of the entries, in their order.
pub data Among : List Entry → List Entry → Type 0 where
  none_left : Among [] []
  taken : (x : Entry) (xs ys : List Entry) → Among xs ys → Among (x ∷ xs) (x ∷ ys)
  left_out : (x : Entry) (xs ys : List Entry) → Among xs ys → Among xs (x ∷ ys)

Among-refl : (xs : List Entry) → Among xs xs
Among-refl [] = none_left
Among-refl (x ∷ xs) = taken x xs xs (Among-refl xs)

Among-prefix : (zs xs ys : List Entry) → Among xs ys → Among (zs ++ xs) (zs ++ ys)
Among-prefix [] xs ys a = a
Among-prefix (z ∷ zs) xs ys a = taken z (zs ++ xs) (zs ++ ys) (Among-prefix zs xs ys a)

Among-drop : (n : ℕ) (xs ys zs : List Entry) → Among xs (drop n ys ++ zs) → Among xs (ys ++ zs)
unfolding drop
Among-drop n xs [] zs a = a
Among-drop zero xs (y ∷ ys) zs a = a
Among-drop (suc n) xs (y ∷ ys) zs a = left_out y xs (ys ++ zs) (Among-drop n xs ys zs a)

submit-Among :
    (entry : Entry) (s : State) (xs zs : List Entry)
    → Among xs ((submit entry s).buffer ++ zs)
    → Among xs (s.buffer ++ entry ∷ zs)
unfolding submit
submit-Among entry s xs zs a =
    let grown = s.buffer ++ entry ∷ [] in
    let all = append_assoc s.buffer (entry ∷ []) zs in
    elim (Bool-cases (ltb buffer_cap (suc s.buffer_size))) [
      | inl e ↦
          subst (Among xs) all (Among-drop (suc s.buffer_size - buffer_cap) xs grown zs (rw e at a))
      | inr e ↦ subst (Among xs) all (rw e at a)
    ]

submit-count :
    (entry : Entry) (s : State)
    → s.buffer_size ≡ length s.buffer
    → length (submit entry s).buffer + excess s ≡ suc (length s.buffer)
unfolding submit
submit-count entry s h =
    ground
      (arith, length-append s.buffer (entry ∷ []), length-drop (excess s) (s.buffer ++ entry ∷ []))

abbrev Accounted : State → List Label → State → Type 0
Accounted s labels u =
    Among (posted_of labels ++ u.buffer) (s.buffer ++ submitted_of labels)
    × (length (posted_of labels ++ u.buffer) + dropped_of labels
        ≡ length (s.buffer ++ submitted_of labels))

-- A batch in front of what is accounted for.
flushed-Accounted :
    (batch left given passed : List Entry) (dropped : ℕ)
    → Among (passed ++ left) given
    → length (passed ++ left) + dropped ≡ length given
    → Among ((batch ++ passed) ++ left) (batch ++ given)
      × (length ((batch ++ passed) ++ left) + dropped ≡ length (batch ++ given))
flushed-Accounted batch left given passed dropped a n =
    let same = append_assoc batch passed left in
    (
      subst (λ xs. Among xs (batch ++ given)) (sym same)
          (Among-prefix batch (passed ++ left) given a),
      ground (
        arith,
        n,
        ap length same,
        length-append batch (passed ++ left),
        length-append batch given,
      ),
    )

-- A step in front of a run whose entries are accounted for.
Step-Accounted :
    (s t u : State) (label : Label) (labels : List Label)
    → Step s label t
    → s.buffer_size ≡ length s.buffer
    → Accounted t labels u
    → Accounted s (label ∷ labels) u
unfolding submitted_of posted_of dropped_of flush_once
Step-Accounted s _ u _ labels (submits _ entry) h (a, n) = (
  submit-Among entry s (posted_of labels ++ u.buffer) (submitted_of labels) a,
  ground (
    arith,
    n,
    submit-count entry s h,
    length-append (submit entry s).buffer (submitted_of labels),
    length-append s.buffer (entry ∷ submitted_of labels),
  ),
)
Step-Accounted s _ u _ labels (triggers _ some_left) h k = k
Step-Accounted s _ u _ labels (ticks _ at) h k = k
Step-Accounted s _ u _ labels (wakes _ at signalled) h k = k
Step-Accounted s _ u _ labels (returns _ at) h k = k
Step-Accounted s _ u _ labels (flushes _ at) h (a, n) =
    flushed-Accounted s.buffer u.buffer (submitted_of labels) (posted_of labels) (dropped_of labels)
      a n
Step-Accounted s _ u _ labels (closes _ at) h (a, n) =
    flushed-Accounted s.buffer u.buffer (submitted_of labels) (posted_of labels) (dropped_of labels)
      a n

Run-Accounted :
    (s u : State) (labels : List Label) → Run s labels u → IsWoken s → Accounted s labels u
unfolding submitted_of posted_of dropped_of
Run-Accounted s _ _ (rest _) w = (
  subst (Among s.buffer) (sym (append-nil s.buffer)) (Among-refl s.buffer),
  omega (arith, length-append s.buffer []),
)
Run-Accounted s u _ (then_run _ t _ label labels step run) w =
    Step-Accounted s t u label labels step w.exact
      (Run-Accounted t u labels run (Step-IsWoken s t label step w))

-- However the goroutine and the calls of Submit interleave, what was posted and what waits are
-- entries that were submitted, in the order of their submission and none of them twice, and the
-- number of the others is the sum of what the submissions dropped as the excess over 5000.
pub delivered_in_order :
    (labels : List Label) (u : State)
    → Run new_sink labels u
    → Among (posted_of labels ++ u.buffer) (submitted_of labels)
      × (length (posted_of labels ++ u.buffer) + dropped_of labels ≡ length (submitted_of labels))
delivered_in_order labels u run = Run-Accounted new_sink u labels run new-IsWoken
