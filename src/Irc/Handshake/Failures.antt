-- ===== src/Irc/Handshake/Failures.antt =====
-- The state that a failed handshake leaves.
use turborg.Base.{
  Bool-cases, Option-cases, ap, arith, inl, inr, str_beq, str_beq_iff, sym, ◌∙◌, ◌⊎◌, or_zero, refl,
  ◌≡◌, Bool, List, Option, Str, [], none, some, true, ◌==◌, ◌∷◌, ◌++◌, str_eq,
}
use mathlib.Core.Path.{subst}
use turborg.Base.Text.{codes}
use turborg.Irc.Protocol.{Message, parse}
use turborg.Irc.Nicknames.{Nicks, next_fallback_nick}
use turborg.Irc.UpstreamState.{
  UpstreamState, disconnected_nick_invalid, disconnected_auth_failed, disconnected_banned,
  classify_numeric,
}
use turborg.Irc.Handshake.{
  Reply, answer, classified, complete, failed, fall_back, go_on, go_on_with, is_handshake_complete,
  nick_in_use, on_line, other_reply, welcomed, banned, moved, nick_erroneous, nick_unavailable,
  nicks_exhausted, noticed, password_rejected, refusal, reply_of, wrote, Verdict, Output, Failure,
  await_handshake,
}

-- The last transition, if there is one.
unfoldable pub last_move : List Output → Option UpstreamState
last_move [] = none
last_move (moved state reason ∷ out) = some (or_zero (last_move out) state)
last_move (wrote line ∷ out) = last_move out
last_move (noticed kind text ∷ out) = last_move out

-- The state that a refusal of the server stands for.
abbrev pub state_for : Failure → Option UpstreamState
state_for nicks_exhausted = some disconnected_nick_invalid
state_for nick_erroneous = some disconnected_nick_invalid
state_for nick_unavailable = some disconnected_nick_invalid
state_for password_rejected = some disconnected_auth_failed
state_for banned = some disconnected_banned
state_for _ = none

last_move-append :
    (a b : List Output) (state : UpstreamState)
    → last_move b ≡ some state
    → last_move (a ++ b) ≡ some state
unfolding last_move
last_move-append [] b state h = h
last_move-append (moved s r ∷ a) b state h = rw (last_move-append a b state h) refl
last_move-append (wrote line ∷ a) b state h = last_move-append a b state h
last_move-append (noticed kind text ∷ a) b state h = last_move-append a b state h

abbrev reply_state : Reply → Option UpstreamState
reply_state (refusal f) = state_for f
reply_state _ = none

-- At a numeric of which both are known.
refusal_at :
    (numeric c : Str) (f : Failure) (state : UpstreamState)
    → classify_numeric numeric ≡ reply_state (reply_of numeric)
    → (c == numeric) ≡ true
    → reply_of c ≡ refusal f
    → state_for f ≡ some state
    → classify_numeric c ≡ some state
refusal_at numeric c f state known e h k =
    let same = (str_beq_iff c numeric).0 e in
    ap classify_numeric same
    ∙ known
    ∙ ap (λ x. reply_state (reply_of x)) (sym same)
    ∙ ap reply_state h
    ∙ k

-- The classifier knows every numeric on which a handshake is given up for good.
refusal-state :
    (c : Str) (f : Failure) (state : UpstreamState)
    → reply_of c ≡ refusal f
    → state_for f ≡ some state
    → classify_numeric c ≡ some state
unfolding reply_of classify_numeric str_beq
refusal-state c f state h k = elim (Bool-cases (c == codes "433")) [
  | inl e ↦ absurd (ground arith)
  | inr e1 ↦ elim (Bool-cases (c == codes "432")) [
    | inl e ↦ refusal_at (codes "432") c f state refl e h k
    | inr e2 ↦ elim (Bool-cases (c == codes "437")) [
      | inl e ↦ refusal_at (codes "437") c f state refl e h k
      | inr e3 ↦ elim (Bool-cases (c == codes "464")) [
        | inl e ↦ refusal_at (codes "464") c f state refl e h k
        | inr e4 ↦ elim (Bool-cases (c == codes "465")) [
          | inl e ↦ refusal_at (codes "465") c f state refl e h k
          | inr e5 ↦ elim (Bool-cases (c == codes "451")) [
            | inl e ↦ refusal_at (codes "451") c f state refl e h k
            | inr e6 ↦ absurd (ground arith)
          ]
        ]
      ]
    ]
  ]
]

-- What a verdict says of the moves before it.
abbrev Leaves : Verdict × Nicks × List Output → Type 0
Leaves (go_on, n, out) = Unit
Leaves (complete, n, out) = Unit
Leaves (failed f, n, out) = (state_for f ≡ none) ⊎ (last_move out ≡ state_for f)

module _ (write_fails : Str → Bool) where
  fall_back-Leaves : (n : Nicks) (o : Option (Str × Nicks)) → Leaves (fall_back write_fails n o)
  unfolding last_move
  fall_back-Leaves n none = inr refl
  fall_back-Leaves n (some (next, after)) =
      elim (Bool-cases (write_fails (codes "NICK " ++ next))) [
        | inl e ↦ rw e (inl refl)
        | inr e ↦ rw e tt
      ]

  Leaves-append :
      (a : List Output) (r : Verdict × Nicks × List Output) → Leaves r → Leaves (r.0, r.1, a ++ r.2)
  Leaves-append a (go_on, n, out) h = tt
  Leaves-append a (complete, n, out) h = tt
  Leaves-append a (failed f, n, out) (inl h) = inl h
  Leaves-append a (failed f, n, out) (inr h) = elim (Option-cases (state_for f)) [
    | inl e ↦ inl e
    | inr (state, e) ↦ inr (last_move-append a out state (h ∙ e) ∙ sym e)
  ]

  refused-Leaves :
      (m : Message) (line : Str) (n : Nicks) (f : Failure)
      → reply_of m.command ≡ refusal f
      → Leaves (failed f, n, classified (classify_numeric m.command) m.trailing line ++ [])
  unfolding last_move
  refused-Leaves m line n f h = elim (Option-cases (state_for f)) [
    | inl e ↦ inl e
    | inr (state, e) ↦ rw (refusal-state m.command f state h e) (inr (sym e))
  ]

  answer-Leaves :
      (m : Message) (line : Str) (r : Reply) (n : Nicks)
      → reply_of m.command ≡ r
      → let (verdict, after, out) = answer write_fails m r n in
        Leaves (verdict, after, classified (classify_numeric m.command) m.trailing line ++ out)
  unfolding answer
  answer-Leaves m line nick_in_use n h =
      Leaves-append (classified (classify_numeric m.command) m.trailing line)
        (fall_back write_fails n (next_fallback_nick n)) (fall_back-Leaves n (next_fallback_nick n))
  answer-Leaves m line (refusal f) n h = refused-Leaves m line n f h
  answer-Leaves m line other_reply n h = elim (Bool-cases (is_handshake_complete m.command)) [
    | inl e ↦ rw e tt
    | inr e ↦ rw e tt
  ]

  on_line-Leaves : (line : Str) (n : Nicks) → Leaves (on_line write_fails line n)
  unfolding on_line
  on_line-Leaves line n =
      let m = parse line in
      elim (Bool-cases (m.command == codes "PING")) [
        | inl e ↦ rw e tt
        | inr e ↦ rw e (answer-Leaves m line (reply_of m.command) (welcomed write_fails m n) refl)
      ]

  go_on_with-Leaves :
      (here later : Verdict × Nicks × List Output)
      → Leaves here
      → Leaves later
      → Leaves (go_on_with write_fails here later)
  go_on_with-Leaves (go_on, n, out) later h k = Leaves-append out later k
  go_on_with-Leaves (complete, n, out) later h k = h
  go_on_with-Leaves (failed f, n, out) later h k = h

  await-Leaves : (lines : List Str) (n : Nicks) → Leaves (await_handshake write_fails lines n)
  unfolding await_handshake
  await-Leaves [] n = inl refl
  await-Leaves (line ∷ lines) n =
      let here = on_line write_fails line n in
      go_on_with-Leaves here (await_handshake write_fails lines here.1) (on_line-Leaves line n)
        (await-Leaves lines here.1)

-- A handshake that fails on a refusal of the server, or because every alternate nick is taken, has
-- last moved the state machine to the state that stands for that refusal.
pub failed_state :
    (write_fails : Str → Bool) (lines : List Str) (n after : Nicks) (f : Failure)
    (out : List Output) (state : UpstreamState)
    → await_handshake write_fails lines n ≡ (failed f, after, out)
    → state_for f ≡ some state
    → last_move out ≡ some state
failed_state write_fails lines n after f out state h k =
    let known : Leaves (failed f, after, out) = subst Leaves h (await-Leaves write_fails lines n) in
    elim known [ inl e ↦ absurd (ground arith) | inr e ↦ e ∙ k ]
