-- ===== src/Irc/PingLedger/Oldest.antt =====
-- What the watchdog compares with its timeout.
use turborg.Base.{
  ap, is_some, false, str_beq_iff, ◌∙◌, ◌≢◌, All, List, Str, [], arith, if◌then◌else◌, inl, inr,
  ltb, none, refl, some, true, ◌∷◌, ◌≡◌, ◌≤◌, ◌⊎◌, nat_eq, str_eq, contains,
}
use turborg.Base.{Bool-cases, sym}
use mathlib.Core.Bool.{false≢true}
use turborg.Base.Map.{Map, lookup, lookup-insert, lookup-delete}
use turborg.Base.Time.{Time}
use turborg.Irc.PingLedger.{PingLedger, add, ack, oldest, oldest_of}

abbrev pub times : Map Str Time → List Time
times [] = []
times ((token, t) ∷ es) = t ∷ times es

oldest_of-some :
    (o : Time) (es : Map Str Time)
    → (t : Time) × (oldest_of (some o) es ≡ some t)
      × (t ≤ o)
      × All (λ s. t ≤ s) (times es)
      × (contains t (o ∷ times es) ≡ true)
unfolding oldest_of
oldest_of-some o [] = (o, refl, (omega arith), tt, ground arith)
oldest_of-some o ((token, s) ∷ es) =
    let next = if ltb s o then s else o in
    let (t, e, below, all, member) = oldest_of-some next es in
    (t, e, ground (arith, below), (ground (arith, below), all), ground (arith, member))

oldest_of-exact :
    (es : Map Str Time)
    → ((oldest_of none es ≡ none) × (es ≡ []))
      ⊎ ((t : Time) × (oldest_of none es ≡ some t)
          × All (λ s. t ≤ s) (times es)
          × (contains t (times es) ≡ true))
unfolding oldest_of
oldest_of-exact [] = inl (refl, refl)
oldest_of-exact ((token, s) ∷ es) =
    let (t, e, below, all, member) = oldest_of-some s es in inr (t, e, (below, all), member)

-- The oldest send time is one of the outstanding ones and none of them is earlier; there is none
-- exactly when nothing is outstanding.
pub oldest_exact :
    (l : PingLedger)
    → ((oldest l ≡ none) × (l.pending ≡ []))
      ⊎ ((t : Time) × (oldest l ≡ some t)
          × All (λ s. t ≤ s) (times l.pending)
          × (contains t (times l.pending) ≡ true))
unfolding oldest
oldest_exact l = oldest_of-exact l.pending

pub data Call : Type 0 where
  adding : Str → Time → Call
  acking : Str → Call

unfoldable pub run : List Call → PingLedger → PingLedger
run [] l = l
run (adding token sent ∷ calls) l = run calls (add token sent l)
run (acking token ∷ calls) l = run calls (ack token l).0

-- No call is about the token.
abbrev pub IsUnanswered : Str → List Call → Type 0
IsUnanswered token [] = Unit {0}
IsUnanswered token (adding other sent ∷ calls) = (other ≢ token) × IsUnanswered token calls
IsUnanswered token (acking other ∷ calls) = (other ≢ token) × IsUnanswered token calls

lookup-times :
    (token : Str) (sent : Time) (es : Map Str Time)
    → lookup token es ≡ some sent
    → contains sent (times es) ≡ true
unfolding lookup
lookup-times token sent [] h = absurd (ground arith)
lookup-times token sent ((other, s) ∷ es) h = ground (arith, lookup-times token sent es, h)

ack-other :
    (token other : Str) (l : PingLedger)
    → other ≢ token
    → lookup token (ack other l).0.pending ≡ lookup token l.pending
unfolding ack
ack-other token other l h =
    ground (arith, lookup-delete other token l.pending, str_beq_iff other token, h)

run-pending :
    (token : Str) (calls : List Call) (l : PingLedger)
    → IsUnanswered token calls
    → lookup token (run calls l).pending ≡ lookup token l.pending
unfolding run add
run-pending token [] l h = refl
run-pending token (adding other sent ∷ calls) l h =
    run-pending token calls (add other sent l) h.1
    ∙ lookup-insert other token sent l.pending
    ∙ ground (arith, str_beq_iff other token, h.0)
run-pending token (acking other ∷ calls) l h =
    run-pending token calls (ack other l).0 h.1 ∙ ack-other token other l h.0

All-contained : (t s : Time) (ts : List Time) → All (λ u. t ≤ u) ts → contains s ts ≡ true → t ≤ s
All-contained t s [] h k = absurd (false≢true k)
All-contained t s (u ∷ ts) h k = ground (arith, All-contained t s ts h.1, h.0, k)

-- A PING that is not answered is seen: after any other PINGs and answers, the oldest send time is
-- no later than the time at which it was sent.
pub unanswered_is_seen :
    (token : Str) (sent : Time) (calls : List Call) (l : PingLedger)
    → IsUnanswered token calls
    → (t : Time) × (oldest (run calls (add token sent l)) ≡ some t) × (t ≤ sent)
unfolding add
unanswered_is_seen token sent calls l h =
    let after = run calls (add token sent l) in
    let there : contains sent (times after.pending) ≡ true = lookup-times token sent after.pending (
      run-pending token calls (add token sent l) h
      ∙ lookup-insert token token sent l.pending
      ∙ ground (arith, str_beq_iff token token)) in
    elim (oldest_exact after) [
      | inl (e, nothing) ↦
          absurd (false≢true (ap (λ es. contains sent (times es)) (sym nothing) ∙ there))
      | inr (t, e, below, _) ↦ (t, e, All-contained t sent (times after.pending) below there)
    ]

-- An answer counts once: a second PONG with the same token matches nothing and changes nothing.
pub ack_once :
    (token : Str) (l : PingLedger)
    → let (after, _) = ack token l in ack token after ≡ (after, false)
unfolding ack
ack_once token l = elim (Bool-cases (is_some (lookup token l.pending))) [
  | inl e ↦ rw (e, lookup-delete token token l.pending) (ground (arith, str_beq_iff token token))
  | inr e ↦ rw (e, e) refl
]
