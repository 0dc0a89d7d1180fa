-- ===== src/Irc/Handshake/Fallbacks.antt =====
-- The nicks that a handshake tries.
use turborg.Base.{
  Bool-cases, ap, arith, inl, inr, leb, ltb, refl, sym, zero, ◌∙◌, ◌≡◌, ◌≤◌, ◌⊎◌, Bool, List,
  Option, Str, [], none, some, true, false, ◌||◌, ◌==◌, ◌∷◌, ◌++◌, ℕ, suc, str_eq, if◌then◌else◌,
  replicate, length,
}
use mathlib.Core.List.{append-nil, append_assoc}
use turborg.Base.Text.{codes, is_empty}
use turborg.Irc.Protocol.{Message, parse}
use turborg.Irc.Nicknames.{
  Nicks, set_current_nick, next_fallback_nick, effective_nick, start_registration,
  max_nick_fallbacks, fallback_max_nick_len,
}
use turborg.Irc.Handshake.{
  Reply, answer, complete, failed, fall_back, go_on, go_on_with, nick_in_use, on_line, other_reply,
  refusal, reply_of, welcomed, Verdict, Output, await_handshake,
}

-- The nick that was tried last is the desired one with an underscore for each fallback; there are
-- at most eight, and none makes the nick longer than fifteen bytes.
abbrev pub Tried : Str → Str → Nicks → Type 0
Tried nick preferred n =
    (n.desired ≡ nick)
    × (n.preferred ≡ preferred)
    × (n.attempted ≡ nick ++ replicate n.fallbacks b'_')
    × (n.fallbacks ≤ max_nick_fallbacks)
    × ((n.fallbacks ≡ 0) ⊎ (length n.attempted ≤ fallback_max_nick_len))

replicate-snoc : (k c : ℕ) → replicate k c ++ c ∷ [] ≡ replicate (suc k) c
replicate-snoc zero c = refl
replicate-snoc (suc k) c = ap (λ xs. c ∷ xs) (replicate-snoc k c)

start_registration-Tried :
    (n : Nicks) → Tried (effective_nick n) n.preferred (start_registration n).1
unfolding start_registration
start_registration-Tried n =
    (refl, refl, sym (append-nil (effective_nick n)), omega arith, inl refl)

module _ (nick preferred : Str) where
  set_current_nick-Tried :
      (p : Str) (n : Nicks) → Tried nick preferred n → Tried nick preferred (set_current_nick p n)
  unfolding set_current_nick
  set_current_nick-Tried p n t = elim (Bool-cases (is_empty p || p == codes "*")) [
    | inl e ↦ rw e t
    | inr e ↦ rw e t
  ]

  abbrev TriedNext : Option (Str × Nicks) → Type 0
  TriedNext none = Unit
  TriedNext (some (next, after)) = Tried nick preferred after

  next_fallback_nick-Tried : (n : Nicks) → Tried nick preferred n → TriedNext (next_fallback_nick n)
  unfolding next_fallback_nick
  next_fallback_nick-Tried n (d, p, a, few, short) =
      elim (Bool-cases (leb max_nick_fallbacks n.fallbacks)) [
        | inl e ↦ rw e tt
        | inr e ↦
            elim (Bool-cases (ltb fallback_max_nick_len (length (n.attempted ++ codes "_")))) [
              | inl g ↦ rw (e, g) tt
              | inr g ↦
                  rw (e, g)
                    (
                      d,
                      p,
                      ap (λ xs. xs ++ codes "_") a
                          ∙ append_assoc nick (replicate n.fallbacks b'_') (codes "_")
                          ∙ ap (λ xs. nick ++ xs) (replicate-snoc n.fallbacks b'_'),
                      ground arith,
                      inr (ground arith),
                    )
            ]
      ]

  module _ (write_fails : Str → Bool) where
    fall_back-Tried :
        (n : Nicks) (o : Option (Str × Nicks))
        → Tried nick preferred n
        → TriedNext o
        → Tried nick preferred (fall_back write_fails n o).1
    fall_back-Tried n none t u = t
    fall_back-Tried n (some (next, after)) t u =
        elim (Bool-cases (write_fails (codes "NICK " ++ next))) [ inl e ↦ rw e u | inr e ↦ rw e u ]

    answer-Tried :
        (m : Message) (r : Reply) (n : Nicks)
        → Tried nick preferred n
        → Tried nick preferred (answer write_fails m r n).1
    unfolding answer
    answer-Tried m nick_in_use n t =
        fall_back-Tried n (next_fallback_nick n) t (next_fallback_nick-Tried n t)
    answer-Tried m (refusal f) n t = t
    answer-Tried m other_reply n t = t

    welcomed-Tried :
        (params : List Str) (b : Bool) (n : Nicks)
        → Tried nick preferred n
        → Tried nick preferred
            (elim params [ [] ↦ n | p ∷ ps ↦ if b then set_current_nick p n else n ])
    welcomed-Tried [] b n t = t
    welcomed-Tried (p ∷ ps) true n t = set_current_nick-Tried p n t
    welcomed-Tried (p ∷ ps) false n t = t

    on_line-Tried :
        (line : Str) (n : Nicks)
        → Tried nick preferred n
        → Tried nick preferred (on_line write_fails line n).1
    unfolding on_line
    on_line-Tried line n t =
        let m = parse line in
        elim (Bool-cases (m.command == codes "PING")) [
          | inl e ↦ rw e t
          | inr e ↦ rw e (
              answer-Tried m (reply_of m.command) (welcomed write_fails m n)
                (welcomed-Tried m.params (m.command == codes "001") n t))
        ]

    go_on_with-Tried :
        (here later : Verdict × Nicks × List Output)
        → Tried nick preferred here.1
        → Tried nick preferred later.1
        → Tried nick preferred (go_on_with write_fails here later).1
    go_on_with-Tried (go_on, n, out) later t u = u
    go_on_with-Tried (complete, n, out) later t u = t
    go_on_with-Tried (failed f, n, out) later t u = t

    await-Tried :
        (lines : List Str) (n : Nicks)
        → Tried nick preferred n
        → Tried nick preferred (await_handshake write_fails lines n).1
    unfolding await_handshake
    await-Tried [] n t = t
    await-Tried (line ∷ lines) n t =
        let here = on_line write_fails line n in
        let after = on_line-Tried line n t in
        go_on_with-Tried here (await_handshake write_fails lines here.1) after
          (await-Tried lines here.1 after)

-- Whatever the server sends during a handshake, the desired and the preferred nick stay what they
-- were when it began, and the nick that was tried last is the desired one with an underscore for
-- each fallback: at most eight, and none beyond fifteen bytes.
pub fallbacks_bounded :
    (write_fails : Str → Bool) (lines : List Str) (n : Nicks)
    → Tried
        (effective_nick n)
        n.preferred
        (await_handshake write_fails lines (start_registration n).1).1
fallbacks_bounded write_fails lines n =
    await-Tried (effective_nick n) n.preferred write_fails lines (start_registration n).1
      (start_registration-Tried n)
