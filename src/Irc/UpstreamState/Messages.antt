-- ===== src/Irc/UpstreamState/Messages.antt =====
-- What a server's ERROR line and its reasons mean for the connection.
use turborg.Base.{
  All-append, if◌then◌else◌, nat_eq, str_beq, List, map, or_zero, str_beq_iff, ap, contains,
  contains-append, is_some, ◌||◌, ◌∙◌, Str, [], arith, false, none, refl, some, str_eq, true, ℕ,
  ◌++◌, ◌∷◌, ◌≡◌,
}
use turborg.Base.Text.{equal_fold, to_upper, is_empty, lower_byte, codes, to_lower}
use turborg.Base.Text.Split.{cons_fst, contains_text, cut, last_cut, trim_space}
use turborg.Base.Text.Words.{strip_prefix-append}
use turborg.Irc.Protocol.{Message, is_line_end, format_command, parse}
use mathlib.Core.Option
use mathlib.Core.Bool.{false≢true}
use mathlib.Core.List.{map-append}
use turborg.Irc.Protocol.Cutting.{HasNoLineEnd}
use turborg.Irc.Protocol.RoundTrip.{plain, parse-format_trailing}
use turborg.Irc.UpstreamState.{
  disconnected_banned, disconnected_transient, ban_patterns, any_pattern, reason_of,
  parse_error_line, classify_ban_reason, classify_disconnect_message,
}

last_cut-none : (c : ℕ) (s : Str) → contains c s ≡ false → last_cut c s ≡ none
unfolding last_cut
last_cut-none c [] h = refl
last_cut-none c (d ∷ s) h = ground (arith, last_cut-none c s, h)

last_cut-last : (c : ℕ) (a b : Str) → contains c b ≡ false → last_cut c (a ++ c ∷ b) ≡ some (a, b)
unfolding last_cut
last_cut-last c [] b h = ground (arith, last_cut-none c b h)
last_cut-last c (d ∷ a) b h = rw (last_cut-last c a b h) refl

reason_of-found :
    (body before after inside rest : Str)
    → last_cut b'(' body ≡ some (before, after)
    → last_cut b')' after ≡ some (inside, rest)
    → reason_of body ≡ trim_space inside
unfolding reason_of
reason_of-found body before after inside rest opened closed =
    ap
      (λ o. elim o [
        | none ↦ trim_space body
        | some (b, a) ↦ elim (last_cut b')' a) [
          | none ↦ trim_space body
          | some (i, r) ↦ trim_space i
        ]
      ])
      opened
    ∙ ap (λ o. elim o [ none ↦ trim_space body | some (i, r) ↦ trim_space i ]) closed

-- The text in the last parentheses, of a reason that holds no "(".
reason_of-parenthesised :
    (before inside : Str)
    → contains b'(' inside ≡ false
    → reason_of (before ++ b'(' ∷ (inside ++ b')' ∷ [])) ≡ trim_space inside
reason_of-parenthesised before inside h =
    let after = inside ++ b')' ∷ [] in
    let none_after : contains b'(' after ≡ false =
      contains-append b'(' inside (b')' ∷ []) ∙ ap (λ b. b || false) h in
    reason_of-found (before ++ b'(' ∷ after) before after inside []
      (last_cut-last b'(' before after none_after) (last_cut-last b')' inside [] refl)

cut-here : (c : ℕ) (p b : Str) → is_some (cut (c ∷ p) (c ∷ (p ++ b))) ≡ true
unfolding cut
cut-here c p b =
    ap
      (λ o. is_some (elim o [
        | some after ↦ some ([], after)
        | none ↦ Option.map (cons_fst c) (cut (c ∷ p) (p ++ b))
      ]))
      (strip_prefix-append (c ∷ p) b)

cut-later : (d : ℕ) (p s : Str) → is_some (cut p s) ≡ true → is_some (cut p (d ∷ s)) ≡ true
unfolding cut
cut-later d p s h = ground (arith, h)

contains_text-inside :
    (a : Str) (c : ℕ) (p b : Str) → contains_text (c ∷ p) (a ++ (c ∷ (p ++ b))) ≡ true
unfolding contains_text
contains_text-inside [] c p b = cut-here c p b
contains_text-inside (d ∷ a) c p b =
    cut-later d (c ∷ p) (a ++ (c ∷ (p ++ b))) (contains_text-inside a c p b)

any_pattern-member :
    (lower p : Str) (ps : List Str)
    → contains p ps ≡ true
    → contains_text p lower ≡ true
    → any_pattern lower ps ≡ true
unfolding any_pattern
any_pattern-member lower p [] h k = absurd (ground arith)
any_pattern-member lower p (q ∷ ps) h k =
    ground (arith, any_pattern-member lower p ps, h, k, str_beq_iff q p)

ban-pattern :
    (reason : Str)
    → is_empty reason ≡ false
    → any_pattern (to_lower reason) ban_patterns ≡ true
    → classify_ban_reason reason ≡ some disconnected_banned
unfolding classify_ban_reason
ban-pattern reason some_text h = rw (some_text, h) refl

is_empty-middle : (a : Str) (c : ℕ) (b : Str) → is_empty (a ++ c ∷ b) ≡ false
is_empty-middle [] c b = refl
is_empty-middle (d ∷ a) c b = refl

-- A reason that holds one of the ban patterns, anywhere in it and in any letter case, means that
-- the connection is banned.
pub banned_anywhere :
    (before found after pattern : Str)
    → contains pattern ban_patterns ≡ true
    → to_lower found ≡ pattern
    → classify_ban_reason (before ++ (found ++ after)) ≡ some disconnected_banned
unfolding to_lower ban_patterns str_beq
banned_anywhere before [] after pattern h k =
    absurd (false≢true (ap (λ (p : Str). contains p ban_patterns) k ∙ h))
banned_anywhere before (c ∷ found) after pattern h k =
    let lowered = map lower_byte before ++ (to_lower (c ∷ found) ++ map lower_byte after) in
    let split : to_lower (before ++ (c ∷ found ++ after)) ≡ lowered =
      map-append lower_byte before (c ∷ (found ++ after))
      ∙ ap (λ (s : Str). map lower_byte before ++ s) (map-append lower_byte (c ∷ found) after) in
    ban-pattern (before ++ (c ∷ (found ++ after))) (is_empty-middle before c (found ++ after)) (
      ap (λ (s : Str). any_pattern s ban_patterns) split
      ∙ any_pattern-member lowered (to_lower (c ∷ found)) ban_patterns
          (ap (λ (p : Str). contains p ban_patterns) k ∙ h)
          (contains_text-inside (map lower_byte before) (lower_byte c) (map lower_byte found)
            (map lower_byte after)))

error_line :
    (line : Str) (msg : Message)
    → parse line ≡ msg
    → equal_fold msg.command (codes "ERROR") ≡ true
    → is_empty msg.trailing ≡ false
    → parse_error_line line ≡ some (reason_of msg.trailing)
unfolding parse_error_line
error_line line msg e named some_text =
    ap
      (λ (m : Message).
        if equal_fold m.command (codes "ERROR")
        then some (if is_empty m.trailing then [] else reason_of m.trailing)
        else none)
      e
    ∙ rw (named, some_text) refl

classified :
    (line reason : Str)
    → parse_error_line line ≡ some reason
    → classify_disconnect_message line
      ≡ some (or_zero (classify_ban_reason reason) disconnected_transient, reason)
unfolding classify_disconnect_message
classified line reason e =
    ap
      (λ o. elim o [
        | none ↦ none
        | some r ↦ some (or_zero (classify_ban_reason r) disconnected_transient, r)
      ])
      e

error_named : equal_fold (to_upper (codes "ERROR")) (codes "ERROR") ≡ true
unfolding equal_fold to_upper to_lower str_beq
error_named = refl

-- An ERROR line with its reason in parentheses: the reason is found, without the white space around
-- it, and it alone decides between a ban and an outage that the supervisor retries after.
pub disconnect_reason :
    (before inside : Str)
    → contains b'(' inside ≡ false
    → HasNoLineEnd before
    → HasNoLineEnd inside
    → let line = format_command (codes "ERROR") [] (before ++ b'(' ∷ (inside ++ b')' ∷ [])) true in
      let reason = trim_space inside in
      classify_disconnect_message line
      ≡ some (or_zero (classify_ban_reason reason) disconnected_transient, reason)
disconnect_reason before inside h hb hi =
    let body = before ++ b'(' ∷ (inside ++ b')' ∷ []) in
    let clean : HasNoLineEnd body =
      All-append (λ c. is_line_end c ≡ false) before (b'(' ∷ (inside ++ b')' ∷ [])) hb
        (refl, All-append (λ c. is_line_end c ≡ false) inside (b')' ∷ []) hi (refl, tt)) in
    let line = format_command (codes "ERROR") [] body true in
    classified line (trim_space inside) (
      error_line line (plain line (codes "ERROR") [] body)
        (parse-format_trailing (codes "ERROR") body []
          ((refl, (refl, (refl, (refl, (refl, tt))))), refl, refl) tt clean)
        error_named (is_empty-middle before b'(' (inside ++ b')' ∷ []))
      ∙ ap some (reason_of-parenthesised before inside h))
