-- ===== src/Irc/Protocol/Prefixed.antt =====
-- A line that a server sends, with its source in front, through the parser.
use turborg.Base.Text.{is_empty, to_upper}
use turborg.Irc.Protocol.{
  drop_first, format_command, is_blank, is_line_end, message_of, parse, take_prefix, take_segment,
  take_tags,
}
use turborg.Base.Text.Split.{cut, has_prefix, begins_space, strip_prefix, trim_left}
use turborg.Base.{
  none, All, All-append, List, Str, [], ap, arith, false, refl, some, true, ℕ, ◌++◌, ◌∙◌, ◌∷◌, ◌≡◌,
}
use turborg.Base.Text.Words.{cut-space, trim_left-stop, HasNoSpace}
use turborg.Irc.Protocol.Cutting.{HasNoLineEnd, IsCommand, IsParam}
use turborg.Irc.Protocol.RoundTrip.{parse_stages, trailing_line, word-HasNoLineEnd}

not_space : (c : ℕ) → begins_space c ≡ false → is_blank c ≡ false
not_space c h = ground arith

abbrev pub prefixed : Str → Str → Str
prefixed source line = b':' ∷ (source ++ 32 ∷ line)

segment_at :
    (s segment rest : Str)
    → cut (32 ∷ []) s ≡ some (segment, rest)
    → take_segment s ≡ (drop_first segment, trim_left is_blank rest)
unfolding take_segment
segment_at s segment rest e =
    ap
      (λ o. elim o [
        | none ↦ (drop_first s, [])
        | some (a, b) ↦ (drop_first a, trim_left is_blank b)
      ])
      e

prefixed-source :
    (source line r : Str) (c : ℕ)
    → HasNoSpace source
    → line ≡ c ∷ r
    → is_blank c ≡ false
    → take_prefix (prefixed source line) ≡ (source, line)
unfolding take_prefix has_prefix strip_prefix
prefixed-source source line r c h starts k =
    let kept : trim_left is_blank line ≡ line = rw starts (trim_left-stop is_blank c r k) in
    segment_at (prefixed source line) (b':' ∷ source) line
      (cut-space (b':' ∷ source) line (refl, h))
    ∙ ap (λ (s : Str). (source, s)) kept

prefixed-tags : (source line : Str) → take_tags (prefixed source line) ≡ ([], prefixed source line)
unfolding take_tags has_prefix strip_prefix
prefixed-tags source line = refl

-- A formatted line with a trailing part, behind the source of the message: the parser finds that
-- source, and the command, the parameters and the trailing text that were formatted. No byte of the
-- source, of the command and of a parameter may be one that the encoding of white space begins
-- with, the command and the parameters are not empty and begin with no mark, and the trailing text
-- has no line end.
pub parse-prefixed :
    (source command trailing : Str) (params : List Str)
    → HasNoSpace source
    → IsCommand command
    → All IsParam params
    → HasNoLineEnd trailing
    → let line = prefixed source (format_command command params trailing true) in
      parse line ≡ record {
        raw = line;
        tags = [];
        prefix = source;
        command = to_upper command;
        params = params;
        trailing = trailing;
      }
parse-prefixed source [] trailing params hs h hp e = absurd h
parse-prefixed source (c ∷ w) trailing params hs h hp e =
    let line = format_command (c ∷ w) params trailing true in
    let f = trailing_line c w trailing params h hp e in
    let clean =
      All-append (λ d. is_line_end d ≡ false) (b':' ∷ source) (32 ∷ line)
        (refl, word-HasNoLineEnd source hs) (refl, f.clean) in
    parse_stages (prefixed source line) source line f.head trailing clean
      (prefixed-tags source line)
      (prefixed-source source line f.r c hs f.starts (not_space c h.0.0)) f.at
      (ap is_empty f.starts)
    ∙ ap (message_of (prefixed source line) [] source trailing) f.words
