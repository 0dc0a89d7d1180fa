-- ===== src/Irc/Protocol/RoundTrip.antt =====
-- A line that protocol.go formats is the line that it parses.
use turborg.Base.Text.{is_empty, to_upper}
use turborg.Base.Text.Split.{begins_space, fields, has_prefix, join, cut}
use turborg.Base.{
  All-append, true, List, none, some, All, Str, [], ap, arith, false, nat_beq, refl, ℕ, ◌++◌, ◌∙◌,
  ◌∷◌, ◌≡◌,
}
use mathlib.Core.List.{append-nil}
use turborg.Base.Text.Words.{IsWord, HasNoSpace, fields-join}
use turborg.Irc.Protocol.{
  Message, parse, format_command, take_tags, take_prefix, take_trailing, message_of, is_line_end,
}
use turborg.Irc.Protocol.Cutting.{
  trim_right-none, IsParam, IsCommand, HasNoLineEnd, space_colon, join-head, cut-line,
  cut-line_none,
}

-- What the formatter is given, as the parser is to find it.
abbrev pub plain : Str → Str → List Str → Str → Message
plain raw command params trailing = record {
  raw = raw;
  tags = [];
  prefix = [];
  command = to_upper command;
  params = params;
  trailing = trailing;
}

IsParam-IsWord : (ps : List Str) → All IsParam ps → All IsWord ps
IsParam-IsWord [] h = tt
IsParam-IsWord ([] ∷ ps) h = absurd h.0
IsParam-IsWord ((c ∷ v) ∷ ps) h = (h.0.0, IsParam-IsWord ps h.1)

-- A line that begins with no mark has neither tags nor prefix.
unmarked_tags :
    (line r : Str) (c : ℕ)
    → line ≡ c ∷ r
    → nat_beq c b':' ≡ false
    → nat_beq c b'@' ≡ false
    → take_tags line ≡ ([], line)
unfolding take_tags has_prefix
unmarked_tags line r c starts h k = rw starts ground arith

unmarked_prefix :
    (line r : Str) (c : ℕ)
    → line ≡ c ∷ r
    → nat_beq c b':' ≡ false
    → nat_beq c b'@' ≡ false
    → take_prefix line ≡ ([], line)
unfolding take_prefix has_prefix
unmarked_prefix line r c starts h k = rw starts ground arith

-- The parser on a line without tags, from what its stages find.
pub parse_stages :
    (line prefix rest head trailing : Str)
    → HasNoLineEnd line
    → take_tags line ≡ ([], line)
    → take_prefix line ≡ (prefix, rest)
    → take_trailing rest ≡ (head, trailing)
    → is_empty rest ≡ false
    → parse line ≡ message_of line [] prefix trailing (fields head)
unfolding parse
parse_stages line prefix rest head trailing clean tags source at more =
    rw (trim_right-none is_line_end line clean, tags, source, at, more) refl

space-not-line_end : (c : ℕ) → begins_space c ≡ false → is_line_end c ≡ false
space-not-line_end c h = ground arith

pub word-HasNoLineEnd : (w : Str) → HasNoSpace w → HasNoLineEnd w
word-HasNoLineEnd [] h = tt
word-HasNoLineEnd (c ∷ w) h = (space-not-line_end c h.0, word-HasNoLineEnd w h.1)

join-HasNoLineEnd : (ws : List Str) → All HasNoLineEnd ws → HasNoLineEnd (join (32 ∷ []) ws)
unfolding join
join-HasNoLineEnd [] h = tt
join-HasNoLineEnd (w ∷ []) h = h.0
join-HasNoLineEnd (w ∷ v ∷ ws) h =
    All-append (λ c. is_line_end c ≡ false) w (32 ∷ join (32 ∷ []) (v ∷ ws)) h.0
      (refl, join-HasNoLineEnd (v ∷ ws) h.1)

params-HasNoLineEnd : (ps : List Str) → All IsParam ps → All HasNoLineEnd ps
params-HasNoLineEnd [] h = tt
params-HasNoLineEnd ([] ∷ ps) h = absurd h.0
params-HasNoLineEnd ((c ∷ v) ∷ ps) h = (word-HasNoLineEnd (c ∷ v) h.0.0, params-HasNoLineEnd ps h.1)

parsed_fields :
    (w : Str) (ps : List Str)
    → IsWord w
    → All IsParam ps
    → fields (join (32 ∷ []) (w ∷ ps)) ≡ w ∷ ps
parsed_fields w ps h hs = fields-join (w ∷ ps) (h, IsParam-IsWord ps hs)

trailing_at : (s head t : Str) → cut space_colon s ≡ some (head, t) → take_trailing s ≡ (head, t)
unfolding take_trailing
trailing_at s head t e = ap (λ o. elim o [ none ↦ (s, []) | some p ↦ p ]) e

no_trailing : (s : Str) → cut space_colon s ≡ none → take_trailing s ≡ (s, [])
unfolding take_trailing
no_trailing s e = ap (λ o. elim o [ none ↦ (s, []) | some p ↦ p ]) e

-- What the stages find in a formatted line.
pub record Formatted (c : ℕ) (w : Str) (params : List Str) (trailing line : Str) : Type 0 where
  pub r : Str
  pub starts : line ≡ c ∷ r
  pub clean : HasNoLineEnd line
  pub head : Str
  pub at : take_trailing line ≡ (head, trailing)
  pub words : fields head ≡ (c ∷ w) ∷ params

pub trailing_line :
    (c : ℕ) (w trailing : Str) (params : List Str)
    → IsCommand (c ∷ w)
    → All IsParam params
    → HasNoLineEnd trailing
    → Formatted c w params trailing (format_command (c ∷ w) params trailing true)
unfolding format_command
trailing_line c w trailing params h hs e =
    let ws = params ++ (b':' ∷ trailing) ∷ [] in
    let line = join (32 ∷ []) ((c ∷ w) ∷ ws) in
    let whole = join (32 ∷ []) ((c ∷ w) ∷ params) in
    let (r, starts) = join-head c w ws in
    record {
      r = r;
      starts = starts;
      clean = join-HasNoLineEnd ((c ∷ w) ∷ ws) (
        word-HasNoLineEnd (c ∷ w) h.0,
        All-append HasNoLineEnd params ((b':' ∷ trailing) ∷ []) (params-HasNoLineEnd params hs)
            ((refl, e), tt),
      );
      head = whole;
      at = trailing_at line whole trailing (cut-line (c ∷ w) trailing params h.0 hs);
      words = parsed_fields (c ∷ w) params h.0 hs;
    }

pub plain_line :
    (c : ℕ) (w unused : Str) (params : List Str)
    → IsCommand (c ∷ w)
    → All IsParam params
    → Formatted c w params [] (format_command (c ∷ w) params unused false)
unfolding format_command
plain_line c w unused params h hs =
    let line = join (32 ∷ []) ((c ∷ w) ∷ params) in
    let (r, starts) = join-head c w params in
    rw (append-nil params) record {
      r = r;
      starts = starts;
      clean =
          join-HasNoLineEnd ((c ∷ w) ∷ params)
            (word-HasNoLineEnd (c ∷ w) h.0, params-HasNoLineEnd params hs);
      head = line;
      at = no_trailing line (cut-line_none (c ∷ w) params h.0 hs);
      words = parsed_fields (c ∷ w) params h.0 hs;
    }

parse-Formatted :
    (c : ℕ) (w trailing line : Str) (params : List Str)
    → IsCommand (c ∷ w)
    → Formatted c w params trailing line
    → parse line ≡ plain line (c ∷ w) params trailing
parse-Formatted c w trailing line params h f =
    parse_stages line [] line f.head trailing f.clean (unmarked_tags line f.r c f.starts h.1 h.2)
      (unmarked_prefix line f.r c f.starts h.1 h.2) f.at (ap is_empty f.starts)
    ∙ ap (message_of line [] [] trailing) f.words

-- A line with a trailing part, of any text with no line end in it, parses to what was formatted:
-- the command in upper case, the parameters, the trailing text, no tags and no prefix.
pub parse-format_trailing :
    (command trailing : Str) (params : List Str)
    → IsCommand command
    → All IsParam params
    → HasNoLineEnd trailing
    → let line = format_command command params trailing true in
      parse line ≡ plain line command params trailing
parse-format_trailing [] trailing params h hs e = absurd h
parse-format_trailing (c ∷ w) trailing params h hs e =
    parse-Formatted c w trailing (format_command (c ∷ w) params trailing true) params h
      (trailing_line c w trailing params h hs e)

-- A line without a trailing part parses to its command in upper case and its parameters; its
-- trailing text is empty, and it has no tags and no prefix.
pub parse-format_plain :
    (command unused : Str) (params : List Str)
    → IsCommand command
    → All IsParam params
    → let line = format_command command params unused false in
      parse line ≡ plain line command params []
parse-format_plain [] unused params h hs = absurd h
parse-format_plain (c ∷ w) unused params h hs =
    parse-Formatted c w [] (format_command (c ∷ w) params unused false) params h
      (plain_line c w unused params h hs)
