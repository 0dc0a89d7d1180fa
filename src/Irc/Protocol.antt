-- ===== src/Irc/Protocol.antt =====
-- internal/connector/irc/protocol.go: the parser and the formatter of IRC lines, over bytes. A slice
-- expression `s[:i]` with `s[i+1:]` at an index that strings.IndexByte found is a `cut`.
pub mod Cutting
pub mod RoundTrip
pub mod Prefixed
pub mod Tags
mod Examples
use turborg.Base.Map.{Map, insert}
use turborg.Base.Text.{is_empty, to_upper}
use turborg.Base.{
  nat_eq, Bool, List, Option, Str, [], contains, false, if◌then◌else◌, nat_beq, none, or_zero, some,
  str_eq, true, ℕ, ◌++◌, ◌==◌, ◌||◌, ◌∷◌,
}
use turborg.Base.Text.Split.{cut, fields, has_prefix, join, split, trim_left, trim_right}

pub record Message : Type 0 where
  pub raw : Str
  pub tags : Map Str Str
  pub prefix : Str
  pub command : Str
  pub params : List Str
  pub trailing : Str

-- The part of the prefix before "!", or all of it.
unfoldable pub nick : Str → Str
nick prefix = elim (cut (b'!' ∷ []) prefix) [ none ↦ prefix | some (before, _) ↦ before ]

unfoldable pub source_nick : Message → Str
source_nick m = elim (cut (b'!' ∷ []) m.prefix) [ none ↦ m.prefix | some (before, _) ↦ before ]

-- The table tagUnescape.
unfoldable pub tag_unescape : ℕ → Option ℕ
tag_unescape c =
    if c == b':'
    then some b';'
    else if c == b's'
    then some b' '
    else if c == 92
    then some 92
    else if c == b'r'
    then some 13
    else if c == b'n'
    then some 10
    else none

-- The loop; the escape byte is 92.
unfoldable pub unescape_loop : Str → Str
unfolding tag_unescape
unescape_loop [] = []
unescape_loop (c ∷ []) = c ∷ []
unescape_loop (c ∷ d ∷ s) = elim (c == 92) [
  | true ↦ or_zero (tag_unescape d) d ∷ unescape_loop s
  | false ↦ c ∷ unescape_loop (d ∷ s)
]

unfoldable pub unescape_tag_value : Str → Str
unfolding unescape_loop
unescape_tag_value value = if contains 92 value then unescape_loop value else value

-- The loop over the tags of the segment.
unfoldable pub add_tags : List Str → Map Str Str → Map Str Str
unfolding unescape_tag_value
add_tags [] tags = tags
add_tags (tag ∷ rest) tags = add_tags rest (
    if is_empty tag then tags else elim (cut (b'=' ∷ []) tag) [
      | none ↦ insert tag [] tags
      | some (key, value) ↦ insert key (unescape_tag_value value) tags
    ])

-- s[1:], of a string that is not empty.
abbrev pub drop_first : Str → Str
drop_first [] = []
drop_first (c ∷ s) = s

abbrev pub is_blank : ℕ → Bool
is_blank c = nat_beq c 32

-- The segment up to the first space, without its mark, and what remains.
unfoldable pub take_segment : Str → Str × Str
take_segment s = elim (cut (32 ∷ []) s) [
  | none ↦ (drop_first s, [])
  | some (segment, rest) ↦ (drop_first segment, trim_left is_blank rest)
]

unfoldable pub take_tags : Str → Map Str Str × Str
unfolding take_segment add_tags
take_tags s =
    let (segment, rest) = take_segment s in
    if has_prefix (b'@' ∷ []) s then (add_tags (split b';' segment) [], rest) else ([], s)

unfoldable pub take_prefix : Str → Str × Str
unfolding take_segment
take_prefix s =
    let (segment, rest) = take_segment s in
    if has_prefix (b':' ∷ []) s then (segment, rest) else ([], s)

-- head and trailing, cut at the first " :".
unfoldable pub take_trailing : Str → Str × Str
take_trailing s = elim (cut (32 ∷ b':' ∷ []) s) [ none ↦ (s, []) | some p ↦ p ]

abbrev pub message_of : Str → Map Str Str → Str → Str → List Str → Message
message_of raw tags prefix trailing [] = record {
  raw = raw;
  tags = tags;
  prefix = prefix;
  command = [];
  params = [];
  trailing = trailing;
}
message_of raw tags prefix trailing (command ∷ params) = record {
  raw = raw;
  tags = tags;
  prefix = prefix;
  command = to_upper command;
  params = params;
  trailing = trailing;
}

abbrev pub is_line_end : ℕ → Bool
is_line_end c = nat_beq c 13 || nat_beq c 10

unfoldable pub parse : Str → Message
parse line =
    let raw = trim_right is_line_end line in
    let (tags, after_tags) = take_tags raw in
    let (prefix, remaining) = take_prefix after_tags in
    let (head, trailing) = take_trailing remaining in
    if is_empty remaining
    then message_of raw tags prefix [] []
    else message_of raw tags prefix trailing (fields head)

unfoldable pub format_command : Str → List Str → Str → Bool → Str
format_command command params trailing has_trailing =
    join (32 ∷ []) (command ∷ (params ++ (if has_trailing then (b':' ∷ trailing) ∷ [] else [])))

-- The identity and the host of "nick!ident@host"; `none` is the result `ok == false`.
unfoldable pub split_ident_host : Str → Option (Str × Str)
split_ident_host prefix = elim (cut (b'!' ∷ []) prefix) [
  | none ↦ none
  | some (_, rest) ↦ cut (b'@' ∷ []) rest
]
