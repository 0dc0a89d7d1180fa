-- ===== src/Irc/Protocol/Tags.antt =====
-- The values of message tags (tagUnescape, unescapeTagValue): unescaping undoes the escaping of the
-- IRCv3 message-tags specification.
use turborg.Base.{
  Bool, true, Str, [], ap, arith, contains, false, if◌then◌else◌, nat_beq, refl, str_eq, sym, ℕ,
  ◌++◌, ◌∙◌, ◌∷◌, ◌≡◌, nat_eq,
}
use turborg.Irc.Protocol.{tag_unescape, unescape_loop, unescape_tag_value}

-- The table of the specification, from a byte of the value to its bytes in the tag.
abbrev escape_byte : ℕ → Str
escape_byte c =
    if nat_beq c b';'
    then 92 ∷ b':' ∷ []
    else if nat_beq c 32
    then 92 ∷ b's' ∷ []
    else if nat_beq c 92
    then 92 ∷ 92 ∷ []
    else if nat_beq c 13
    then 92 ∷ b'r' ∷ []
    else if nat_beq c 10
    then 92 ∷ b'n' ∷ []
    else c ∷ []

unfoldable pub escape : Str → Str
escape [] = []
escape (c ∷ s) = escape_byte c ++ escape s

loop-escape_byte : (c : ℕ) (s : Str) → unescape_loop (escape_byte c ++ s) ≡ c ∷ unescape_loop s
unfolding unescape_loop tag_unescape
loop-escape_byte c [] = ground arith
loop-escape_byte c (d ∷ s) = ground arith

loop-escape : (v : Str) → unescape_loop (escape v) ≡ v
unfolding escape
loop-escape [] = (unfold unescape_loop in refl)
loop-escape (c ∷ s) = loop-escape_byte c (escape s) ∙ ap (λ u. c ∷ u) (loop-escape s)

loop-plain : (s : Str) → contains 92 s ≡ false → unescape_loop s ≡ s
unfolding unescape_loop
loop-plain [] h = refl
loop-plain (c ∷ []) h = refl
loop-plain (c ∷ d ∷ s) h = ground (arith, loop-plain (d ∷ s))

either : {v x y : Str} (b : Bool) → x ≡ v → (b ≡ false → y ≡ v) → (if b then x else y) ≡ v
either true h k = h
either false h k = k refl

-- Any tag value, escaped as the specification says, is unescaped to itself.
pub unescape-escape : (v : Str) → unescape_tag_value (escape v) ≡ v
unfolding unescape_tag_value
unescape-escape v =
    either (contains 92 (escape v)) (loop-escape v)
      (λ e. sym (loop-plain (escape v) e) ∙ loop-escape v)
