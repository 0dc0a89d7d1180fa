-- ===== src/Irc/Wanted/Join.antt =====
-- The parameters of a JOIN line, in wanted.go.
use turborg.Base.{
  List, Str, [], arith, get_or, get_or-pad, get_or-take, length, length-append, length-replicate,
  length-take, replicate, ℕ, ◌++◌, ◌-◌, ◌<◌, ◌∙◌, ◌≡◌,
}
use turborg.Irc.Wanted.{align, parse_join_line, split_and_trim, split_positional, join_target}

length-align : (channels ks : List Str) → length (align channels ks) ≡ length channels
unfolding align
length-align channels ks =
    let n = length channels - length ks in
    let padding : List Str = replicate n [] in
    let padded : length padding ≡ n = length-replicate n [] in
    length-take (length channels) (ks ++ padding) (omega (arith, length-append ks padding, padded))

get_or-align :
    (channels ks : List Str) (i : ℕ)
    → i < length channels
    → get_or (align channels ks) i [] ≡ get_or ks i []
unfolding align
get_or-align channels ks i h =
    let n = length channels - length ks in
    get_or-take (length channels) i (ks ++ replicate n []) [] h ∙ get_or-pad ks n i []

-- A JOIN line yields one key for each channel. The key of a channel is what stands at its position
-- in the key list, empty slots counted, and the empty key beyond the end of that list. The channels
-- are the parts of the target that are not blank, and none if the target is empty.
pub parse_join_line_aligned :
    (params : List Str) (trailing : Str) (i : ℕ)
    → let channels = (parse_join_line params trailing).0 in
      let keys = (parse_join_line params trailing).1 in
      let target = (join_target params trailing).0 in
      i < length channels
      → (length keys ≡ length channels)
        × (channels ≡ split_and_trim target)
        × (get_or keys i [] ≡ get_or (split_positional (join_target params trailing).1) i [])
unfolding parse_join_line
parse_join_line_aligned params trailing i h =
    let target = (join_target params trailing).0 in
    let ks = split_positional (join_target params trailing).1 in
    let channels = split_and_trim target in
    ground (arith, length-align channels ks, get_or-align channels ks i)
