-- ===== src/Irc/ChannelState/Lookup.antt =====
-- What a lookup finds after each of the four ways in which state.go writes to its two containers.
use turborg.Base.Text.{to_lower}
use turborg.Base.{
  List, Option, Option-cases, Str, [], arith, if◌then◌else◌, inl, inr, none, or_zero, refl, some,
  str_beq_iff, str_eq, ◌==◌, ◌∷◌, ◌≡◌,
}
use turborg.Base.Map.{Map, keys, lookup, lookup-delete, lookup-insert}
use mathlib.Core.Option
use turborg.Irc.ChannelState.{
  ChannelInfo, ChannelState, new_info, update, each, on_self_join, on_self_part, on_names_reply,
  with_names, restart,
}

-- The info that a NAMES line leaves.
abbrev pub named : Str → List Str → Option ChannelInfo → ChannelInfo
named channel entries none = with_names entries (new_info channel)
named channel entries (some info) = with_names entries (restart info)

module _ (k : Str) where
  pub lookup-each :
      (f : ChannelInfo → ChannelInfo) (m : Map Str ChannelInfo)
      → lookup k (each f m) ≡ Option.map f (lookup k m)
  unfolding each lookup
  lookup-each f [] = refl
  lookup-each f ((j, info) ∷ m) = ground (arith, lookup-each f m)

  pub lookup-update :
      (channel : Str) (f : ChannelInfo → ChannelInfo) (s : ChannelState)
      → lookup k (update channel f s).channels ≡ (
          if to_lower channel == k then Option.map f (lookup k s.channels) else lookup k s.channels)
  unfolding update
  lookup-update channel f s =
      let key = to_lower channel in
      elim (Option-cases (lookup key s.channels)) [
        | inl e ↦ ground (arith, e, str_beq_iff key k)
        | inr (info, e) ↦
            ground (arith, e, str_beq_iff key k, lookup-insert key k (f info) s.channels)
      ]

  pub lookup-join :
      (channel : Str) (s : ChannelState)
      → lookup k (on_self_join channel s).channels ≡ (
          if to_lower channel == k
          then some (or_zero (lookup k s.channels) (new_info channel))
          else lookup k s.channels)
  unfolding on_self_join
  lookup-join channel s =
      let key = to_lower channel in
      elim (Option-cases (lookup key s.channels)) [
        | inl e ↦
            ground (arith, e, str_beq_iff key k, lookup-insert key k (new_info channel) s.channels)
        | inr (info, e) ↦ ground (arith, e, str_beq_iff key k)
      ]

  pub lookup-part :
      (channel : Str) (s : ChannelState)
      → lookup k (on_self_part channel s).channels
        ≡ (if to_lower channel == k then none else lookup k s.channels)
  unfolding on_self_part
  lookup-part channel s = lookup-delete (to_lower channel) k s.channels

  pub lookup-names :
      (channel : Str) (entries : List Str) (s : ChannelState)
      → lookup k (on_names_reply channel entries s).channels ≡ (
          if to_lower channel == k
          then some (named channel entries (lookup k s.channels))
          else lookup k s.channels)
  unfolding on_names_reply
  lookup-names channel entries s =
      let key = to_lower channel in
      let found = lookup key s.channels in
      elim (Option-cases found) [
        | inl e ↦ ground (
          arith,
          e,
          str_beq_iff key k,
          lookup-insert key k (with_names entries (new_info channel)) s.channels,
        )
        | inr (info, e) ↦ ground (
          arith,
          e,
          str_beq_iff key k,
          lookup-insert key k (with_names entries (restart info)) s.channels,
        )
      ]

pub keys-each : (f : ChannelInfo → ChannelInfo) (m : Map Str ChannelInfo) → keys (each f m) ≡ keys m
unfolding each keys
keys-each f [] = refl
keys-each f ((j, info) ∷ m) = ground (arith, keys-each f m)
