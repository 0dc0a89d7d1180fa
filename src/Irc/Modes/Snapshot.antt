-- ===== src/Irc/Modes/Snapshot.antt =====
-- When the copy that the loop over the modes reads is as good as the current state.
use turborg.Base.{
  ap, beq_symm, sym, ◌∙◌, Bool-cases, arith, beq_refl, inl, inr, refl, ◌≡◌, Bool, List, Option, Str,
  [], contains, none, some, true, false, ◌==◌, ◌∷◌, nat_eq, str_eq, All, Distinct,
}
use mathlib.Core.Option
use mathlib.Core.Path.{subst}
use turborg.Base.Map.{lookup, Map, lookup-insert}
use turborg.Base.Text.{is_empty, to_lower}
use turborg.Irc.ChannelState.{ChannelState, ChannelInfo, get, set_member_prefix, with_prefix}
use turborg.Irc.ChannelState.Lookup.{lookup-update}
use turborg.Irc.Modes.{
  apply_prefix_modes_to_state, walk_copy, consumes_arg, new_prefix, prefix_for_letter, set_prefix,
  take_arg, on_letter, walk, step,
}

abbrev members_of : Option ChannelInfo → Map Str Str
members_of none = []
members_of (some info) = info.members

-- Reading the current state.
abbrev pub live : Str → ChannelState → Str → Option Str
live channel s nick = lookup nick (members_of (get channel s))

with_prefix-other :
    (a b prefix : Str) (info : ChannelInfo)
    → (a == b) ≡ false
    → lookup b (with_prefix a prefix info).members ≡ lookup b info.members
with_prefix-other a b prefix info h = ground (arith, lookup-insert a b prefix info.members)

members-map :
    (a b prefix : Str) (o : Option ChannelInfo)
    → (a == b) ≡ false
    → lookup b (members_of (Option.map (with_prefix a prefix) o)) ≡ lookup b (members_of o)
members-map a b prefix none h = refl
members-map a b prefix (some info) h = with_prefix-other a b prefix info h

live-set_prefix :
    (channel a b prefix : Str) (s : ChannelState)
    → (a == b) ≡ false
    → live channel (set_member_prefix channel a prefix s) b ≡ live channel s b
unfolding set_member_prefix get
live-set_prefix channel a b prefix s h = elim (Bool-cases (is_empty a)) [
  | inl e ↦ rw e refl
  | inr e ↦
      let k = to_lower channel in
      rw (e, lookup-update k channel (with_prefix a prefix) s, beq_refl k)
        (members-map a b prefix (lookup k s.channels) h)
]

live-set_new :
    (channel a b : Str) (new : Option Str) (s : ChannelState)
    → (a == b) ≡ false
    → live channel (set_prefix channel a new s) b ≡ live channel s b
live-set_new channel a b none s h = refl
live-set_new channel a b (some prefix) s h = live-set_prefix channel a b prefix s h

-- The copy agrees with the state on the arguments that are left.
abbrev Agree : Str → Map Str Str → ChannelState → List Str → Type 0
Agree channel copy s args = All (λ a. lookup a copy ≡ live channel s a) args

live-on_letter :
    (channel a b : Str) (adding : Bool) (o current : Option Str) (s : ChannelState)
    → (a == b) ≡ false
    → live channel (on_letter channel a adding o current s) b ≡ live channel s b
live-on_letter channel a b adding none current s h = refl
live-on_letter channel a b adding (some prefix) none s h = elim (Bool-cases (is_empty a)) [
  | inl e ↦ rw e refl
  | inr e ↦ rw e refl
]
live-on_letter channel a b adding (some prefix) (some current) s h =
    elim (Bool-cases (is_empty a)) [
      | inl e ↦ rw e refl
      | inr e ↦ rw e (live-set_new channel a b (new_prefix adding prefix current) s h)
    ]

-- Without an argument nothing changes.
on_letter_nameless :
    (channel : Str) (adding : Bool) (o current : Option Str) (s : ChannelState)
    → on_letter channel [] adding o current s ≡ s
on_letter_nameless channel adding none current s = refl
on_letter_nameless channel adding (some prefix) current s = refl

Agree-other :
    (channel a : Str) (adding : Bool) (o current : Option Str) (copy : Map Str Str)
    (s : ChannelState) (args : List Str)
    → contains a args ≡ false
    → Agree channel copy s args
    → Agree channel copy (on_letter channel a adding o current s) args
Agree-other channel a adding o current copy s [] h g = tt
Agree-other channel a adding o current copy s (b ∷ args) h (same, g) =
    let apart : (a == b) ≡ false = ground (arith, beq_symm a b, h) in
    (
      same ∙ sym (live-on_letter channel a b adding o current s apart),
      Agree-other channel a adding o current copy s args (ground arith) g,
    )

-- One letter gives the same with both ways of reading, and leaves the copy as good as it was.
letter-Agree :
    (channel : Str) (copy : Map Str Str) (b adding : Bool) (o : Option Str) (args : List Str)
    (s : ChannelState)
    → Distinct args
    → Agree channel copy s args
    → let (a, rest) = take_arg b args in
      let after = on_letter channel a adding o (live channel s a) s in
      (on_letter channel a adding o (lookup a copy) s ≡ after)
      × Distinct rest
      × Agree channel copy after rest
letter-Agree channel copy false adding o args s d g =
    let same = on_letter_nameless channel adding o (live channel s []) s in
    (
      on_letter_nameless channel adding o (lookup [] copy) s ∙ sym same,
      d,
      subst (λ t. Agree channel copy t args) (sym same) g,
    )
letter-Agree channel copy true adding o [] s d g =
    let same = on_letter_nameless channel adding o (live channel s []) s in
    (on_letter_nameless channel adding o (lookup [] copy) s ∙ sym same, tt, tt)
letter-Agree channel copy true adding o (a ∷ args) s (fresh, d) (here, g) = (
  ap (λ current. on_letter channel a adding o current s) here,
  d,
  Agree-other channel a adding o (live channel s a) copy s args fresh g,
)

walk-Agree :
    (channel : Str) (copy : Map Str Str) (modes : Str) (adding : Bool) (args : List Str)
    (s : ChannelState)
    → Distinct args
    → Agree channel copy s args
    → walk (λ _ nick. lookup nick copy) channel modes adding args s
      ≡ walk (live channel) channel modes adding args s
unfolding walk step
walk-Agree channel copy [] adding args s d g = refl
walk-Agree channel copy (c ∷ modes) adding args s d g = elim (Bool-cases (c == b'+')) [
  | inl e ↦ rw e (walk-Agree channel copy modes true args s d g)
  | inr e ↦ elim (Bool-cases (c == b'-')) [
    | inl f ↦ rw (e, f) (walk-Agree channel copy modes false args s d g)
    | inr f ↦
        let o = prefix_for_letter c in
        let (a, rest) = take_arg (consumes_arg adding c) args in
        let (same, fresh, agree) =
          letter-Agree channel copy (consumes_arg adding c) adding o args s d g in
        rw (e, f)
          (ap (λ t. walk (λ _ nick. lookup nick copy) channel modes adding rest t) same
            ∙ walk-Agree channel copy modes adding rest
                (on_letter channel a adding o (live channel s a) s) fresh agree)
  ]
]

Agree-refl :
    (channel : Str) (info : ChannelInfo) (s : ChannelState) (args : List Str)
    → get channel s ≡ some info
    → Agree channel info.members s args
Agree-refl channel info s [] h = tt
Agree-refl channel info s (a ∷ args) h =
    (ap (λ o. lookup a (members_of o)) (sym h), Agree-refl channel info s args h)

-- In a channel that is known, a MODE line in which no argument stands twice is followed as if each
-- letter read the prefix that its member has at that moment.
pub apply_modes_live :
    (channel modes : Str) (args : List Str) (info : ChannelInfo) (s : ChannelState)
    → get channel s ≡ some info
    → Distinct args
    → apply_prefix_modes_to_state channel modes args s
      ≡ walk (live channel) channel modes true args s
unfolding apply_prefix_modes_to_state
apply_modes_live channel modes args info s h d =
    ap (λ o. walk_copy channel modes args o s) h
    ∙ walk-Agree channel info.members modes true args s d (Agree-refl channel info s args h)
