-- ===== src/Irc/Policy/Channels.antt =====
-- The cap on the joined channels, together with the state that counts them.
use turborg.Base.Result.{err, ok}
use turborg.Base.Text.{decimal}
use turborg.Base.Result.{refuse}
use turborg.Base.Int.{Int-cases}
use turborg.Base.{
  Bool, ap, false, ◌++◌, arith, if◌then◌else◌, inl, inr, refl, suc, ◌∙◌, ◌≤◌, List, Str, [],
  str_beq, true, ℕ, ◌∷◌, ◌≡◌,
}
use turborg.Base.Int.{pos, clamp}
use turborg.Base.Text.{codes}
use turborg.Irc.ChannelState.Size.{count-on_self_join}
use turborg.Irc.ChannelState.{ChannelState, count, on_self_join}
use turborg.Irc.Policy.{ClientLimits, at_channel_cap, allow_command}

-- A JOIN of a client: refused, or carried out and confirmed by the server.
unfoldable pub join_if_allowed : ClientLimits → Str → ChannelState → ChannelState
join_if_allowed l channel s = elim (allow_command (codes "JOIN") (count s) l) [
  | ok _ ↦ on_self_join channel s
  | err _ ↦ s
]

unfoldable pub join_all : ClientLimits → List Str → ChannelState → ChannelState
join_all l [] s = s
join_all l (channel ∷ rest) s = join_all l rest (join_if_allowed l channel s)

refused :
    {A : Type 0} (b : Bool) (reason : Str) (x y : A)
    → elim (refuse b reason) [ ok _ ↦ x | err _ ↦ y ] ≡ (if b then y else x)
refused true reason x y = refl
refused false reason x y = refl

join_refusal :
    (l : ClientLimits) (n : ℕ)
    → (reason : Str) × (allow_command (codes "JOIN") n l ≡ refuse (at_channel_cap l n) reason)
unfolding allow_command str_beq
join_refusal l n =
    (codes "channel limit reached (" ++ decimal (clamp l.max_channels) ++ codes ")", refl)

allow_join :
    (l : ClientLimits) (channel : Str) (s : ChannelState)
    → join_if_allowed l channel s
      ≡ (if at_channel_cap l (count s) then s else on_self_join channel s)
unfolding join_if_allowed
allow_join l channel s =
    let (reason, e) = join_refusal l (count s) in
    ap (λ o. elim o [ ok _ ↦ on_self_join channel s | err _ ↦ s ]) e
    ∙ refused (at_channel_cap l (count s)) reason (on_self_join channel s) s

join_if_allowed-capped :
    (k : ℕ) (l : ClientLimits) (channel : Str) (s : ChannelState)
    → l.max_channels ≡ pos (suc k)
    → count s ≤ suc k
    → count (join_if_allowed l channel s) ≤ suc k
unfolding at_channel_cap
join_if_allowed-capped k l channel s h room =
    rw (allow_join l channel s, h) (ground (arith, count-on_self_join channel s, room))

-- With a cap set, clients that ask for one channel at a time, each confirmed before the next, never
-- bring the number of joined channels above the cap, whatever they ask for.
pub joins_capped :
    (k : ℕ) (l : ClientLimits) (channels : List Str) (s : ChannelState)
    → l.max_channels ≡ pos (suc k)
    → count s ≤ suc k
    → count (join_all l channels s) ≤ suc k
unfolding join_all
joins_capped k l [] s h room = room
joins_capped k l (channel ∷ rest) s h room =
    joins_capped k l rest (join_if_allowed l channel s) h
      (join_if_allowed-capped k l channel s h room)

no_cap : (l : ClientLimits) (n : ℕ) → clamp l.max_channels ≡ 0 → at_channel_cap l n ≡ false
unfolding at_channel_cap
no_cap l n h = elim (Int-cases l.max_channels) [
  | inl (k, e) ↦ rw e (ground (arith, ap clamp e, h))
  | inr (k, e) ↦ rw e refl
]

-- A cap that is zero or negative restricts nobody: every channel that is asked for is joined.
pub joins_unrestricted :
    (l : ClientLimits) (channel : Str) (s : ChannelState)
    → clamp l.max_channels ≡ 0
    → join_if_allowed l channel s ≡ on_self_join channel s
joins_unrestricted l channel s h =
    allow_join l channel s
    ∙ ap (λ (b : Bool). if b then s else on_self_join channel s) (no_cap l (count s) h)
