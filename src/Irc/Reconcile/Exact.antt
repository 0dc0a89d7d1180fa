-- ===== src/Irc/Reconcile/Exact.antt =====
-- What a reconciliation leaves of the wanted channels.
use turborg.Base.{
  beq_refl, sym, ◌∙◌, Bool, List, Str, [], none, some, true, false, ◌∷◌, ◌&&◌, ◌||◌, ◌==◌, not,
  str_eq, str_beq_iff, if◌then◌else◌, is_some, or_zero, contains, All, arith, refl, ◌≡◌, Bool-cases,
  Option-cases, inl, inr,
}
use turborg.Base.Map.{keys, Map, insert, lookup, lookup-insert, lookup-delete}
use turborg.Base.Text.{is_empty, to_lower}
use turborg.Base.Text.Split.{trim_space}
use turborg.Base.Text.Trim.{trim_space-trim_space}
use turborg.Irc.Wanted.{
  snapshot, new_wanted_channels, WantedChannel, WantedChannels, add, get, remove, entries_of,
}
use turborg.Irc.Wanted.Entries.{
  Edit, edit_all, IsConsistent, wanted-IsConsistent, lookup-add_entry, merged,
}
use turborg.Irc.UpstreamState.{UpstreamState}
use turborg.Irc.Reconcile.{
  is_registered, reconcile_channels, want_of, drop_one, add_one, drop_unwanted, add_missing,
}
use turborg.Irc.Reconcile.Named.{wanted-Named, Named, Stored, Named-lookup}

-- Whether a list from outside names the channel with a key.
abbrev pub listed : Str → List Str → Bool
listed k [] = false
listed k (channel ∷ desired) =
    (not (is_empty (trim_space channel)) && to_lower (trim_space channel) == k) || listed k desired

abbrev pub key : Str → Str
key channel = to_lower (trim_space channel)

want_of-listed :
    (k : Str) (desired : List Str) (want : Map Str Str)
    → is_some (lookup k (want_of desired want)) ≡ (listed k desired || is_some (lookup k want))
unfolding want_of
want_of-listed k [] want = refl
want_of-listed k (channel ∷ desired) want =
    let short = trim_space channel in
    elim (Bool-cases (is_empty short)) [
      | inl e ↦ rw e (want_of-listed k desired want)
      | inr e ↦ rw e (
          ground (
            arith,
            want_of-listed k desired (insert (to_lower short) short want),
            lookup-insert (to_lower short) k short want,
          ))
    ]

want-listed :
    (k : Str) (desired : List Str) → is_some (lookup k (want_of desired [])) ≡ listed k desired
unfolding lookup
want-listed k desired = ground (arith, want_of-listed k desired [])

abbrev StoredAll : Map Str Str → Type 0
StoredAll m = All (λ (e : Str × Str). Stored e.0 e.1) m

insert-StoredAll :
    (k name : Str) (m : Map Str Str) → Stored k name → StoredAll m → StoredAll (insert k name m)
unfolding insert
insert-StoredAll k name [] h t = (h, tt)
insert-StoredAll k name ((j, old) ∷ m) h (g, t) = elim (Bool-cases (j == k)) [
  | inl e ↦ rw e (h, t)
  | inr e ↦ rw e (g, insert-StoredAll k name m h t)
]

want_of-StoredAll :
    (desired : List Str) (want : Map Str Str) → StoredAll want → StoredAll (want_of desired want)
unfolding want_of
want_of-StoredAll [] want t = t
want_of-StoredAll (channel ∷ desired) want t =
    let short = trim_space channel in
    elim (Bool-cases (is_empty short)) [
      | inl e ↦ rw e (want_of-StoredAll desired want t)
      | inr e ↦ rw e (
          want_of-StoredAll desired (insert (to_lower short) short want) (
            insert-StoredAll (to_lower short) short want (trim_space-trim_space channel, e, refl)
              t))
    ]

lookup-remove :
    (k lc name : Str) (w : WantedChannels)
    → Stored lc name
    → lookup k (remove name w).0.channels ≡ (if lc == k then none else lookup k w.channels)
unfolding remove
lookup-remove k lc name w (short, full, low) =
    rw (short, full, low)
      (elim (Option-cases (lookup lc w.channels)) [
        | inl e ↦ ground (arith, e, str_beq_iff lc k)
        | inr (x, e) ↦ ground (arith, e, lookup-delete lc k w.channels)
      ])

lookup-add :
    (k lc name : Str) (w : WantedChannels)
    → Stored lc name
    → lookup k (add name [] w).0.channels
      ≡ (if lc == k then some (merged name [] (lookup lc w.channels)) else lookup k w.channels)
unfolding add
lookup-add k lc name w (short, full, low) = rw (short, full, low) (lookup-add_entry lc name [] k w)

-- A new entry for a name.
abbrev pub fresh : Str → WantedChannel
fresh name = record { name = name; key = [] }

module _ (online : Bool) where
  lookup-drop_one :
      (want : Map Str Str) (k lc : Str) (x : WantedChannel) (w : WantedChannels)
      → Stored lc x.name
      → lookup k (drop_one online want x w).0.channels
        ≡ (if (lc == k) && not (is_some (lookup k want)) then none else lookup k w.channels)
  unfolding drop_one
  lookup-drop_one want k lc x w h = elim (Bool-cases (is_some (lookup (to_lower x.name) want))) [
    | inl e ↦ rw e (ground (arith, h.2, str_beq_iff lc k))
    | inr e ↦ rw e (ground (arith, h.2, str_beq_iff lc k, lookup-remove k lc x.name w h))
  ]

  -- The entries of some keys are dropped, if the list does not name them.
  lookup-drop_unwanted :
      (want : Map Str Str) (k : Str) (channels : Map Str WantedChannel) (keys : List Str)
      (w : WantedChannels)
      → Named channels
      → All (λ lc. is_some (lookup lc channels) ≡ true) keys
      → lookup k (drop_unwanted online want (entries_of channels keys) w).0.channels
        ≡ (if contains k keys && not (is_some (lookup k want)) then none else lookup k w.channels)
  unfolding drop_unwanted entries_of
  lookup-drop_unwanted want k channels [] w t known = refl
  lookup-drop_unwanted want k channels (lc ∷ keys) w t (here, known) =
      elim (Option-cases (lookup lc channels)) [
        | inl e ↦ absurd (ground arith)
        | inr (x, e) ↦ rw e (
            ground (
              arith,
              lookup-drop_unwanted want k channels keys (drop_one online want x w).0 t known,
              lookup-drop_one want k lc x w (Named-lookup lc x channels t e),
            ))
      ]

  lookup-add_one :
      (k lc name : Str) (w : WantedChannels)
      → Stored lc name
      → lookup k (add_one online name w).0.channels ≡ (
          if lc == k
          then some (or_zero (lookup k w.channels) (fresh name))
          else lookup k w.channels)
  unfolding add_one get
  lookup-add_one k lc name w (short, full, low) = elim (Option-cases (lookup lc w.channels)) [
    | inl e ↦
        rw (short, low, e)
          (ground (arith, e, str_beq_iff lc k, lookup-add k lc name w (short, full, low)))
    | inr (x, e) ↦ rw (short, low, e) (ground (arith, e, str_beq_iff lc k))
  ]

  lookup-add_missing :
      (want : Map Str Str) (k : Str) (w : WantedChannels)
      → StoredAll want
      → lookup k (add_missing online want w).0.channels ≡ (
          if is_some (lookup k want)
          then some (or_zero (lookup k w.channels) (fresh (or_zero (lookup k want) [])))
          else lookup k w.channels)
  unfolding add_missing lookup
  lookup-add_missing [] k w t = refl
  lookup-add_missing ((lc, name) ∷ want) k w (h, t) =
      ground
        (arith, lookup-add_missing want k (add_one online name w).0 t, lookup-add_one k lc name w h)

order-Known :
    (channels : Map Str WantedChannel) (all : List Str)
    → ((k : Str) → contains k all ≡ true → is_some (lookup k channels) ≡ true)
    → All (λ lc. is_some (lookup lc channels) ≡ true) all
order-Known channels [] h = tt
order-Known channels (lc ∷ all) h =
    (h lc (ground (arith, beq_refl lc)), order-Known channels all (λ k g. h k (ground (arith, g))))

lookup-reconcile :
    (state : UpstreamState) (has_client : Bool) (desired : List Str) (w : WantedChannels) (k : Str)
    → IsConsistent w
    → Named w.channels
    → let want = want_of desired [] in
      lookup k (reconcile_channels state has_client desired w).0.channels ≡ (
        if listed k desired
        then some (or_zero (lookup k w.channels) (fresh (or_zero (lookup k want) [])))
        else none)
unfolding reconcile_channels snapshot
lookup-reconcile state has_client desired w k c t =
    let want = want_of desired [] in
    let online = is_registered state && has_client in
    let kept = (drop_unwanted online want (entries_of w.channels w.order) w).0 in
    let known = order-Known w.channels w.order (λ j g. sym (c.agree j) ∙ g) in
    ground (
      arith,
      lookup-add_missing online want k kept (want_of-StoredAll desired [] tt),
      lookup-drop_unwanted online want k w.channels w.order w t known,
      want-listed k desired,
      c.agree k,
    )

-- After any additions and removals, a reconciliation leaves exactly the channels that the list
-- names, whatever their case and the spaces around them, and is the same with a connection and
-- without: one that was wanted keeps its entry, with its key, and one that was not has an empty key
-- and the last spelling in the list.
pub reconcile_exact :
    (seed : List Str) (es : List Edit) (state : UpstreamState) (has_client : Bool)
    (desired : List Str) (channel : Str)
    → let w = edit_all (new_wanted_channels seed) es in
      get channel (reconcile_channels state has_client desired w).0 ≡ (
        if listed (key channel) desired
        then some (
            or_zero
              (get channel w)
              (fresh (or_zero (lookup (key channel) (want_of desired [])) [])))
        else none)
unfolding get
reconcile_exact seed es state has_client desired channel =
    lookup-reconcile state has_client desired (edit_all (new_wanted_channels seed) es) (key channel)
      (wanted-IsConsistent seed es) (wanted-Named seed es)
