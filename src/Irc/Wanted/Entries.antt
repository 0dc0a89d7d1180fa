-- ===== src/Irc/Wanted/Entries.antt =====
-- The wanted set of wanted.go: the map and the order agree, keys are never lost, and the callback
-- fires exactly when something changed.
use turborg.Base.Text.Split.{trim_space}
use turborg.Base.Map.{keys, IsMap, delete-IsMap, insert-IsMap, lookup, lookup-delete, lookup-insert}
use turborg.Base.Text.{is_empty, to_lower}
use turborg.Base.{
  ap, beq_refl, ◌≢◌, Bool, List, Option, false, if◌then◌else◌, none, not, refl, true, ◌&&◌, ◌==◌,
  ◌↔◌, Bool-cases, Distinct, Distinct-remove_first, Distinct-snoc, Option-cases, Str, [], arith,
  contains, contains-append, contains-remove_first, inl, inr, is_some, some, str_beq_iff, str_eq,
  ◌∷◌, ◌≡◌,
}
use turborg.Irc.Wanted.{
  get, new_wanted_channels, seed_all, WantedChannel, WantedChannels, add, add_entry, remove,
}

pub record IsConsistent (w : WantedChannels) : Type 0 where
  pub distinct : Distinct w.order
  pub is_map : IsMap w.channels
  pub agree : (k : Str) → contains k w.order ≡ is_some (lookup k w.channels)

add_entry-IsConsistent :
    (lc name key : Str) (w : WantedChannels)
    → IsConsistent w
    → IsConsistent (add_entry lc name key w (lookup lc w.channels)).0
unfolding add_entry
add_entry-IsConsistent lc name key w c = elim (Option-cases (lookup lc w.channels)) [
  | inl e ↦ rw e (record {
    distinct = Distinct-snoc w.order lc c.distinct (ground (arith, c.agree lc));
    is_map = insert-IsMap lc _ w.channels c.is_map;
    agree = λ k. ground (
      arith,
      c.agree k,
      contains-append k w.order (lc ∷ []),
      lookup-insert lc k (record { name = name; key = key }) w.channels,
    );
  })
  | inr (existing, e) ↦ rw e (rewritten existing e)
]
  where
    rewritten :
        (x : WantedChannel)
        → lookup lc w.channels ≡ some x
        → IsConsistent (add_entry lc name key w (some x)).0
    rewritten x e = record {
      distinct = ground (arith, c.distinct);
      is_map =
          ground (arith, c.is_map, insert-IsMap lc (record x { key = key }) w.channels c.is_map);
      agree = λ k. ground (
        arith,
        c.agree k,
        e,
        str_beq_iff lc k,
        lookup-insert lc k (record x { key = key }) w.channels,
      );
    }

add-IsConsistent :
    (name key : Str) (w : WantedChannels) → IsConsistent w → IsConsistent (add name key w).0
unfolding add
add-IsConsistent name key w c = elim (Bool-cases (is_empty (trim_space name))) [
  | inl e ↦ rw e c
  | inr e ↦ rw e (add_entry-IsConsistent (to_lower (trim_space name)) (trim_space name) key w c)
]

remove-IsConsistent :
    (name : Str) (w : WantedChannels) → IsConsistent w → IsConsistent (remove name w).0
unfolding remove
remove-IsConsistent name w c =
    let lc = to_lower (trim_space name) in
    record {
      distinct = ground (arith, c.distinct, Distinct-remove_first lc w.order c.distinct);
      is_map = ground (arith, c.is_map, delete-IsMap lc w.channels c.is_map);
      agree = λ k. ground (
        arith,
        c.agree k,
        contains-remove_first lc k w.order c.distinct,
        lookup-delete lc k w.channels,
      );
    }

pub data Edit : Type 0 where
  adding : Str → Str → Edit
  removing : Str → Edit

unfoldable pub edit : WantedChannels → Edit → WantedChannels × Bool
edit w (adding name key) = add name key w
edit w (removing name) = remove name w

unfoldable pub edit_all : WantedChannels → List Edit → WantedChannels
unfolding edit
edit_all w [] = w
edit_all w (e ∷ es) = edit_all (edit w e).0 es

edit-IsConsistent : (w : WantedChannels) (e : Edit) → IsConsistent w → IsConsistent (edit w e).0
unfolding edit
edit-IsConsistent w (adding name key) c = add-IsConsistent name key w c
edit-IsConsistent w (removing name) c = remove-IsConsistent name w c

edit_all-IsConsistent :
    (w : WantedChannels) (es : List Edit) → IsConsistent w → IsConsistent (edit_all w es)
unfolding edit_all
edit_all-IsConsistent w [] c = c
edit_all-IsConsistent w (e ∷ es) c = edit_all-IsConsistent (edit w e).0 es (edit-IsConsistent w e c)

seed_all-IsConsistent :
    (w : WantedChannels) (names : List Str) → IsConsistent w → IsConsistent (seed_all w names)
unfolding seed_all
seed_all-IsConsistent w [] c = c
seed_all-IsConsistent w (name ∷ names) c =
    seed_all-IsConsistent (add name [] w).0 names (add-IsConsistent name [] w c)

-- From any seed list and after any additions and removals, the map and the order name the same
-- channels, each once.
pub wanted-IsConsistent :
    (seed : List Str) (es : List Edit) → IsConsistent (edit_all (new_wanted_channels seed) es)
unfolding new_wanted_channels lookup keys
wanted-IsConsistent seed es =
    edit_all-IsConsistent _ es
      (seed_all-IsConsistent _ seed (record { distinct = tt; is_map = tt; agree = λ k. refl }))

-- What an addition makes of the entry that was there: the first spelling of the name stays, and
-- only a key that is not empty replaces the key.
abbrev pub merged : Str → Str → Option WantedChannel → WantedChannel
merged name key none = record { name = name; key = key }
merged name key (some x) = record x { key = if is_empty key then x.key else key }

merged-same :
    (name key : Str) (x : WantedChannel)
    → (is_empty key ≡ false → key ≡ x.key)
    → merged name key (some x) ≡ x
merged-same name [] x h = refl
merged-same name (c ∷ key) x h = λ i. record x { key = h refl i }

pub lookup-add_entry :
    (lc name key k : Str) (w : WantedChannels)
    → lookup k (add_entry lc name key w (lookup lc w.channels)).0.channels
      ≡ (if lc == k then some (merged name key (lookup lc w.channels)) else lookup k w.channels)
unfolding add_entry
lookup-add_entry lc name key k w = elim (Option-cases (lookup lc w.channels)) [
  | inl e ↦ ground (arith, e, lookup-insert lc k (record { name = name; key = key }) w.channels)
  | inr (x, e) ↦ ground (
    arith,
    e,
    str_beq_iff lc k,
    str_beq_iff x.key key,
    lookup-insert lc k (record x { key = key }) w.channels,
    merged-same name key x,
  )
]

-- An addition, seen through lookups: the named channel has the merged entry, whatever the case in
-- which it was named, and every other channel is as it was. A blank name does nothing.
pub get-add :
    (name key other : Str) (w : WantedChannels)
    → get other (add name key w).0 ≡ (
        if is_empty (trim_space name)
        then get other w
        else if to_lower (trim_space name) == to_lower (trim_space other)
        then some (merged (trim_space name) key (get name w))
        else get other w)
unfolding get add
get-add name key other w = ground (
  arith,
  lookup-add_entry (to_lower (trim_space name)) (trim_space name) key (to_lower (trim_space other))
      w,
)

-- A removal, seen through lookups: the named channel is gone, every other is as it was.
pub get-remove :
    (name other : Str) (w : WantedChannels)
    → get other (remove name w).0 ≡ (
        if not (is_empty (trim_space name))
          && to_lower (trim_space name) == to_lower (trim_space other)
        then none
        else get other w)
unfolding get remove
get-remove name other w =
    let lc = to_lower (trim_space name) in
    let k = to_lower (trim_space other) in
    ground (arith, lookup-delete lc k w.channels, str_beq_iff lc k)

-- The key of an entry, or the empty string.
abbrev key_of : Option WantedChannel → Str
key_of none = []
key_of (some x) = x.key

add_fired :
    (name key : Str) (w : WantedChannels)
    → (add name key w).1 ≡ true
    → get name (add name key w).0 ≢ get name w
unfolding add add_entry get
add_fired name key w h same =
    let lc = to_lower (trim_space name) in
    let fresh : WantedChannel = record { name = trim_space name; key = key } in
    elim (Option-cases (lookup lc w.channels)) [
      | inl e ↦ ground (arith, e, lookup-insert lc lc fresh w.channels, beq_refl lc)
      | inr (x, e) ↦ ground (
        arith,
        e,
        lookup-insert lc lc (record x { key = key }) w.channels,
        beq_refl lc,
        str_beq_iff x.key key,
        ap key_of same,
      )
    ]

remove_fired :
    (name : Str) (w : WantedChannels)
    → (remove name w).1 ≡ true
    → get name (remove name w).0 ≢ get name w
unfolding remove get
remove_fired name w h same =
    let lc = to_lower (trim_space name) in
    ground (arith, lookup-delete lc lc w.channels, beq_refl lc)

-- With a callback installed, an edit fires it if and only if it changed the set.
pub edit_fires_iff :
    (w : WantedChannels) (e : Edit)
    → w.on_change ≡ true
    → ((edit w e).1 ≡ false) ↔ ((edit w e).0 ≡ w)
unfolding edit
edit_fires_iff w (adding name key) on = (
  λ h. unfold add add_entry in ground arith,
  λ same. elim (Bool-cases (add name key w).1) [
    | inl fired ↦ absurd (add_fired name key w fired (ap (get name) same))
    | inr quiet ↦ quiet
  ],
)
edit_fires_iff w (removing name) on = (
  λ h. unfold remove in ground arith,
  λ same. elim (Bool-cases (remove name w).1) [
    | inl fired ↦ absurd (remove_fired name w fired (ap (get name) same))
    | inr quiet ↦ quiet
  ],
)
