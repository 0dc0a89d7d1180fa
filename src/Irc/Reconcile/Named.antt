-- ===== src/Irc/Reconcile/Named.antt =====
-- The names of the wanted channels are trimmed and not empty, and their keys are in lower case.
use turborg.Base.{
  List, Option, Str, [], none, some, false, ◌∷◌, ◌&&◌, ◌||◌, ◌==◌, not, str_eq, str_beq_iff,
  is_some, All, arith, refl, ◌≡◌, Bool-cases, inl, inr,
}
use turborg.Base.Map.{Map, insert, delete, lookup}
use turborg.Base.Text.{is_empty, to_lower}
use turborg.Base.Text.Split.{trim_space}
use turborg.Base.Text.Trim.{trim_space-trim_space}
use turborg.Irc.Wanted.{
  WantedChannel, WantedChannels, add, add_entry, remove, new_wanted_channels, seed_all,
}
use turborg.Irc.Wanted.Entries.{Edit, adding, removing, edit, edit_all}

-- A name as it is stored, under its key.
abbrev pub Stored : Str → Str → Type 0
Stored key name = (trim_space name ≡ name) × (is_empty name ≡ false) × (to_lower name ≡ key)

abbrev pub Named : Map Str WantedChannel → Type 0
Named m = All (λ (e : Str × WantedChannel). Stored e.0 e.1.name) m

insert-Named :
    (k : Str) (x : WantedChannel) (m : Map Str WantedChannel)
    → Stored k x.name
    → Named m
    → Named (insert k x m)
unfolding insert
insert-Named k x [] h t = (h, tt)
insert-Named k x ((j, old) ∷ m) h (g, t) = elim (Bool-cases (j == k)) [
  | inl e ↦ rw e (h, t)
  | inr e ↦ rw e (g, insert-Named k x m h t)
]

delete-Named : (k : Str) (m : Map Str WantedChannel) → Named m → Named (delete k m)
unfolding delete
delete-Named k [] t = tt
delete-Named k ((j, old) ∷ m) (g, t) = elim (Bool-cases (j == k)) [
  | inl e ↦ rw e (delete-Named k m t)
  | inr e ↦ rw e (g, delete-Named k m t)
]

pub Named-lookup :
    (k : Str) (x : WantedChannel) (m : Map Str WantedChannel)
    → Named m
    → lookup k m ≡ some x
    → Stored k x.name
unfolding lookup
Named-lookup k x [] t h = absurd (ground arith)
Named-lookup k x ((j, old) ∷ m) (g, t) h = elim (Bool-cases (j == k)) [
  | inl e ↦ ground (arith, str_beq_iff j k, g.0, g.1, g.2)
  | inr e ↦ Named-lookup k x m t (ground arith)
]

add_entry-Named :
    (lc name key : Str) (w : WantedChannels) (o : Option WantedChannel)
    → Stored lc name
    → lookup lc w.channels ≡ o
    → Named w.channels
    → Named (add_entry lc name key w o).0.channels
unfolding add_entry
add_entry-Named lc name key w none h e t =
    insert-Named lc (record { name = name; key = key }) w.channels h t
add_entry-Named lc name key w (some x) h e t =
    elim (Bool-cases (not (is_empty key) && not (x.key == key))) [
      | inl g ↦
          rw g (
            insert-Named lc (record x { key = key }) w.channels (Named-lookup lc x w.channels t e)
              t)
      | inr g ↦ rw g t
    ]

add-Named :
    (name key : Str) (w : WantedChannels) → Named w.channels → Named (add name key w).0.channels
unfolding add
add-Named name key w t =
    let short = trim_space name in
    let lc = to_lower short in
    elim (Bool-cases (is_empty short)) [
      | inl e ↦ rw e t
      | inr e ↦ rw e (
          add_entry-Named lc short key w (lookup lc w.channels)
            (trim_space-trim_space name, e, refl) refl t)
    ]

remove-Named :
    (name : Str) (w : WantedChannels) → Named w.channels → Named (remove name w).0.channels
unfolding remove
remove-Named name w t =
    let lc = to_lower (trim_space name) in
    elim (Bool-cases (is_empty (trim_space name) || not (is_some (lookup lc w.channels)))) [
      | inl e ↦ rw e t
      | inr e ↦ rw e (delete-Named lc w.channels t)
    ]

seed_all-Named :
    (w : WantedChannels) (names : List Str) → Named w.channels → Named (seed_all w names).channels
unfolding seed_all
seed_all-Named w [] t = t
seed_all-Named w (name ∷ names) t = seed_all-Named (add name [] w).0 names (add-Named name [] w t)

edit-Named : (w : WantedChannels) (e : Edit) → Named w.channels → Named (edit w e).0.channels
unfolding edit
edit-Named w (adding name key) t = add-Named name key w t
edit-Named w (removing name) t = remove-Named name w t

edit_all-Named :
    (w : WantedChannels) (es : List Edit) → Named w.channels → Named (edit_all w es).channels
unfolding edit_all
edit_all-Named w [] t = t
edit_all-Named w (e ∷ es) t = edit_all-Named (edit w e).0 es (edit-Named w e t)

pub wanted-Named :
    (seed : List Str) (es : List Edit) → Named (edit_all (new_wanted_channels seed) es).channels
unfolding new_wanted_channels
wanted-Named seed es = edit_all-Named _ es (seed_all-Named _ seed tt)
