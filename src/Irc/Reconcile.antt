-- ===== src/Irc/Reconcile.antt =====
-- internal/connector/irc/connector.go: ReconcileChannels, which brings the wanted channels to a list
-- from outside. The map `want` is an association list, so its order stands for Go's.
pub mod Named
pub mod Exact
mod Examples
use turborg.Base.{
  Bool, List, Option, Str, [], none, some, true, false, ◌∷◌, ◌++◌, ◌&&◌, ◌==◌, str_eq,
  if◌then◌else◌, is_some,
}
use turborg.Base.Map.{Map, insert, lookup}
use turborg.Base.Text.{codes, is_empty, to_lower}
use turborg.Base.Text.Split.{trim_space}
use turborg.Irc.UpstreamState.{UpstreamState, registered}
use turborg.Irc.Wanted.{WantedChannel, WantedChannels, add, get, remove, snapshot}

-- Lower case to the spelling that was given last.
unfoldable pub want_of : List Str → Map Str Str → Map Str Str
want_of [] want = want
want_of (channel ∷ desired) want =
    let channel = trim_space channel in
    want_of desired (if is_empty channel then want else insert (to_lower channel) channel want)

-- What happens outside: the callback of the wanted channels, and lines to the server.
pub data Output : Type 0 where
  changed : Output
  wrote : Str → Output

abbrev pub outputs : Bool → Bool → Str → List Output
outputs fired online line =
    (if fired then changed ∷ [] else []) ++ (if online then wrote line ∷ [] else [])

-- The bodies of the two loops.
unfoldable pub drop_one :
    Bool → Map Str Str → WantedChannel → WantedChannels → WantedChannels × List Output
unfolding remove
drop_one online want cur w =
    let (without, fired) = remove cur.name w in
    if is_some (lookup (to_lower cur.name) want)
    then (w, [])
    else (without, outputs fired online (codes "PART " ++ cur.name))

unfoldable pub add_one : Bool → Str → WantedChannels → WantedChannels × List Output
unfolding get add
add_one online name w =
    let (larger, fired) = add name [] w in
    if is_some (get name w) then (w, []) else (larger, outputs fired online (codes "JOIN " ++ name))

unfoldable pub drop_unwanted :
    Bool → Map Str Str → List WantedChannel → WantedChannels → WantedChannels × List Output
unfolding drop_one
drop_unwanted online want [] w = (w, [])
drop_unwanted online want (cur ∷ curs) w =
    let (here, out) = drop_one online want cur w in
    let (last, more) = drop_unwanted online want curs here in (last, out ++ more)

unfoldable pub add_missing : Bool → Map Str Str → WantedChannels → WantedChannels × List Output
unfolding add_one
add_missing online [] w = (w, [])
add_missing online ((_, name) ∷ want) w =
    let (here, out) = add_one online name w in
    let (last, more) = add_missing online want here in (last, out ++ more)

abbrev pub is_registered : UpstreamState → Bool
is_registered registered = true
is_registered _ = false

unfoldable pub reconcile_channels :
    UpstreamState → Bool → List Str → WantedChannels → WantedChannels × List Output
unfolding want_of drop_unwanted add_missing snapshot
reconcile_channels state has_client desired w =
    let want = want_of desired [] in
    let online = is_registered state && has_client in
    let (kept, dropped) = drop_unwanted online want (snapshot w) w in
    let (last, joined) = add_missing online want kept in (last, dropped ++ joined)
