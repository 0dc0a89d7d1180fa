-- ===== src/Irc/Reconcile/Examples.antt =====
-- A reconciliation at concrete channels.
use turborg.Base.{
  List, Str, [], ◌∷◌, some, none, true, refl, ◌≡◌, str_eq, str_beq, or_zero, if◌then◌else◌,
}
use turborg.Base.Map.{lookup, insert, delete}
use turborg.Base.Text.{codes, to_lower}
use turborg.Base.Text.Split.{trim_space}
use turborg.Irc.UpstreamState.{registered}
use turborg.Irc.Wanted.{WantedChannels, get, new_wanted_channels}
use turborg.Irc.Wanted.Entries.{Edit, adding, edit_all}
use turborg.Irc.Reconcile.{wrote, Output, want_of, reconcile_channels}
use turborg.Irc.Reconcile.Exact.{reconcile_exact, listed, key, fresh}

abbrev seed : List Str
seed = codes "#a" ∷ codes "#Keyed" ∷ []

abbrev edits : List Edit
edits = adding (codes "#keyed") (codes "secret") ∷ []

abbrev desired : List Str
desired = codes " #KEYED " ∷ codes "#new" ∷ codes "  " ∷ []

abbrev wanted : WantedChannels
wanted = edit_all (new_wanted_channels seed) edits

reconcile_exact_example :
    get (codes "#keyed") (reconcile_channels registered true desired wanted).0 ≡ (
      if listed (key (codes "#keyed")) desired
      then some (
          or_zero
            (get (codes "#keyed") wanted)
            (fresh (or_zero (lookup (key (codes "#keyed")) (want_of desired [])) [])))
      else none)
reconcile_exact_example = reconcile_exact seed edits registered true desired (codes "#keyed")

-- The key stays, and the lines go out in this order.
kept_key :
    get (codes "#keyed") (reconcile_channels registered true desired wanted).0
    ≡ some (record { name = codes "#Keyed"; key = codes "secret" })
unfolding reconcile_channels get lookup insert delete to_lower trim_space str_beq edit_all
    new_wanted_channels
kept_key = refl

abbrev expected : List Output
expected = wrote (codes "PART #a") ∷ wrote (codes "JOIN #new") ∷ []

lines_out : (reconcile_channels registered true desired wanted).1 ≡ expected
unfolding reconcile_channels get lookup insert delete to_lower trim_space str_beq edit_all
    new_wanted_channels
lines_out = refl
