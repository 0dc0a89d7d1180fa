-- ===== src/Skill/Render.antt =====
-- internal/skill/render.go, and renderTmpl of internal/skill/engine.go: how a template becomes a
-- text. Random numbers are a parameter, one for each draw, as are the formatted date and time.
pub mod Vars
pub mod Injection
pub mod Message
mod Examples
use turborg.Base.{
  get_or, is_some, keep, length, map, not, suc, take, ◌-◌, Bool, List, Option, Str, [], none, some,
  zero, ◌++◌, ◌+◌, ◌∷◌, ◌||◌, if◌then◌else◌, ℕ, str_eq, ◌==◌, nat_eq,
}
use turborg.Base.Int.{ℤ, pos, negsuc}
use turborg.Base.Map.{Map}
use turborg.Base.Time.{Time}
use turborg.Base.Text.{codes, is_empty, decimal}
use turborg.Base.Text.Split.{cut, strip_prefix, trim_space, split, join}
use turborg.Base.Text.Numbers.{atoi}
use turborg.Skill.Store.{MemoryStore, get, set}

-- What a match at the begin of a text is replaced with, its length, and the state after it.
abbrev pub Found : Type 0 → Type 0
Found St = Option (Str × ℕ × St)

module _ {St : Type 0} (find : St → Str → Found St) where
  -- Replaces every match, from left to right; `skip` bytes belong to the match before.
  unfoldable pub replace_all : St → ℕ → Str → Str × St
  replace_all st skip [] = ([], st)
  replace_all st (suc skip) (c ∷ s) = replace_all st skip s
  replace_all st zero (c ∷ s) = elim (find st (c ∷ s)) [
    | none ↦ let (rest, after) = replace_all st 0 s in (c ∷ rest, after)
    | some (text, len, next) ↦
        let (rest, after) = replace_all next (len - 1) s in (text ++ rest, after)
  ]

abbrev pub closed : ℕ → Option (Str × Str) → Option (Str × ℕ)
closed len none = none
closed len (some (arg, after)) = some (arg, len + length arg + 1)

-- Up to the closing brace, behind a head of the given length.
abbrev pub argument : ℕ → Option Str → Option (Str × ℕ)
argument len none = none
argument len (some rest) = closed len (cut (codes "}") rest)

-- A helper `{name:arg}` at the begin of a text: its argument, without a brace, and its length.
unfoldable pub call_at : Str → Str → Option (Str × ℕ)
unfolding strip_prefix cut
call_at head s = argument (length head) (strip_prefix head s)

unfoldable pub split_options : Str → List Str
unfolding split trim_space
split_options s = keep (λ p. not (is_empty p)) (map trim_space (split b',' s))

-- Of math/rand: Intn and Shuffle, at each draw.
pub record Random : Type 0 where
  pub intn : ℕ → ℕ → ℕ
  pub shuffle : ℕ → List Str → List Str

abbrev pub nth : List Str → ℕ → Str
nth xs i = get_or xs i []

abbrev pub choose : Random → ℕ → List Str → Str × ℕ
choose r draw [] = ([], draw)
choose r draw (o ∷ os) = (nth (o ∷ os) (r.intn draw (suc (length os))), suc draw)

abbrev pub chosen : Random → ℕ → Option (Str × ℕ) → Found ℕ
chosen r draw none = none
chosen r draw (some (arg, len)) =
    let (text, next) = choose r draw (split_options arg) in some (text, len, next)

unfoldable pub find_choice : Random → ℕ → Str → Found ℕ
unfolding call_at split_options
find_choice r draw s = chosen r draw (call_at (codes "{choice:") s)

abbrev pub shuffled : Random → ℕ → Option (Str × ℕ) → Found ℕ
shuffled r draw none = none
shuffled r draw (some (arg, len)) =
    some (join (codes ",") (r.shuffle draw (split_options arg)), len, suc draw)

unfoldable pub find_shuffle : Random → ℕ → Str → Found ℕ
unfolding call_at split_options join
find_shuffle r draw s = shuffled r draw (call_at (codes "{shuffle:") s)

-- A bound that is missing or not positive leaves the helper as it stands.
abbrev pub bounded : Random → ℕ → Str → ℕ → Option ℤ → Str × ℕ × ℕ
bounded r draw literal len (some (pos (suc n))) = (decimal (r.intn draw (suc n) + 1), len, suc draw)
bounded r draw literal len _ = (literal, len, draw)

abbrev pub drawn : Random → ℕ → Str → Option (Str × ℕ) → Found ℕ
drawn r draw s none = none
drawn r draw s (some (arg, len)) = some (bounded r draw (take len s) len (atoi (trim_space arg)))

unfoldable pub find_random : Random → ℕ → Str → Found ℕ
unfolding call_at atoi trim_space
find_random r draw s = drawn r draw s (call_at (codes "{random:") s)

unfoldable pub expand_helpers : Random → Str → Str
unfolding replace_all find_choice find_shuffle find_random
expand_helpers r tmpl =
    let (picked, draws) = replace_all (find_choice r) 0 0 tmpl in
    let (mixed, more) = replace_all (find_shuffle r) draws 0 picked in
    (replace_all (find_random r) more 0 mixed).0

pub record RenderFields : Type 0 where
  pub user : Str
  pub channel : Str
  pub text : Str
  pub target : Str
  pub reason : Str
  pub topic : Str
  pub modes : Str
  pub old_nick : Str
  pub new_nick : Str
  pub platform : Str
  pub owner : Str
  pub count : ℕ

-- now.Format with the three layouts.
pub record Moment : Type 0 where
  pub date : Str
  pub time : Str
  pub datetime : Str

abbrev pub Pairs : Type 0
Pairs = List (Str × Str)

-- The arguments of strings.NewReplacer.
unfoldable pub placeholders : Moment → RenderFields → Pairs
placeholders now f =
    (codes "{user}", f.user)
    ∷ (codes "{nick}", f.user)
    ∷ (codes "{channel}", f.channel)
    ∷ (codes "{room}", f.channel)
    ∷ (codes "{text}", f.text)
    ∷ (codes "{message}", f.text)
    ∷ (codes "{target}", f.target)
    ∷ (codes "{reason}", f.reason)
    ∷ (codes "{topic}", f.topic)
    ∷ (codes "{modes}", f.modes)
    ∷ (codes "{old}", f.old_nick)
    ∷ (codes "{new}", f.new_nick)
    ∷ (codes "{platform}", f.platform)
    ∷ (codes "{network}", f.platform)
    ∷ (codes "{owner}", f.owner)
    ∷ (codes "{count}", decimal f.count)
    ∷ (codes "{date}", now.date)
    ∷ (codes "{time}", now.time)
    ∷ (codes "{datetime}", now.datetime)
    ∷ []

-- The first pair whose old text stands at the begin.
unfoldable pub find_pair : Pairs → Unit {0} → Str → Found (Unit {0})
unfolding strip_prefix
find_pair [] u s = none
find_pair ((old, new) ∷ pairs) u s =
    let later = find_pair pairs u s in
    if is_some (strip_prefix old s) then some (new, length old, tt) else later

unfoldable pub render : Random → Moment → Str → RenderFields → Str
unfolding expand_helpers replace_all find_pair placeholders
render r now tmpl f = (replace_all (find_pair (placeholders now f)) tt 0 (expand_helpers r tmpl)).0
