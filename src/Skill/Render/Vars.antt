-- ===== src/Skill/Render/Vars.antt =====
-- internal/skill/engine.go: the store helpers of a template, and renderTmpl.
use turborg.Base.{
  contains, length, or_zero, Option, Str, [], none, some, ◌+◌, if◌then◌else◌, str_eq, nat_eq,
}
use turborg.Base.Int.{pos}
use turborg.Base.Time.{Time}
use turborg.Base.Text.{codes}
use turborg.Base.Text.Split.{cut, strip_prefix, trim_space}
use turborg.Skill.Store.{MemoryStore, get, set}
use turborg.Skill.Render.{Moment, Random, RenderFields, render, Found, replace_all}

abbrev pub Stored : Type 0
Stored = Found MemoryStore

abbrev pub write_var : Time → Str → Str → Option (Str × Str) → MemoryStore → Stored
write_var now skill key none st = none
write_var now skill key (some (val, after)) st = some (
  [],
  9 + length key + length val + 1,
  set now skill (trim_space key) (trim_space val) (pos 0) st,
)

abbrev pub keyed : Time → Str → Option (Str × Str) → MemoryStore → Stored
keyed now skill none st = none
keyed now skill (some (key, rest)) st =
    if contains b'}' key then none else write_var now skill key (cut (codes "}") rest) st

abbrev pub set_behind : Time → Str → Option Str → MemoryStore → Stored
set_behind now skill none st = none
set_behind now skill (some rest) st = keyed now skill (cut (codes ",") rest) st

-- `{setvar:key,value}`, which renders empty; the key has no comma and no brace.
unfoldable pub find_setvar : Time → Str → MemoryStore → Str → Stored
unfolding strip_prefix cut set trim_space
find_setvar now skill st s = set_behind now skill (strip_prefix (codes "{setvar:") s) st

abbrev pub read_var : Time → Str → Option (Str × Str) → MemoryStore → Stored
read_var now skill none st = none
read_var now skill (some (key, after)) st =
    let (val, next) = get now skill (trim_space key) st in
    if contains b',' key then none else some (or_zero val [], 8 + length key + 1, next)

abbrev pub get_behind : Time → Str → Option Str → MemoryStore → Stored
get_behind now skill none st = none
get_behind now skill (some rest) st = read_var now skill (cut (codes "}") rest) st

-- `{getvar:key}`
unfoldable pub find_getvar : Time → Str → MemoryStore → Str → Stored
unfolding strip_prefix cut get trim_space
find_getvar now skill st s = get_behind now skill (strip_prefix (codes "{getvar:") s) st

unfoldable pub render_tmpl :
    Random → Moment → Time → Str → Str → RenderFields → MemoryStore → Str × MemoryStore
unfolding replace_all find_setvar find_getvar render
render_tmpl r moment now skill tmpl f st =
    let (written, after) = replace_all (find_setvar now skill) st 0 tmpl in
    let (read, last) = replace_all (find_getvar now skill) after 0 written in
    (render r moment read f, last)
