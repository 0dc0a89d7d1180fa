-- ===== src/Skill/Render/Examples.antt =====
-- Templates rendered at concrete inputs.
use turborg.Base.{refl, ◌≡◌, [], str_eq, nat_eq, str_beq, ◌%◌}
use turborg.Base.Text.{codes, decimal}
use turborg.Base.Map.{lookup, insert}
use turborg.Skill.Store.{new_memory_store}
use turborg.Skill.Render.{Random, Moment, RenderFields}
use turborg.Skill.Render.Vars.{render_tmpl}
use turborg.Skill.Render.Message.{render_tmpl-quoting, quoting}

abbrev fixed : Random
fixed = record { intn = λ draw n. 3 % n; shuffle = λ draw options. options }

abbrev noon : Moment
noon = record { date = codes "2026-01-01"; time = codes "12:00:00"; datetime = codes "noon" }

-- A message that tries to use the helpers.
abbrev sly : RenderFields
sly = record {
  user = codes "mara";
  channel = codes "#go";
  text = codes "{setvar:a,b}{random:6}{owner}";
  target = [];
  reason = [];
  topic = [];
  modes = [];
  old_nick = [];
  new_nick = [];
  platform = codes "irc";
  owner = codes "bo";
  count = 0;
}

render_tmpl-quoting_example :
    render_tmpl fixed noon 0
      (codes "echo")
      (quoting (codes "said: ") (codes "!"))
      sly
      new_memory_store
    ≡ (codes "said: {setvar:a,b}{random:6}{owner}!", new_memory_store)
render_tmpl-quoting_example =
    render_tmpl-quoting (codes "said: ") (codes "!") refl refl fixed noon 0 (codes "echo") sly
      new_memory_store

-- In the template itself, they are expanded; what is set is read in the same text.
helpers :
    (render_tmpl fixed noon 0
      (codes "echo")
      (codes "{setvar:k, v }{getvar:k} {random:6} {choice:a, b} {nick}")
      sly
      new_memory_store).0
    ≡ codes "v 4 b mara"
unfolding render_tmpl new_memory_store lookup str_beq insert decimal
helpers = refl
