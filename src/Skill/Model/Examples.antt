-- ===== src/Skill/Model/Examples.antt =====
-- Concrete skills and flat forms.
use turborg.Base.{map, not, str_beq, ◌≡◌, [], ◌∷◌, str_eq, keep}
use turborg.Skill.Model.{is_command, split_skills, to_definition, unmarshal_wire, marshal_wire}
use turborg.Skill.Model.Samples.{hello, hourly}
use turborg.Skill.Model.Wires.{unmarshal-marshal, marshal-unmarshal, split_skills_exact, canonical}

unmarshal-marshal_example : unmarshal_wire (marshal_wire hello) ≡ canonical hello
unmarshal-marshal_example = unmarshal-marshal hello

marshal-unmarshal_example :
    marshal_wire (unmarshal_wire (marshal_wire hourly)) ≡ marshal_wire hourly
unfolding marshal_wire is_command str_beq
marshal-unmarshal_example = marshal-unmarshal (marshal_wire hourly)

split_skills_exact_example : split_skills (hello ∷ hourly ∷ []) ≡ (
  map to_definition (keep is_command (hello ∷ hourly ∷ [])),
  keep (λ s. not (is_command s)) (hello ∷ hourly ∷ []),
)
split_skills_exact_example = split_skills_exact (hello ∷ hourly ∷ [])
