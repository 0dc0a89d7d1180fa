-- ===== src/Skill/Model/Wires.antt =====
-- Skills and their flat form stand for each other.
use turborg.Base.{
  ap, str_beq, Bool-cases, inl, inr, map, not, refl, ◌≡◌, Bool, List, Str, [], ◌∷◌, ◌||◌,
  if◌then◌else◌, str_eq, ◌==◌, keep,
}
use turborg.Base.Text.{is_empty}
use turborg.Skill.Model.{
  is_command, kind_command, split_skills, to_definition, Skill, Wire, unmarshal_wire, marshal_wire,
}

-- The kind of trigger that an absent one stands for, and no separate word for a command, which the
-- flat form has no field for.
abbrev pub canonical : Skill → Skill
canonical s =
    let t = s.trigger in
    let kind : Str = if is_command s then kind_command else t.kind in
    record s { trigger = record t { kind = kind; command = [] } }

abbrev says_command : Str → Bool
says_command kind = is_empty kind || kind == kind_command

kind_read :
    (kind : Str)
    → let written : Str = if says_command kind then [] else kind in
      (if is_empty written then kind_command else written)
      ≡ (if says_command kind then kind_command else kind)
kind_read [] = refl
kind_read (c ∷ s) = elim (Bool-cases (str_beq (c ∷ s) kind_command)) [
  | inl e ↦ rw e refl
  | inr e ↦ rw e refl
]

kind_written :
    (kind : Str)
    → let read : Str = if is_empty kind then kind_command else kind in
      (if says_command read then [] else read) ≡ (if kind == kind_command then [] else kind)
unfolding str_beq
kind_written [] = refl
kind_written (c ∷ s) = refl

-- A skill that is written and read again is the same, up to what the flat form leaves out.
pub unmarshal-marshal : (s : Skill) → unmarshal_wire (marshal_wire s) ≡ canonical s
unfolding unmarshal_wire marshal_wire is_command
unmarshal-marshal s =
    ap (λ kind. record s { trigger = record s.trigger { kind = kind; command = [] } })
      (kind_read s.trigger.kind)

-- A flat form that is read and written again is the same, but that the kind "command" is left out,
-- as it is in the historical form.
pub marshal-unmarshal :
    (w : Wire)
    → marshal_wire (unmarshal_wire w)
      ≡ record w { trigger_kind = if w.trigger_kind == kind_command then [] else w.trigger_kind }
unfolding unmarshal_wire marshal_wire is_command
marshal-unmarshal w = ap (λ kind. record w { trigger_kind = kind }) (kind_written w.trigger_kind)

-- Splitting sends each skill to exactly one side, in order.
pub split_skills_exact :
    (ss : List Skill)
    → split_skills ss ≡ (map to_definition (keep is_command ss), keep (λ s. not (is_command s)) ss)
unfolding split_skills
split_skills_exact [] = refl
split_skills_exact (s ∷ ss) = elim (Bool-cases (is_command s)) [
  | inl e ↦ rw (e, split_skills_exact ss) refl
  | inr e ↦ rw (e, split_skills_exact ss) refl
]
