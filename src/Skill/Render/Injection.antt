-- ===== src/Skill/Render/Injection.antt =====
-- What a value brings into a template is never expanded.
use turborg.Base.{
  suc, ap, arith, sym, ◌-◌, ◌∙◌, contains, false, length, refl, ◌≡◌, Str, [], none, some, ◌++◌, ◌∷◌,
  ℕ, str_eq, ◌==◌, nat_eq,
}
use mathlib.Core.List.{append-nil}
use turborg.Base.Text.Split.{strip_prefix}
use turborg.Skill.Render.{Found, replace_all}

-- Text without an opening brace.
abbrev pub IsPlain : Str → Type 0
IsPlain s = contains b'{' s ≡ false

module _ {St : Type 0} (find : St → Str → Found St) where
  pub replace_all-skip :
      (st : St) (a s : Str) → replace_all find st (length a) (a ++ s) ≡ replace_all find st 0 s
  unfolding replace_all
  replace_all-skip st [] s = refl
  replace_all-skip st (c ∷ a) s = replace_all-skip st a s

  module _
      (braced : (st : St) (c : ℕ) (s : Str) → (c == b'{') ≡ false → find st (c ∷ s) ≡ none) where
    -- Plain text in front is copied.
    replace_all-plain :
        (st : St) (a s : Str)
        → IsPlain a
        → let (rest, after) = replace_all find st 0 s in
          replace_all find st 0 (a ++ s) ≡ (a ++ rest, after)
    unfolding replace_all
    replace_all-plain st [] s h = refl
    replace_all-plain st (c ∷ a) s h =
        let behind : Found St → Str × St = λ o. elim o [
          | none ↦ let (rest, after) = replace_all find st 0 (a ++ s) in (c ∷ rest, after)
          | some (text, len, next) ↦
              let (rest, after) = replace_all find next (len - 1) (a ++ s) in (text ++ rest, after)
        ] in
        let grown : Str × St → Str × St = λ p. (c ∷ p.0, p.1) in
        ap behind (braced st c (a ++ s) (ground arith))
        ∙ ap grown (replace_all-plain st a s (ground arith))

    replace_all_plain : (st : St) (a : Str) → IsPlain a → replace_all find st 0 a ≡ (a, st)
    unfolding replace_all
    replace_all_plain st a h =
        ap (replace_all find st 0) (sym (append-nil a))
        ∙ replace_all-plain st a [] h
        ∙ ap (λ x. (x, st)) (append-nil a)

    -- A brace that begins no match, and plain text behind it, are copied.
    pub replace_all_missed :
        (st : St) (a s : Str)
        → IsPlain a
        → IsPlain s
        → find st (b'{' ∷ s) ≡ none
        → replace_all find st 0 (a ++ b'{' ∷ s) ≡ (a ++ b'{' ∷ s, st)
    unfolding replace_all
    replace_all_missed st a s h k missed =
        let behind : Found St → Str × St = λ o. elim o [
          | none ↦ let (rest, after) = replace_all find st 0 s in (b'{' ∷ rest, after)
          | some (text, len, next) ↦
              let (rest, after) = replace_all find next (len - 1) s in (text ++ rest, after)
        ] in
        let here : replace_all find st 0 (b'{' ∷ s) ≡ (b'{' ∷ s, st) =
          ap behind missed ∙ ap (λ p. (b'{' ∷ p.0, p.1)) (replace_all_plain st s k) in
        replace_all-plain st a (b'{' ∷ s) h ∙ ap (λ p. (a ++ p.0, p.1)) here

    -- One match between plain texts.
    pub replace_all-one :
        (st next : St) (a s b text : Str)
        → IsPlain a
        → IsPlain b
        → find st (b'{' ∷ (s ++ b)) ≡ some (text, suc (length s), next)
        → replace_all find st 0 (a ++ b'{' ∷ (s ++ b)) ≡ (a ++ (text ++ b), next)
    unfolding replace_all
    replace_all-one st next a s b text h k found =
        let behind : Found St → Str × St = λ o. elim o [
          | none ↦ let (rest, after) = replace_all find st 0 (s ++ b) in (b'{' ∷ rest, after)
          | some (text, len, next) ↦
              let (rest, after) = replace_all find next (len - 1) (s ++ b) in (text ++ rest, after)
        ] in
        let skip : suc (length s) - 1 ≡ length s = omega arith in
        let rest : replace_all find next (suc (length s) - 1) (s ++ b) ≡ (b, next) =
          ap (λ n. replace_all find next n (s ++ b)) skip
          ∙ replace_all-skip next s b
          ∙ replace_all_plain next b k in
        let here : replace_all find st 0 (b'{' ∷ (s ++ b)) ≡ (text ++ b, next) =
          ap behind found ∙ ap (λ p. (text ++ p.0, p.1)) rest in
        replace_all-plain st a (b'{' ∷ (s ++ b)) h ∙ ap (λ p. (a ++ p.0, p.1)) here

pub strip_prefix-other :
    (p : Str) (c : ℕ) (s : Str) → (c == b'{') ≡ false → strip_prefix (b'{' ∷ p) (c ∷ s) ≡ none
unfolding strip_prefix
strip_prefix-other p c s h = ground arith
