-- ===== src/Skill/Render/Message.antt =====
-- A template that quotes the message.
use turborg.Base.{
  ap, contains-append, false, length, refl, suc, ◌∙◌, ◌≡◌, Str, [], none, some, ◌++◌, ◌∷◌, ℕ,
  str_eq, ◌==◌, nat_eq, All,
}
use turborg.Base.Time.{Time}
use turborg.Base.Text.{codes}
use turborg.Base.Text.Split.{strip_prefix}
use turborg.Skill.Store.{MemoryStore}
use turborg.Skill.Render.{
  chosen, drawn, placeholders, shuffled, Moment, Pairs, Random, RenderFields, argument, call_at,
  expand_helpers, find_choice, find_pair, find_random, find_shuffle, render, replace_all,
}
use turborg.Skill.Render.Vars.{get_behind, set_behind, render_tmpl, find_setvar, find_getvar}
use turborg.Skill.Render.Injection.{
  IsPlain, replace_all_missed, replace_all-one, strip_prefix-other,
}

call_at-other :
    (p : Str) (c : ℕ) (s : Str) → (c == b'{') ≡ false → call_at (b'{' ∷ p) (c ∷ s) ≡ none
unfolding call_at
call_at-other p c s h = ap (argument (suc (length p))) (strip_prefix-other p c s h)

-- Each old text begins with a brace.
abbrev Braced : Str × Str → Type 0
Braced p = (t : Str) × (p.0 ≡ b'{' ∷ t)

find_pair-other :
    (pairs : Pairs) (u : Unit {0}) (c : ℕ) (s : Str)
    → All Braced pairs
    → (c == b'{') ≡ false
    → find_pair pairs u (c ∷ s) ≡ none
unfolding find_pair
find_pair-other [] u c s b h = refl
find_pair-other ((old, new) ∷ pairs) u c s ((t, e), b) h =
    rw (e, strip_prefix-other t c s h, find_pair-other pairs u c s b h) refl

-- What stands for the text of the message, less its brace.
abbrev text_rest : Str
text_rest = codes "text}"

abbrev pub quoting : Str → Str → Str
quoting a b = a ++ b'{' ∷ (codes "text}" ++ b)

placeholders-Braced : (moment : Moment) (f : RenderFields) → All Braced (placeholders moment f)
unfolding placeholders
placeholders-Braced moment f = (
  (_, refl),
  (
    (_, refl),
    (
      (_, refl),
      (
        (_, refl),
        (
          (_, refl),
          (
            (_, refl),
            (
              (_, refl),
              (
                (_, refl),
                (
                  (_, refl),
                  (
                    (_, refl),
                    (
                      (_, refl),
                      (
                        (_, refl),
                        (
                          (_, refl),
                          (
                            (_, refl),
                            ((_, refl), ((_, refl), ((_, refl), ((_, refl), ((_, refl), tt))))),
                          ),
                        ),
                      ),
                    ),
                  ),
                ),
              ),
            ),
          ),
        ),
      ),
    ),
  ),
)

found_text :
    (moment : Moment) (f : RenderFields) (b : Str)
    → find_pair (placeholders moment f) tt (b'{' ∷ (text_rest ++ b))
      ≡ some (f.text, suc (length text_rest), tt)
unfolding find_pair placeholders strip_prefix
found_text moment f b = refl

module _ (a b : Str) (h : IsPlain a) (k : IsPlain b) where
  rest-IsPlain : IsPlain (text_rest ++ b)
  rest-IsPlain = contains-append b'{' text_rest b ∙ k

  kept_choice :
      (r : Random) (draw : ℕ)
      → replace_all (find_choice r) draw 0 (quoting a b) ≡ (quoting a b, draw)
  unfolding find_choice call_at strip_prefix
  kept_choice r draw =
      replace_all_missed (find_choice r)
        (λ st c s e. ap (chosen r st) (call_at-other (codes "choice:") c s e)) draw a
        (text_rest ++ b) h rest-IsPlain refl

  kept_shuffle :
      (r : Random) (draw : ℕ)
      → replace_all (find_shuffle r) draw 0 (quoting a b) ≡ (quoting a b, draw)
  unfolding find_shuffle call_at strip_prefix
  kept_shuffle r draw =
      replace_all_missed (find_shuffle r)
        (λ st c s e. ap (shuffled r st) (call_at-other (codes "shuffle:") c s e)) draw a
        (text_rest ++ b) h rest-IsPlain refl

  kept_random :
      (r : Random) (draw : ℕ)
      → replace_all (find_random r) draw 0 (quoting a b) ≡ (quoting a b, draw)
  unfolding find_random call_at strip_prefix
  kept_random r draw =
      replace_all_missed (find_random r)
        (λ st c s e. ap (drawn r st (c ∷ s)) (call_at-other (codes "random:") c s e)) draw a
        (text_rest ++ b) h rest-IsPlain refl

  expand_helpers-quoting : (r : Random) → expand_helpers r (quoting a b) ≡ quoting a b
  unfolding expand_helpers
  expand_helpers-quoting r =
      let third : Str × ℕ → Str = λ p. (replace_all (find_random r) p.1 0 p.0).0 in
      let second : Str × ℕ → Str = λ p. third (replace_all (find_shuffle r) p.1 0 p.0) in
      ap second (kept_choice r 0)
      ∙ ap third (kept_shuffle r 0)
      ∙ ap (λ (p : Str × ℕ). p.0) (kept_random r 0)

  render-quoting :
      (r : Random) (moment : Moment) (f : RenderFields)
      → render r moment (quoting a b) f ≡ a ++ (f.text ++ b)
  unfolding render
  render-quoting r moment f =
      let pairs = placeholders moment f in
      let whole =
        replace_all-one (find_pair pairs)
          (λ u c s e. find_pair-other pairs u c s (placeholders-Braced moment f) e) tt tt a
          text_rest b f.text h k (found_text moment f b) in
      ap (λ tmpl. (replace_all (find_pair pairs) tt 0 tmpl).0) (expand_helpers-quoting r)
      ∙ ap (λ (p : Str × Unit {0}). p.0) whole

  kept_setvar :
      (now : Time) (skill : Str) (st : MemoryStore)
      → replace_all (find_setvar now skill) st 0 (quoting a b) ≡ (quoting a b, st)
  unfolding find_setvar strip_prefix
  kept_setvar now skill st =
      replace_all_missed (find_setvar now skill)
        (λ st c s e.
          ap (λ o. set_behind now skill o st) (strip_prefix-other (codes "setvar:") c s e))
        st a (text_rest ++ b) h rest-IsPlain refl

  kept_getvar :
      (now : Time) (skill : Str) (st : MemoryStore)
      → replace_all (find_getvar now skill) st 0 (quoting a b) ≡ (quoting a b, st)
  unfolding find_getvar strip_prefix
  kept_getvar now skill st =
      replace_all_missed (find_getvar now skill)
        (λ st c s e.
          ap (λ o. get_behind now skill o st) (strip_prefix-other (codes "getvar:") c s e))
        st a (text_rest ++ b) h rest-IsPlain refl

  -- A template that quotes the message between plain texts gives the message as it was written,
  -- whatever helper, placeholder or store helper stands in it, and leaves the store alone.
  pub render_tmpl-quoting :
      (r : Random) (moment : Moment) (now : Time) (skill : Str) (f : RenderFields)
      (st : MemoryStore)
      → render_tmpl r moment now skill (quoting a b) f st ≡ (a ++ (f.text ++ b), st)
  unfolding render_tmpl
  render_tmpl-quoting r moment now skill f st =
      rw (kept_setvar now skill st, kept_getvar now skill st, render-quoting r moment f) refl
