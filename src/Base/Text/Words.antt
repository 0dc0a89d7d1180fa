-- ===== src/Base/Text/Words.antt =====
-- What strings.Fields yields: of words joined by spaces, the words; of white space, nothing.
use Prim.Native.Nat.{ℕ, zero, suc}
use mathlib.Core.Path.{◌≡◌, refl, sym, ◌∙◌, ap}
use mathlib.Core.Logic.{◌≢◌, ◌↔◌}
use mathlib.Core.Bool.{Bool, false}
use mathlib.Core.List.{List, [], ◌∷◌, ◌++◌, append_assoc, append-nil}
use native.Mathlib.Omega.{arith}
use turborg.Base.Equality.{Str}
use mathlib.Core.Option.{Option, some, none}
use turborg.Base.Lists.{All}
use turborg.Base.Text.Split.{
  cut, trim_left, strip_prefix, begins_space, encoded, has_prefix, white_space, flush, fields_from,
  fields, join,
}

-- No byte that white space begins with.
abbrev pub HasNoSpace : Str → Type 0
HasNoSpace s = All (λ c. begins_space c ≡ false) s

abbrev pub IsWord : Str → Type 0
IsWord [] = ⊥
IsWord (c ∷ s) = HasNoSpace (c ∷ s)

-- Behind the first k bytes, one white-space character after the other.
pub IsBlankFrom : ℕ → Str → Type 0
unfolding encoded
IsBlankFrom k [] = Unit
IsBlankFrom (suc k) (c ∷ s) = IsBlankFrom k s
IsBlankFrom zero (c ∷ s) = elim (encoded white_space (c ∷ s)) [
  | some k ↦ IsBlankFrom k s
  | none ↦ ⊥
]

abbrev pub IsBlank : Str → Type 0
IsBlank s = IsBlankFrom 0 s

encoded-letter : (c : ℕ) (s : Str) → begins_space c ≡ false → encoded white_space (c ∷ s) ≡ none
unfolding encoded has_prefix strip_prefix
encoded-letter c s h = ground (arith, h)

fields_from-space :
    (k c : ℕ) (piece s : Str)
    → encoded white_space (c ∷ s) ≡ some k
    → fields_from 0 piece (c ∷ s) ≡ flush piece (fields_from k [] s)
unfolding fields_from
fields_from-space k c piece s h =
    ap
      (λ o. elim o [
        | some k ↦ flush piece (fields_from k [] s)
        | none ↦ fields_from 0 (piece ++ c ∷ []) s
      ])
      h

fields_from-other :
    (c : ℕ) (piece s : Str)
    → encoded white_space (c ∷ s) ≡ none
    → fields_from 0 piece (c ∷ s) ≡ fields_from 0 (piece ++ c ∷ []) s
unfolding fields_from
fields_from-other c piece s h =
    ap
      (λ o. elim o [
        | some k ↦ flush piece (fields_from k [] s)
        | none ↦ fields_from 0 (piece ++ c ∷ []) s
      ])
      h

fields_from-word :
    (piece w rest : Str)
    → HasNoSpace w
    → fields_from 0 piece (w ++ rest) ≡ fields_from 0 (piece ++ w) rest
fields_from-word piece [] rest h = ap (λ p. fields_from 0 p rest) (sym (append-nil piece))
fields_from-word piece (c ∷ w) rest h =
    fields_from-other c piece (w ++ rest) (encoded-letter c (w ++ rest) h.0)
    ∙ fields_from-word (piece ++ c ∷ []) w rest h.1
    ∙ ap (λ p. fields_from 0 p rest) (append_assoc piece (c ∷ []) w)

flush-word : (w : Str) (pieces : List Str) → IsWord w → flush w pieces ≡ w ∷ pieces
flush-word [] pieces h = absurd h
flush-word (c ∷ w) pieces h = refl

IsWord-HasNoSpace : (w : Str) → IsWord w → HasNoSpace w
IsWord-HasNoSpace [] h = absurd h
IsWord-HasNoSpace (c ∷ w) h = h

fields_from-end : (w : Str) → IsWord w → fields_from 0 [] w ≡ w ∷ []
unfolding fields_from
fields_from-end w h =
    ap (fields_from 0 []) (sym (append-nil w))
    ∙ fields_from-word [] w [] (IsWord-HasNoSpace w h)
    ∙ flush-word w [] h

at_space : (s : Str) → encoded white_space (32 ∷ s) ≡ some 0
unfolding encoded has_prefix strip_prefix
at_space s = refl

fields_from-next :
    (w rest : Str) → IsWord w → fields_from 0 [] (w ++ 32 ∷ rest) ≡ w ∷ fields_from 0 [] rest
fields_from-next w rest h =
    fields_from-word [] w (32 ∷ rest) (IsWord-HasNoSpace w h)
    ∙ fields_from-space 0 32 w rest (at_space rest)
    ∙ flush-word w (fields_from 0 [] rest) h

pub fields-join : (ws : List Str) → All IsWord ws → fields (join (32 ∷ []) ws) ≡ ws
unfolding fields join
fields-join [] h = unfold fields_from in refl
fields-join (w ∷ []) h = fields_from-end w h.0
fields-join (w ∷ v ∷ ws) h =
    fields_from-next w (join (32 ∷ []) (v ∷ ws)) h.0
    ∙ ap (λ (r : List Str). w ∷ r) (fields-join (v ∷ ws) h.1)

flush-ne-nil : (c : ℕ) (piece : Str) (pieces : List Str) → flush (piece ++ c ∷ []) pieces ≢ []
flush-ne-nil c [] pieces e = cc
flush-ne-nil c (d ∷ piece) pieces e = cc

-- A piece that has begun ends up among the fields.
fields_from-ne-nil : (k c : ℕ) (piece s : Str) → fields_from k (piece ++ c ∷ []) s ≢ []
unfolding fields_from
fields_from-ne-nil k c piece [] e = flush-ne-nil c piece [] e
fields_from-ne-nil (suc k) c piece (d ∷ s) e = fields_from-ne-nil k c piece s e
fields_from-ne-nil zero c piece (d ∷ s) e =
    cases (fields_from-ne-nil 0 d (piece ++ c ∷ []) s) (encoded white_space (d ∷ s)) refl
  where
    cases :
        (fields_from 0 ((piece ++ c ∷ []) ++ d ∷ []) s ≢ [])
        → (o : Option ℕ) → encoded white_space (d ∷ s) ≡ o
        → ⊥
    cases more (some k) h =
        flush-ne-nil c piece (fields_from k [] s)
          (sym (fields_from-space k d (piece ++ c ∷ []) s h) ∙ e)
    cases more none h = more (sym (fields_from-other d (piece ++ c ∷ []) s h) ∙ e)

blank_from : (k : ℕ) (s : Str) → (fields_from k [] s ≡ []) ↔ IsBlankFrom k s
unfolding fields_from IsBlankFrom
blank_from k [] = ((λ e. tt), λ h. refl)
blank_from (suc k) (c ∷ s) = blank_from k s
blank_from zero (c ∷ s) = cases (λ k. blank_from k s) (encoded white_space (c ∷ s))
  where
    cases :
        ((k : ℕ) → (fields_from k [] s ≡ []) ↔ IsBlankFrom k s)
        → (o : Option ℕ)
        → (elim o [ some k ↦ fields_from k [] s | none ↦ fields_from 0 (c ∷ []) s ] ≡ [])
          ↔ (elim o as (λ x. Type 0) [ some k ↦ IsBlankFrom k s | none ↦ ⊥ ])
    cases rest (some k) = rest k
    cases rest none = ((λ e. fields_from-ne-nil 0 c [] s e), λ b. absurd b)

-- No field at all: white space only.
pub fields-eq-nil : (s : Str) → (fields s ≡ []) ↔ IsBlank s
unfolding fields
fields-eq-nil s = blank_from 0 s

-- What begins with a prefix is the prefix and the rest.
pub strip_prefix-append : (p s : Str) → strip_prefix p (p ++ s) ≡ some s
unfolding strip_prefix
strip_prefix-append [] s = refl
strip_prefix-append (c ∷ p) s = ground (arith, strip_prefix-append p s)

pub strip_prefix_sound : (p s t : Str) → strip_prefix p s ≡ some t → s ≡ p ++ t
unfolding strip_prefix
strip_prefix_sound [] s t h = ground arith
strip_prefix_sound (c ∷ p) [] t h = cc
strip_prefix_sound (c ∷ p) (d ∷ s) t h = ground (arith, strip_prefix_sound p s t)

-- The first word of a line, up to the space behind it.
pub cut-space : (w s : Str) → HasNoSpace w → cut (32 ∷ []) (w ++ 32 ∷ s) ≡ some (w, s)
unfolding cut strip_prefix
cut-space [] s h = refl
cut-space (c ∷ w) s h = ground (arith, h.0, cut-space w s h.1)

pub trim_left-stop : (p : ℕ → Bool) (c : ℕ) (s : Str) → p c ≡ false → trim_left p (c ∷ s) ≡ c ∷ s
unfolding trim_left
trim_left-stop p c s h = ground (arith, h)
