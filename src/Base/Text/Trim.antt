-- ===== src/Base/Text/Trim.antt =====
-- strings.TrimSpace twice.
use Prim.Native.Nat.{ℕ, zero, suc}
use mathlib.Core.Path.{◌≡◌, refl, ap, sym, ◌∙◌, subst}
use mathlib.Core.Bool.{false}
use mathlib.Core.Option.{Option, none, some}
use mathlib.Core.List.{List, [], ◌∷◌, ◌++◌, map, reverse, reverse-append, reverse-reverse}
use native.Mathlib.Omega.{arith}
use turborg.Base.Equality.{Str}
use turborg.Base.Text.Split.{encoded, has_prefix, strip_prefix, trim_front, trim_space, white_space}

-- What is left does not begin with a character of the table.
Starts : List Str → Str → Type 0
Starts table [] = Unit
Starts table (c ∷ s) = encoded table (c ∷ s) ≡ none

trim_front-Starts : (table : List Str) (k : ℕ) (s : Str) → Starts table (trim_front table k s)
unfolding trim_front Starts
trim_front-Starts table k [] = tt
trim_front-Starts table (suc k) (c ∷ s) = trim_front-Starts table k s
trim_front-Starts table zero (c ∷ s) =
    cases (λ k. trim_front-Starts table k s) (encoded table (c ∷ s)) refl
  where
    cases :
        ((k : ℕ) → Starts table (trim_front table k s))
        → (o : Option ℕ) → encoded table (c ∷ s) ≡ o
        → Starts table (elim o [ none ↦ c ∷ s | some k ↦ trim_front table k s ])
    cases rest none h = h
    cases rest (some k) h = rest k

trim_front-id : (table : List Str) (s : Str) → Starts table s → trim_front table 0 s ≡ s
unfolding trim_front Starts
trim_front-id table [] h = refl
trim_front-id table (c ∷ s) h = ap (λ o. elim o [ none ↦ c ∷ s | some k ↦ trim_front table k s ]) h

-- What is trimmed off stood in front.
trim_front-suffix :
    (table : List Str) (k : ℕ) (s : Str) → (z : Str) × (s ≡ z ++ trim_front table k s)
unfolding trim_front
trim_front-suffix table k [] = ([], refl)
trim_front-suffix table (suc k) (c ∷ s) =
    let (z, e) = trim_front-suffix table k s in (c ∷ z, ap (λ (t : Str). c ∷ t) e)
trim_front-suffix table zero (c ∷ s) =
    cases (λ k. trim_front-suffix table k s) (encoded table (c ∷ s))
  where
    cases :
        ((k : ℕ) → (z : Str) × (s ≡ z ++ trim_front table k s))
        → (o : Option ℕ)
        → (z : Str) × (c ∷ s ≡ z ++ elim o [ none ↦ c ∷ s | some k ↦ trim_front table k s ])
    cases rest none = ([], refl)
    cases rest (some k) = let (z, e) = rest k in (c ∷ z, ap (λ (t : Str). c ∷ t) e)

-- A prefix of a text is one of the longer text.
has_prefix-append : (p s z : Str) → has_prefix p (s ++ z) ≡ false → has_prefix p s ≡ false
unfolding has_prefix strip_prefix
has_prefix-append [] s z h = h
has_prefix-append (d ∷ p) [] z h = refl
has_prefix-append (d ∷ p) (c ∷ s) z h = ground (arith, h, has_prefix-append p s z)

encoded-append :
    (table : List Str) (s z : Str) → encoded table (s ++ z) ≡ none → encoded table s ≡ none
unfolding encoded
encoded-append [] s z h = refl
encoded-append (p ∷ ps) s z h = ground (arith, h, has_prefix-append p s z, encoded-append ps s z)

Starts-append : (table : List Str) (s z : Str) → Starts table (s ++ z) → Starts table s
unfolding Starts
Starts-append table [] z h = tt
Starts-append table (c ∷ s) z h = encoded-append table (c ∷ s) z h

pub trim_space-trim_space : (s : Str) → trim_space (trim_space s) ≡ trim_space s
unfolding trim_space
trim_space-trim_space s =
    let u = trim_front white_space 0 s in
    let backwards = map reverse white_space in
    let r = trim_front backwards 0 (reverse u) in
    let (z, e) = trim_front-suffix backwards 0 (reverse u) in
    let whole : u ≡ reverse r ++ reverse z =
      sym (reverse-reverse u) ∙ ap reverse e ∙ reverse-append z r in
    let starts : Starts white_space (reverse r) =
      Starts-append white_space (reverse r) (reverse z)
        (subst (Starts white_space) whole (trim_front-Starts white_space 0 s)) in
    ap (λ t. reverse (trim_front backwards 0 (reverse t)))
      (trim_front-id white_space (reverse r) starts)
    ∙ ap (λ t. reverse (trim_front backwards 0 t)) (reverse-reverse r)
    ∙ ap reverse (trim_front-id backwards r (trim_front-Starts backwards 0 (reverse u)))
