-- ===== src/Irc/Protocol/Cutting.antt =====
-- Where the separators of a formatted line are.
use turborg.Base.Text.Split.{cons_fst, join, cut, strip_prefix, trim_left, trim_right}
use turborg.Base.{
  List, none, some, sym, All, Bool, Option, Str, [], ap, arith, false, nat_beq, refl, ℕ, ◌++◌, ◌∙◌,
  ◌∷◌, ◌≡◌,
}
use mathlib.Core.List.{append-nil, reverse, reverse_aux, reverse-reverse}
use mathlib.Core.Option
use turborg.Base.Text.Words.{HasNoSpace}
use turborg.Irc.Protocol.{is_line_end}

pub All-reverse_aux :
    (P : ℕ → Type 0) (xs acc : Str) → All P xs → All P acc → All P (reverse_aux xs acc)
All-reverse_aux P [] acc h k = k
All-reverse_aux P (x ∷ xs) acc h k = All-reverse_aux P xs (x ∷ acc) h.1 (h.0, k)

pub trim_left-none : (p : ℕ → Bool) (s : Str) → All (λ c. p c ≡ false) s → trim_left p s ≡ s
unfolding trim_left
trim_left-none p [] h = refl
trim_left-none p (c ∷ s) h = ground (arith, h.0)

pub trim_right-none : (p : ℕ → Bool) (s : Str) → All (λ c. p c ≡ false) s → trim_right p s ≡ s
unfolding trim_right
trim_right-none p s h =
    ap reverse (trim_left-none p (reverse s) (All-reverse_aux (λ c. p c ≡ false) s [] h tt))
    ∙ reverse-reverse s

-- A parameter: a word that does not begin with a colon.
abbrev pub IsParam : Str → Type 0
IsParam [] = ⊥
IsParam (c ∷ s) = HasNoSpace (c ∷ s) × (nat_beq c b':' ≡ false)

-- A command: a word that begins with no mark.
abbrev pub IsCommand : Str → Type 0
IsCommand [] = ⊥
IsCommand (c ∷ s) = HasNoSpace (c ∷ s) × (nat_beq c b':' ≡ false) × (nat_beq c b'@' ≡ false)

abbrev pub HasNoLineEnd : Str → Type 0
HasNoLineEnd s = All (λ c. is_line_end c ≡ false) s

pub cut-skip :
    (d c : ℕ) (sep s : Str)
    → nat_beq d c ≡ false
    → cut (d ∷ sep) (c ∷ s) ≡ Option.map (cons_fst c) (cut (d ∷ sep) s)
unfolding cut strip_prefix
cut-skip d c sep s h = ground (arith, h)

abbrev pub prepend : Str → Str × Str → Str × Str
prepend w (a, b) = (w ++ a, b)

pub map-prepend :
    (c : ℕ) (w : Str) (o : Option (Str × Str))
    → Option.map (cons_fst c) (Option.map (prepend w) o) ≡ Option.map (prepend (c ∷ w)) o
map-prepend c w none = refl
map-prepend c w (some p) = refl

pub map-prepend_nil : (o : Option (Str × Str)) → Option.map (prepend []) o ≡ o
map-prepend_nil none = refl
map-prepend_nil (some p) = refl

-- A separator that begins with a space is not in a word.
pub cut-word :
    (sep w s : Str)
    → HasNoSpace w
    → cut (32 ∷ sep) (w ++ s) ≡ Option.map (prepend w) (cut (32 ∷ sep) s)
cut-word sep [] s h = sym (map-prepend_nil (cut (32 ∷ sep) s))
cut-word sep (c ∷ w) s h =
    cut-skip 32 c sep (w ++ s) (ground (arith, h.0))
    ∙ ap (Option.map (cons_fst c)) (cut-word sep w s h.1)
    ∙ map-prepend c w (cut (32 ∷ sep) s)

abbrev pub space_colon : Str
space_colon = 32 ∷ b':' ∷ []

pub cut-hit : (t : Str) → cut space_colon (32 ∷ b':' ∷ t) ≡ some ([], t)
unfolding cut strip_prefix
cut-hit t = refl

pub cut-param :
    (c : ℕ) (s : Str)
    → nat_beq c b':' ≡ false
    → cut space_colon (32 ∷ c ∷ s) ≡ Option.map (cons_fst 32) (cut space_colon (c ∷ s))
unfolding cut strip_prefix
cut-param c s h = ground (arith, h)

pub join-snoc :
    (w x : Str) (ps : List Str)
    → join (32 ∷ []) (w ∷ (ps ++ x ∷ [])) ≡ w ++ 32 ∷ join (32 ∷ []) (ps ++ x ∷ [])
unfolding join
join-snoc w x [] = refl
join-snoc w x (p ∷ ps) = refl

pub join-next :
    (w p : Str) (ps : List Str) → join (32 ∷ []) (w ∷ p ∷ ps) ≡ w ++ 32 ∷ join (32 ∷ []) (p ∷ ps)
unfolding join
join-next w p ps = refl

-- A joined list of words begins as its first word does.
pub join-head :
    (c : ℕ) (v : Str) (ps : List Str) → (r : Str) × (join (32 ∷ []) ((c ∷ v) ∷ ps) ≡ c ∷ r)
unfolding join
join-head c v [] = (v, refl)
join-head c v (p ∷ ps) = (v ++ (32 ∷ join (32 ∷ []) (p ∷ ps)), refl)

-- No " :" begins at the space before a parameter.
pub cut-params :
    (c : ℕ) (v : Str) (ps : List Str)
    → nat_beq c b':' ≡ false
    → let s = join (32 ∷ []) ((c ∷ v) ∷ ps) in
      cut space_colon (32 ∷ s) ≡ Option.map (cons_fst 32) (cut space_colon s)
cut-params c v ps h = let (r, e) = join-head c v ps in rw e (cut-param c r h)

-- The first " :" of a formatted line is where its trailing part begins.
pub cut-line :
    (w t : Str) (ps : List Str)
    → HasNoSpace w
    → All IsParam ps
    → cut space_colon (join (32 ∷ []) (w ∷ (ps ++ (b':' ∷ t) ∷ [])))
      ≡ some (join (32 ∷ []) (w ∷ ps), t)
cut-line w t [] h hs =
    ap (cut space_colon) (join-snoc w (b':' ∷ t) [])
    ∙ cut-word (b':' ∷ []) w (32 ∷ join (32 ∷ []) ((b':' ∷ t) ∷ [])) h
    ∙ (unfold join in
        ap (Option.map (prepend w)) (cut-hit t) ∙ ap (λ (a : Str). some (a, t)) (append-nil w))
cut-line w t ([] ∷ ps) h hs = absurd hs.0
cut-line w t ((c ∷ v) ∷ ps) h hs =
    ap (cut space_colon) (join-snoc w (b':' ∷ t) ((c ∷ v) ∷ ps))
    ∙ cut-word (b':' ∷ []) w (32 ∷ join (32 ∷ []) ((c ∷ v) ∷ (ps ++ (b':' ∷ t) ∷ []))) h
    ∙ ap (Option.map (prepend w)) (cut-params c v (ps ++ (b':' ∷ t) ∷ []) hs.0.1)
    ∙ ap (λ o. Option.map (prepend w) (Option.map (cons_fst 32) o))
        (cut-line (c ∷ v) t ps hs.0.0 hs.1)
    ∙ (unfold join in refl)

pub cut-line_none :
    (w : Str) (ps : List Str)
    → HasNoSpace w
    → All IsParam ps
    → cut space_colon (join (32 ∷ []) (w ∷ ps)) ≡ none
cut-line_none w [] h hs =
    unfold join in
    (ap (cut space_colon) (sym (append-nil w)) ∙ cut-word (b':' ∷ []) w [] h ∙ (unfold cut in refl))
cut-line_none w ([] ∷ ps) h hs = absurd hs.0
cut-line_none w ((c ∷ v) ∷ ps) h hs =
    ap (cut space_colon) (join-next w (c ∷ v) ps)
    ∙ cut-word (b':' ∷ []) w (32 ∷ join (32 ∷ []) ((c ∷ v) ∷ ps)) h
    ∙ ap (Option.map (prepend w)) (cut-params c v ps hs.0.1)
    ∙ ap (λ o. Option.map (prepend w) (Option.map (cons_fst 32) o))
        (cut-line_none (c ∷ v) ps hs.0.0 hs.1)
