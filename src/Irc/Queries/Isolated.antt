-- ===== src/Irc/Queries/Isolated.antt =====
-- What is published for a WHOIS, among the lines and the requests of others.
use turborg.Base.Text.Split.{fields}
use turborg.Base.{
  sym, All, ◌||◌, Option-cases, beq_refl, str_beq, str_beq_iff, ◌∙◌, Bool, List, Option, Str, [],
  none, some, false, ◌∷◌, ◌++◌, ◌&&◌, ◌||◌, ◌==◌, str_eq, if◌then◌else◌, contains, arith, refl, ◌≡◌,
  ap, Bool-cases, inl, inr,
}
use mathlib.Core.Path.{subst}
use mathlib.Core.List.{append-nil, append_assoc}
use turborg.Base.Map.{lookup-insert, lookup, lookup-delete}
use turborg.Base.Text.{codes, is_empty, to_lower}
use turborg.Irc.Protocol.{Message}
use turborg.Irc.Queries.{
  WhoisBuilder, new_builder, Result, whois_result, whois_error, nth, apply_whois_numeric, WhoisMap,
  publish_whois_result, mark_whois_requested, with_nick, whois_found, whois_target,
  handle_whois_numeric, no_such_nick, handle_whois_no_such_nick, whois_numerics, Op, asked, arrived,
  whois_step, whois_run,
}

-- The results about the nick with a key.
abbrev pub is_about : Str → Result → Bool
is_about k (whois_result target fields) = to_lower target == k
is_about k (whois_error target reason) = to_lower target == k

unfoldable pub results_for : Str → List Result → List Result
results_for k [] = []
results_for k (r ∷ rs) = let rest = results_for k rs in if is_about k r then r ∷ rest else rest

abbrev pub names_nick : Str → Option Str → Bool
names_nick k none = false
names_nick k (some target) = to_lower target == k

-- Whether an operation ends the reply for the nick with a key: its 318 or its 401.
abbrev pub ends : Str → Op → Bool
ends k (asked target) = false
ends k (arrived m) =
    (m.command == codes "318" || m.command == codes "401") && names_nick k (nth 1 m.params)

abbrev pub folded : Message → Option Str → WhoisBuilder → WhoisBuilder
folded m none b = b
folded m (some target) b = (apply_whois_numeric m (with_nick target b)).1

-- The builder that the numerics for a nick alone give.
unfoldable pub gathered : Str → List Op → WhoisBuilder → WhoisBuilder
gathered k [] b = b
gathered k (asked target ∷ ops) b = gathered k ops b
gathered k (arrived m ∷ ops) b = gathered k ops (
    if contains m.command whois_numerics && names_nick k (nth 1 m.params)
    then folded m (nth 1 m.params) b
    else b)

pub results_for-append :
    (k : Str) (rs ts : List Result)
    → results_for k (rs ++ ts) ≡ results_for k rs ++ results_for k ts
unfolding results_for
results_for-append k [] ts = refl
results_for-append k (r ∷ rs) ts = elim (Bool-cases (is_about k r)) [
  | inl e ↦ rw e (ap (λ xs. r ∷ xs) (results_for-append k rs ts))
  | inr e ↦ rw e (results_for-append k rs ts)
]

-- A step that does not end the reply for a nick leaves it with a builder, and publishes nothing
-- about it.
abbrev pub Goes : Str → WhoisBuilder → WhoisMap × List Result → Type 0
Goes k b r = (lookup k r.0 ≡ some b) × (results_for k r.1 ≡ [])

publish-other :
    (k target : Str) (b : WhoisBuilder) (old : WhoisBuilder) (reason : Str) (w : WhoisMap)
    → (to_lower target == k) ≡ false
    → lookup k w ≡ some b
    → Goes k b (publish_whois_result target old reason w)
unfolding publish_whois_result results_for
publish-other k target b old reason w h e = (
  ground (arith, lookup-delete (to_lower target) k w, h, e),
  elim (Bool-cases (is_empty reason)) [ inl g ↦ rw (g, h) refl | inr g ↦ rw (g, h) refl ],
)

not_complete :
    (m : Message) (b : WhoisBuilder)
    → (m.command == codes "318") ≡ false
    → (apply_whois_numeric m b).0 ≡ false
unfolding apply_whois_numeric
not_complete m b h = ground (arith, h)

-- A numeric for another nick.
found-other :
    (m : Message) (k target : Str) (b : WhoisBuilder) (o : Option WhoisBuilder) (w : WhoisMap)
    → (to_lower target == k) ≡ false
    → lookup k w ≡ some b
    → Goes k b (whois_found m target o w)
unfolding whois_found results_for
found-other m k target b none w h e = (e, refl)
found-other m k target b (some old) w h e =
    let r = apply_whois_numeric m (with_nick target old) in
    elim (Bool-cases r.0) [
      | inl g ↦ rw g (publish-other k target b r.1 [] w h e)
      | inr g ↦ rw g (ground (arith, lookup-insert (to_lower target) k r.1 w, h, e), refl)
    ]

-- A numeric for the nick itself, other than the last one.
found-same :
    (m : Message) (target : Str) (b : WhoisBuilder) (w : WhoisMap)
    → (m.command == codes "318") ≡ false
    → Goes (to_lower target) (folded m (some target) b) (whois_found m target (some b) w)
unfolding whois_found results_for
found-same m target b w h =
    let k = to_lower target in
    let r = apply_whois_numeric m (with_nick target b) in
    rw (not_complete m (with_nick target b) h)
      (ground (arith, lookup-insert k k r.1 w, beq_refl k), refl)

target-Goes :
    (m : Message) (k : Str) (o : Option Str) (b : WhoisBuilder) (w : WhoisMap)
    → (m.command == codes "318" && names_nick k o) ≡ false
    → lookup k w ≡ some b
    → Goes k (if names_nick k o then folded m o b else b) (whois_target m o w)
unfolding results_for
target-Goes m k none b w h e = (e, refl)
target-Goes m k (some target) b w h e = elim (Bool-cases (to_lower target == k)) [
  | inl g ↦
      let same = (str_beq_iff (to_lower target) k).0 g in
      rw g (
        subst (λ j. Goes j (folded m (some target) b) (whois_target m (some target) w)) same
          (rw (ap (λ j. lookup j w) same ∙ e) (found-same m target b w (ground arith))))
  | inr g ↦ rw g (found-other m k target b (lookup (to_lower target) w) w g e)
]

no_such_nick-Goes :
    (m : Message) (k : Str) (o : Option Str) (b : WhoisBuilder) (w : WhoisMap)
    → names_nick k o ≡ false
    → lookup k w ≡ some b
    → Goes k b (handle_whois_no_such_nick m o w)
unfolding handle_whois_no_such_nick no_such_nick results_for
no_such_nick-Goes m k none b w h e = (e, refl)
no_such_nick-Goes m k (some target) b w h e = elim (Option-cases (lookup (to_lower target) w)) [
  | inl g ↦ rw g (e, refl)
  | inr (old, g) ↦ rw g (publish-other k target b old m.trailing w h e)
]

asked-Goes :
    (k target : Str) (b : WhoisBuilder) (w : WhoisMap)
    → lookup k w ≡ some b
    → lookup k (mark_whois_requested target w) ≡ some b
unfolding mark_whois_requested
asked-Goes k target b w e = elim (Option-cases (lookup (to_lower target) w)) [
  | inl g ↦ rw g (
      ground (
        arith,
        e,
        g,
        lookup-insert (to_lower target) k new_builder w,
        str_beq_iff (to_lower target) k,
      ))
  | inr (old, g) ↦ rw g e
]

step-Goes :
    (k : Str) (m : Message) (b : WhoisBuilder) (w : WhoisMap)
    → ends k (arrived m) ≡ false
    → lookup k w ≡ some b
    → Goes k (gathered k (arrived m ∷ []) b) (whois_step (arrived m) w)
unfolding whois_step gathered handle_whois_numeric results_for
step-Goes k m b w h e = elim (Bool-cases (contains m.command whois_numerics)) [
  | inl g ↦ rw g (target-Goes m k (nth 1 m.params) b w (ground (arith, h)) e)
  | inr g ↦ elim (Bool-cases (m.command == codes "401")) [
    | inl f ↦ rw (g, f) (no_such_nick-Goes m k (nth 1 m.params) b w (ground (arith, h, f)) e)
    | inr f ↦ rw (g, f) (e, refl)
  ]
]

pub run-Goes :
    (k : Str) (ops : List Op) (b : WhoisBuilder) (w : WhoisMap)
    → All (λ op. ends k op ≡ false) ops
    → lookup k w ≡ some b
    → Goes k (gathered k ops b) (whois_run ops w)
unfolding whois_run gathered whois_step results_for
run-Goes k [] b w h e = (e, refl)
run-Goes k (asked target ∷ ops) b w (_, h) e =
    run-Goes k ops b (mark_whois_requested target w) h (asked-Goes k target b w e)
run-Goes k (arrived m ∷ ops) b w (here, h) e =
    let r = whois_step (arrived m) w in
    let (found, quiet) = step-Goes k m b w here e in
    let (last, still) = run-Goes k ops (gathered k (arrived m ∷ []) b) r.0 h found in
    (
      last,
      results_for-append k r.1 (whois_run ops r.0).1
          ∙ ap (λ xs. xs ++ results_for k (whois_run ops r.0).1) quiet
          ∙ still,
    )

pub whois_run-snoc :
    (ops : List Op) (op : Op) (w : WhoisMap)
    → let r = whois_run ops w in
      let t = whois_step op r.0 in whois_run (ops ++ op ∷ []) w ≡ (t.0, r.1 ++ t.1)
unfolding whois_run
whois_run-snoc [] op w = ap (λ xs. ((whois_step op w).0, xs)) (append-nil (whois_step op w).1)
whois_run-snoc (first ∷ ops) op w =
    let here = whois_step first w in
    let r = whois_run ops here.0 in
    let t = whois_step op r.0 in
    ap (λ x. (x.0, here.1 ++ x.1)) (whois_run-snoc ops op here.0)
    ∙ ap (λ xs. (t.0, xs)) (sym (append_assoc here.1 r.1 t.1))

pub last_step :
    (m : Message) (target : Str) (b : WhoisBuilder) (w : WhoisMap)
    → m.command ≡ codes "318"
    → nth 1 m.params ≡ some target
    → lookup (to_lower target) w ≡ some b
    → whois_step (arrived m) w ≡ publish_whois_result target (with_nick target b) [] w
unfolding whois_step handle_whois_numeric whois_found apply_whois_numeric str_beq
last_step m target b w h g e = rw (h, g, e) refl
