-- ===== src/Irc/Queries/Answered.antt =====
-- A WHOIS from its request to its answer.
use turborg.Base.{
  List, Str, [], none, some, false, ◌∷◌, ◌++◌, str_eq, All, arith, refl, ◌≡◌, ◌∙◌, ap, beq_refl,
}
use turborg.Base.Map.{lookup, lookup-insert, lookup-delete}
use turborg.Base.Text.{codes, to_lower}
use turborg.Irc.Protocol.{Message}
use turborg.Irc.Queries.{
  WhoisBuilder, whois_step, new_builder, whois_result, nth, whois_fields, WhoisMap, with_nick, Op,
  asked, arrived, whois_run, mark_whois_requested, publish_whois_result,
}
use turborg.Irc.Queries.Isolated.{
  ends, gathered, results_for, results_for-append, run-Goes, whois_run-snoc, last_step,
}

marked :
    (target : Str) (w : WhoisMap)
    → lookup (to_lower target) w ≡ none
    → lookup (to_lower target) (mark_whois_requested target w) ≡ some new_builder
unfolding mark_whois_requested
marked target w h =
    let k = to_lower target in rw h (ground (arith, lookup-insert k k new_builder w, beq_refl k))

published :
    (target : Str) (b : WhoisBuilder) (w : WhoisMap)
    → results_for (to_lower target) (publish_whois_result target b [] w).1
      ≡ whois_result target (whois_fields b) ∷ []
unfolding publish_whois_result results_for
published target b w = rw (beq_refl (to_lower target)) refl

gone :
    (target : Str) (b : WhoisBuilder) (w : WhoisMap)
    → lookup (to_lower target) (publish_whois_result target b [] w).0 ≡ none
unfolding publish_whois_result
gone target b w = let k = to_lower target in ground (arith, lookup-delete k k w, beq_refl k)

-- Let a WHOIS be asked for a nick of which none is under way, then let any requests and lines
-- follow, but no 318 and no 401 for that nick, and then its 318. Of all that is published, exactly
-- one result is about the nick: the fields that the numerics for this nick alone have given. After
-- it no WHOIS is under way for the nick.
pub whois_answered :
    (target : Str) (ops : List Op) (m : Message) (w : WhoisMap)
    → lookup (to_lower target) w ≡ none
    → All (λ op. ends (to_lower target) op ≡ false) ops
    → m.command ≡ codes "318"
    → nth 1 m.params ≡ some target
    → let k = to_lower target in
      let r = whois_run (asked target ∷ (ops ++ arrived m ∷ [])) w in
      (results_for k r.1
        ≡ whois_result target (whois_fields (with_nick target (gathered k ops new_builder))) ∷ [])
      × (lookup k r.0 ≡ none)
unfolding whois_run whois_step
whois_answered target ops m w h quiet last named =
    let k = to_lower target in
    let start = mark_whois_requested target w in
    let b = gathered k ops new_builder in
    let r = whois_run ops start in
    let (found, still) = run-Goes k ops new_builder start quiet (marked target w h) in
    let final = publish_whois_result target (with_nick target b) [] r.0 in
    let all : whois_run (ops ++ arrived m ∷ []) start ≡ (final.0, r.1 ++ final.1) =
      whois_run-snoc ops (arrived m) start
      ∙ ap (λ t. (t.0, r.1 ++ t.1)) (last_step m target b r.0 last named found) in
    (
      ap (λ t. results_for k t.1) all
          ∙ results_for-append k r.1 final.1
          ∙ ap (λ xs. xs ++ results_for k final.1) still
          ∙ published target (with_nick target b) r.0,
      ap (λ t. lookup k t.0) all ∙ gone target (with_nick target b) r.0,
    )
