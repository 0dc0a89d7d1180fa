-- ===== src/Irc/Queries/Examples.antt =====
-- WHOIS, WHO and LIST at concrete lines.
use turborg.Base.{List, Str, [], none, some, ◌∷◌, ◌++◌, refl, ◌≡◌, str_eq, str_beq}
use turborg.Base.Map.{lookup, insert, delete}
use turborg.Base.Text.{codes, to_lower, to_upper}
use turborg.Base.Text.Split.{cut, fields, trim_left}
use turborg.Irc.Protocol.{Message}
use turborg.Irc.Queries.{
  Op, arrived, asked, whois_result, whois_fields, with_nick, new_builder, whois_run, text, texts,
}
use turborg.Irc.Queries.Isolated.{results_for, gathered}
use turborg.Irc.Queries.Answered.{whois_answered}
use turborg.Irc.Queries.Lists.{
  register_web_query, who_of, handle_who_numeric, mark_who_requested, who_result,
  handle_list_numeric,
}

abbrev reply : Str → List Str → Str → Message
reply command params trailing = record {
  raw = [];
  tags = [];
  prefix = codes "s";
  command = command;
  params = params;
  trailing = trailing;
}

abbrev bo : Str
bo = codes "Bo"

-- A reply for Bo, among a line for another nick and a second request.
abbrev between : List Op
between =
    arrived
      (reply (codes "311") (codes "mara" ∷ codes "bo" ∷ codes "b" ∷ codes "h" ∷ []) (codes "Bo B"))
    ∷ asked (codes "eve")
    ∷ arrived (reply (codes "318") (codes "mara" ∷ codes "eve" ∷ []) [])
    ∷ arrived (reply (codes "319") (codes "mara" ∷ bo ∷ []) (codes "@#go #x"))
    ∷ []

abbrev end_line : Message
end_line = reply (codes "318") (codes "mara" ∷ bo ∷ []) []

whois_answered_example :
    (results_for (to_lower bo) (whois_run (asked bo ∷ (between ++ arrived end_line ∷ [])) []).1
      ≡ whois_result bo (whois_fields (with_nick bo (gathered (to_lower bo) between new_builder)))
        ∷ [])
    × (lookup (to_lower bo) (whois_run (asked bo ∷ (between ++ arrived end_line ∷ [])) []).0 ≡ none)
unfolding lookup str_beq to_lower
whois_answered_example =
    whois_answered bo between end_line [] refl (refl, (refl, (refl, (refl, tt)))) refl refl

answer :
    results_for (to_lower bo) (whois_run (asked bo ∷ (between ++ arrived end_line ∷ [])) []).1
    ≡ whois_result bo (
        text (codes "user") (codes "b")
        ∷ text (codes "host") (codes "h")
        ∷ text (codes "realName") (codes "Bo B")
        ∷ texts (codes "channels") (codes "#go" ∷ codes "#x" ∷ [])
        ∷ [])
      ∷ []
unfolding whois_run results_for lookup insert delete str_beq to_lower cut fields trim_left
answer = refl

who_query : register_web_query (codes "who #go") ≡ who_of (codes "#go")
unfolding register_web_query fields to_upper str_beq
who_query = refl

who_answer :
    (handle_who_numeric
      (reply (codes "315") (codes "mara" ∷ codes "#GO" ∷ []) [])
      (mark_who_requested (codes "#go") [])).1
    ≡ who_result (codes "#GO") [] ∷ []
unfolding handle_who_numeric mark_who_requested lookup insert str_beq to_lower
who_answer = refl

list_end : (handle_list_numeric (reply (codes "323") [] []) []).1 ≡ some []
unfolding handle_list_numeric str_beq
list_end = refl
