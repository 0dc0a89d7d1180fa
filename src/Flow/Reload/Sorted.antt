-- ===== src/Flow/Reload/Sorted.antt =====
-- Where a reload without a cap puts the flows, and how a message is read as a command.
use mathlib.Core.Path.{subst}
use mathlib.Core.List.{append-nil, append_assoc}
use turborg.Base.{
  Bool, Bool-cases, inl, inr, ◌⊎◌, ◌↔◌, List, Option, Str, [], ap, arith, false, if◌then◌else◌,
  none, refl, some, suc, sym, true, ℕ, ◌++◌, ◌∙◌, ◌∷◌, ◌≡◌, str_eq,
}
use turborg.Base.Int.{negsuc}
use turborg.Base.Map.{lookup, lookup-insert}
use turborg.Base.Text.{is_empty, to_lower}
use turborg.Base.Text.Split.{begins_space, trim_space, trim_left, cut}
use turborg.Base.Text.Words.{HasNoSpace, cut-space, trim_left-stop, strip_prefix-append}
use turborg.Flow.Graph.{Flow}
use turborg.Flow.Reload.Valid.{
  IsCommandFlow, IsMatchFlow, IsEventFlow, IsWebhookFlow, LastOf, Selected, all_seen, selects,
  leaves_out, no_more, behind, at_front, not_here, is_command, is_event, is_match, is_webhook,
  sort-IsCommandFlow, sort-IsMatchFlow, sort-IsEventFlow, sort-IsWebhookFlow,
}
use turborg.Flow.Reload.{
  is_gap, read_words, Compiled, FlowSet, Sort, command_flow, match_flow, event_flow, webhook_flow,
  skipped, compile, install, install_all, is_skipped, no_flows, parse_command, replace_flows,
  sort_of,
}

module _ {Config : Type 0} where
  abbrev one_if : Bool → Flow Config → List (Compiled Config)
  one_if b f = if b then compile f ∷ [] else []

  install-lists :
      (sort : Sort) (f : Flow Config) (s : FlowSet Config)
      → let after = install sort f s in
        (after.commands ≡ s.commands ++ one_if (is_command sort) f)
        × (after.matches ≡ s.matches ++ one_if (is_match sort) f)
        × (after.events ≡ s.events ++ one_if (is_event sort) f)
  unfolding install
  install-lists command_flow f s = (refl, sym (append-nil s.matches), sym (append-nil s.events))
  install-lists match_flow f s = (sym (append-nil s.commands), refl, sym (append-nil s.events))
  install-lists event_flow f s = (sym (append-nil s.commands), sym (append-nil s.matches), refl)
  install-lists (webhook_flow key) f s =
      (sym (append-nil s.commands), sym (append-nil s.matches), sym (append-nil s.events))
  install-lists skipped f s =
      (sym (append-nil s.commands), sym (append-nil s.matches), sym (append-nil s.events))

  install-webhooks :
      (key : Str) (sort : Sort) (f : Flow Config) (s : FlowSet Config)
      → lookup key (install sort f s).webhooks
        ≡ (if is_webhook key sort then some (compile f) else lookup key s.webhooks)
  unfolding install
  install-webhooks key command_flow f s = refl
  install-webhooks key match_flow f s = refl
  install-webhooks key event_flow f s = refl
  install-webhooks key (webhook_flow k) f s = lookup-insert k key (compile f) s.webhooks
  install-webhooks key skipped f s = refl

module _ {Config : Type 0} (kind_known : Str → Bool) (compiles : Str → Bool) where
  -- The flows of one sort, compiled, in the order of the batch.
  chosen : (Sort → Bool) → List (Flow Config) → List (Compiled Config)
  chosen p [] = []
  chosen p (f ∷ fs) = one_if (p (sort_of kind_known compiles f)) f ++ chosen p fs

  -- The last webhook flow of the batch with the key, or else `found`.
  last_webhook : Str → List (Flow Config) → Option (Compiled Config) → Option (Compiled Config)
  last_webhook key [] found = found
  last_webhook key (f ∷ fs) found =
      last_webhook key fs
        (if is_webhook key (sort_of kind_known compiles f) then some (compile f) else found)

  install_all-lists :
      (fs : List (Flow Config)) (i : ℕ) (s : FlowSet Config)
      → let after = install_all kind_known compiles (negsuc 0) fs i s in
        (after.commands ≡ s.commands ++ chosen is_command fs)
        × (after.matches ≡ s.matches ++ chosen is_match fs)
        × (after.events ≡ s.events ++ chosen is_event fs)
  unfolding install_all chosen
  install_all-lists [] i s =
      (sym (append-nil s.commands), sym (append-nil s.matches), sym (append-nil s.events))
  install_all-lists (f ∷ fs) i s =
      let sort = sort_of kind_known compiles f in
      let (c, m, e) = install-lists sort f s in
      let (cs, ms, es) =
        install_all-lists fs (if is_skipped sort then i else suc i) (install sort f s) in
      (
        cs
            ∙ ap (λ xs. xs ++ chosen is_command fs) c
            ∙ append_assoc s.commands (one_if (is_command sort) f) (chosen is_command fs),
        ms
            ∙ ap (λ xs. xs ++ chosen is_match fs) m
            ∙ append_assoc s.matches (one_if (is_match sort) f) (chosen is_match fs),
        es
            ∙ ap (λ xs. xs ++ chosen is_event fs) e
            ∙ append_assoc s.events (one_if (is_event sort) f) (chosen is_event fs),
      )

  install_all-webhooks :
      (key : Str) (fs : List (Flow Config)) (i : ℕ) (s : FlowSet Config)
      → lookup key (install_all kind_known compiles (negsuc 0) fs i s).webhooks
        ≡ last_webhook key fs (lookup key s.webhooks)
  unfolding install_all last_webhook
  install_all-webhooks key [] i s = refl
  install_all-webhooks key (f ∷ fs) i s =
      let sort = sort_of kind_known compiles f in
      install_all-webhooks key fs (if is_skipped sort then i else suc i) (install sort f s)
      ∙ ap (λ o. last_webhook key fs o) (install-webhooks key sort f s)

  -- What is chosen by a test that decides P is what P selects.
  chosen-Selected :
      (p : Sort → Bool) (P : Flow Config → Type 0)
      → ((f : Flow Config) → (p (sort_of kind_known compiles f) ≡ true) ↔ P f)
      → (fs : List (Flow Config)) → Selected P fs (chosen p fs)
  unfolding chosen
  chosen-Selected p P decides [] = all_seen
  chosen-Selected p P decides (f ∷ fs) =
      let rest = chosen-Selected p P decides fs in
      elim (Bool-cases (p (sort_of kind_known compiles f))) [
        | inl e ↦ rw e (selects f fs (chosen p fs) ((decides f).0 e) rest)
        | inr e ↦
            rw e (
              leaves_out f fs (chosen p fs) (λ h. absurd (ground (arith, e, (decides f).1 h))) rest)
      ]

  last_webhook-LastOf :
      (key : Str) (fs : List (Flow Config)) (found : Option (Compiled Config))
      → ((c : Compiled Config) × (last_webhook key fs found ≡ some c)
          × LastOf (IsWebhookFlow kind_known compiles key) fs (some c))
        ⊎ ((last_webhook key fs found ≡ found)
            × LastOf (IsWebhookFlow kind_known compiles key) fs none)
  unfolding last_webhook
  last_webhook-LastOf key [] found = inr (refl, no_more)
  last_webhook-LastOf key (f ∷ fs) found =
      let decides = sort-IsWebhookFlow kind_known compiles key f in
      let here = is_webhook key (sort_of kind_known compiles f) in
      elim (last_webhook-LastOf key fs (if here then some (compile f) else found)) [
        | inl (c, e, l) ↦ inl (c, e, behind f fs c l)
        | inr (e, l) ↦ elim (Bool-cases here) [
          | inl b ↦ inl (compile f, e ∙ rw b refl, at_front f fs (decides.0 b) l)
          | inr b ↦
              inr (e ∙ rw b refl, not_here f fs (λ h. absurd (ground (arith, b, decides.1 h))) l)
        ]
      ]

  last_webhook-none :
      (key : Str) (fs : List (Flow Config))
      → LastOf (IsWebhookFlow kind_known compiles key) fs (last_webhook key fs none)
  last_webhook-none key fs = elim (last_webhook-LastOf key fs none) [
    | inl (c, e, l) ↦ rw e l
    | inr (e, l) ↦ rw e l
  ]

  -- Without a cap a reload keeps exactly the command flows, the match flows and the event flows of
  -- the batch, each list in the order of the batch, and under each webhook name the last webhook
  -- flow of the batch that has it. Only flows count whose nodes are all of known kinds, a command
  -- flow needs a word that is not blank, a match flow an expression that compiles, and a webhook
  -- flow a name that is not blank.
  pub reload_sorted :
      (flows : List (Flow Config)) (key : Str)
      → let after = replace_flows kind_known compiles (negsuc 0) flows in
        Selected (IsCommandFlow kind_known compiles) flows after.commands
        × Selected (IsMatchFlow kind_known compiles) flows after.matches
        × Selected (IsEventFlow kind_known compiles) flows after.events
        × LastOf (IsWebhookFlow kind_known compiles key) flows (lookup key after.webhooks)
  unfolding replace_flows no_flows
  reload_sorted flows key =
      let (cs, ms, es) = install_all-lists flows 0 no_flows in
      let hooks : lookup key (install_all kind_known compiles (negsuc 0) flows 0 no_flows).webhooks
          ≡ last_webhook key flows none =
        unfold lookup in install_all-webhooks key flows 0 no_flows in
      (
        subst (Selected (IsCommandFlow kind_known compiles) flows) (sym cs)
            (chosen-Selected is_command _ (sort-IsCommandFlow kind_known compiles) flows),
        subst (Selected (IsMatchFlow kind_known compiles) flows) (sym ms)
            (chosen-Selected is_match _ (sort-IsMatchFlow kind_known compiles) flows),
        subst (Selected (IsEventFlow kind_known compiles) flows) (sym es)
            (chosen-Selected is_event _ (sort-IsEventFlow kind_known compiles) flows),
        subst (LastOf (IsWebhookFlow kind_known compiles key) flows) (sym hooks)
            (last_webhook-none key flows),
      )

not_gap : (c : ℕ) → begins_space c ≡ false → is_gap c ≡ false
not_gap c h = ground arith

read_words-cut :
    (word text rest : Str)
    → cut (32 ∷ []) rest ≡ some (word, text)
    → is_empty rest ≡ false
    → read_words rest ≡ some (to_lower word, trim_space text)
unfolding read_words
read_words-cut word text rest at more = rw (at, more) refl

-- A message of the prefix, a word and, behind a space, any text is read as the word in lower case
-- and the text without the white space around it.
pub parse_command-word :
    (p : ℕ) (prefix : Str) (c : ℕ) (word text : Str)
    → HasNoSpace (c ∷ word)
    → parse_command ((p ∷ prefix) ++ (c ∷ (word ++ 32 ∷ text))) (p ∷ prefix)
      ≡ some (to_lower (c ∷ word), trim_space text)
unfolding parse_command
parse_command-word p prefix c word text h =
    let rest = c ∷ (word ++ 32 ∷ text) in
    ap (λ o. elim o [ none ↦ none | some after ↦ read_words (trim_left is_gap after) ])
      (strip_prefix-append (p ∷ prefix) rest)
    ∙ ap read_words (trim_left-stop is_gap c (word ++ 32 ∷ text) (not_gap c h.0))
    ∙ read_words-cut (c ∷ word) text rest (cut-space (c ∷ word) text h) refl
