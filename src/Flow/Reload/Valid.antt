-- ===== src/Flow/Reload/Valid.antt =====
-- Which flows of a batch a reload keeps: those whose nodes are all of known kinds and whose trigger
-- is complete, each in the list of its trigger.
use turborg.Base.{
  All, Bool, List, Option, Str, [], arith, false, if◌then◌else◌, inl, inr, none, not, refl, some,
  sym, true, ◌==◌, ◌∙◌, ◌∷◌, ◌≡◌, ◌≢◌, ◌⊎◌, ◌↔◌, str_beq, str_beq_iff, str_eq, str_ne,
}
use turborg.Base.Text.{codes, is_empty, to_lower}
use turborg.Base.Text.Split.{trim_space}
use turborg.Flow.Graph.{Flow, Node}
use turborg.Flow.Reload.{
  Compiled, Sort, command_flow, match_flow, event_flow, webhook_flow, skipped, compile, is_valid,
  sort_of, trigger_kind,
}

-- From a batch of flows, those with P, compiled, in the order of the batch.
pub data Selected {Config : Type 0} (P : Flow Config → Type 0)
    : List (Flow Config) → List (Compiled Config) → Type 0 where
  all_seen : Selected P [] []
  selects :
      (f : Flow Config) (fs : List (Flow Config)) (cs : List (Compiled Config))
      → P f
      → Selected P fs cs
      → Selected P (f ∷ fs) (compile f ∷ cs)
  leaves_out :
      (f : Flow Config) (fs : List (Flow Config)) (cs : List (Compiled Config))
      → ¬ P f
      → Selected P fs cs
      → Selected P (f ∷ fs) cs

-- The last flow of a batch with P, compiled, if there is one.
pub data LastOf {Config : Type 0} (P : Flow Config → Type 0)
    : List (Flow Config) → Option (Compiled Config) → Type 0 where
  no_more : LastOf P [] none
  behind :
      (f : Flow Config) (fs : List (Flow Config)) (c : Compiled Config)
      → LastOf P fs (some c)
      → LastOf P (f ∷ fs) (some c)
  at_front :
      (f : Flow Config) (fs : List (Flow Config))
      → P f
      → LastOf P fs none
      → LastOf P (f ∷ fs) (some (compile f))
  not_here :
      (f : Flow Config) (fs : List (Flow Config))
      → ¬ P f
      → LastOf P fs none
      → LastOf P (f ∷ fs) none

module _ {Config : Type 0} (kind_known : Str → Bool) (compiles : Str → Bool) where
  -- Every node is of a kind in the catalog.
  abbrev pub IsKnown : Flow Config → Type 0
  IsKnown f = All (λ (n : Node Config). kind_known n.kind ≡ true) f.nodes

  -- A command flow, which is also what a trigger without a kind means, has a word.
  abbrev pub IsCommandFlow : Flow Config → Type 0
  IsCommandFlow f =
      IsKnown f
      × ((f.trigger.kind ≡ []) ⊎ (f.trigger.kind ≡ codes "command"))
      × (to_lower (trim_space f.trigger.command) ≢ [])

  -- The expression of a match flow compiles.
  abbrev pub IsMatchFlow : Flow Config → Type 0
  IsMatchFlow f = IsKnown f × (f.trigger.kind ≡ codes "match") × (compiles f.trigger.pattern ≡ true)

  abbrev pub IsEventFlow : Flow Config → Type 0
  IsEventFlow f = IsKnown f × (f.trigger.kind ≡ codes "event")

  -- A webhook flow is called by its name, which is not blank.
  abbrev pub IsWebhookFlow : Str → Flow Config → Type 0
  IsWebhookFlow key f =
      IsKnown f
      × (f.trigger.kind ≡ codes "webhook")
      × (to_lower (trim_space f.name) ≡ key)
      × (key ≢ [])

is_valid-IsKnown :
    {Config : Type 0} (kind_known compiles : Str → Bool) (ns : List (Node Config))
    → (is_valid kind_known compiles ns ≡ true)
      ↔ All (λ (n : Node Config). kind_known n.kind ≡ true) ns
unfolding is_valid
is_valid-IsKnown kind_known compiles [] = ((λ e. tt), λ h. refl)
is_valid-IsKnown kind_known compiles (n ∷ ns) =
    ground (arith, is_valid-IsKnown kind_known compiles ns)

-- What the loop does with a flow, by the tests that it makes.
abbrev by_tests : Bool → Str → Bool → Bool → Str → Sort
by_tests valid kind wordless works key =
    if not valid
    then skipped
    else if kind == codes "command"
    then (if wordless then skipped else command_flow)
    else if kind == codes "match"
    then (if works then match_flow else skipped)
    else if kind == codes "event"
    then event_flow
    else if kind == codes "webhook"
    then (if is_empty key then skipped else webhook_flow key)
    else skipped

abbrev pub is_command : Sort → Bool
is_command command_flow = true
is_command _ = false

abbrev pub is_match : Sort → Bool
is_match match_flow = true
is_match _ = false

abbrev pub is_event : Sort → Bool
is_event event_flow = true
is_event _ = false

abbrev pub is_webhook : Str → Sort → Bool
is_webhook key (webhook_flow k) = str_beq k key
is_webhook key _ = false

by_command :
    (valid : Bool) (kind : Str) (wordless works : Bool) (key : Str)
    → is_command (by_tests valid kind wordless works key) ≡ true
    → (valid ≡ true) × (kind ≡ codes "command") × (wordless ≡ false)
by_command valid kind wordless works key h = ground (arith, h, str_beq_iff kind (codes "command"))

by_match :
    (valid : Bool) (kind : Str) (wordless works : Bool) (key : Str)
    → is_match (by_tests valid kind wordless works key) ≡ true
    → (valid ≡ true) × (kind ≡ codes "match") × (works ≡ true)
by_match valid kind wordless works key h = ground (arith, h, str_beq_iff kind (codes "match"))

by_event :
    (valid : Bool) (kind : Str) (wordless works : Bool) (key : Str)
    → is_event (by_tests valid kind wordless works key) ≡ true
    → (valid ≡ true) × (kind ≡ codes "event")
by_event valid kind wordless works key h = ground (arith, h, str_beq_iff kind (codes "event"))

by_webhook :
    (valid : Bool) (kind : Str) (wordless works : Bool) (key wanted : Str)
    → is_webhook wanted (by_tests valid kind wordless works key) ≡ true
    → (valid ≡ true) × (kind ≡ codes "webhook") × (is_empty key ≡ false) × (key ≡ wanted)
by_webhook valid kind wordless works key wanted h =
    ground (arith, h, str_beq_iff kind (codes "webhook"), str_beq_iff key wanted)

match_by :
    (valid : Bool) (kind : Str) (wordless works : Bool) (key : Str)
    → (valid ≡ true) × (kind ≡ codes "match") × (works ≡ true)
    → is_match (by_tests valid kind wordless works key) ≡ true
unfolding str_beq
match_by valid kind wordless works key (v, k, w) = rw (v, k, w) refl

command_by :
    (valid : Bool) (kind : Str) (wordless works : Bool) (key : Str)
    → (valid ≡ true) × (kind ≡ codes "command") × (wordless ≡ false)
    → is_command (by_tests valid kind wordless works key) ≡ true
unfolding str_beq
command_by valid kind wordless works key (v, k, w) = rw (v, k, w) refl

event_by :
    (valid : Bool) (kind : Str) (wordless works : Bool) (key : Str)
    → (valid ≡ true) × (kind ≡ codes "event")
    → is_event (by_tests valid kind wordless works key) ≡ true
unfolding str_beq
event_by valid kind wordless works key (v, k) = rw (v, k) refl

webhook_named :
    (key wanted : Str) (wordless works : Bool)
    → is_empty key ≡ false
    → key ≡ wanted
    → is_webhook wanted (by_tests true (codes "webhook") wordless works key) ≡ true
unfolding str_beq
webhook_named key wanted wordless works w e = rw w ((str_beq_iff key wanted).1 e)

webhook_by :
    (valid : Bool) (kind : Str) (wordless works : Bool) (key wanted : Str)
    → (valid ≡ true) × (kind ≡ codes "webhook") × (is_empty key ≡ false) × (key ≡ wanted)
    → is_webhook wanted (by_tests valid kind wordless works key) ≡ true
webhook_by valid kind wordless works key wanted (v, k, w, e) =
    rw (v, k) (webhook_named key wanted wordless works w e)

is_empty-ne_nil : (s : Str) → (is_empty s ≡ false) ↔ (s ≢ [])
is_empty-ne_nil [] = ((λ h. cc), λ h. absurd (h refl))
is_empty-ne_nil (c ∷ s) = ((λ h e. cc), λ h. refl)

-- A trigger without a kind is one of kind "command", and no other kind is empty.
kind_of : Str → Str
kind_of kind = if is_empty kind then codes "command" else kind

kind_of-command : (k : Str) → (kind_of k ≡ codes "command") ↔ ((k ≡ []) ⊎ (k ≡ codes "command"))
unfolding kind_of
kind_of-command [] = ((λ e. inl refl), λ h. refl)
kind_of-command (c ∷ k) = ((λ e. inr e), λ h. elim h [ inl e ↦ cc | inr e ↦ e ])

kind_of-other : (k w : Str) → w ≢ codes "command" → w ≢ [] → (kind_of k ≡ w) ↔ (k ≡ w)
unfolding kind_of
kind_of-other [] w n m = ((λ e. absurd (n (sym e))), λ e. absurd (m (sym e)))
kind_of-other (x ∷ k) w n m = ((λ e. e), λ e. e)

webhook-ne-command : codes "webhook" ≢ codes "command"
unfolding str_beq
webhook-ne-command = str_ne (codes "webhook") (codes "command") refl

module _ {Config : Type 0} (kind_known : Str → Bool) (compiles : Str → Bool) where
  -- The list that the loop puts a flow in is that of its trigger.
  pub sort-IsCommandFlow :
      (f : Flow Config)
      → (is_command (sort_of kind_known compiles f) ≡ true) ↔ IsCommandFlow kind_known compiles f
  unfolding sort_of trigger_kind kind_of
  sort-IsCommandFlow f =
      let (known, valid) = is_valid-IsKnown kind_known compiles f.nodes in
      let word = to_lower (trim_space f.trigger.command) in
      let (kind, trigger) = kind_of-command f.trigger.kind in
      let key = to_lower (trim_space f.name) in
      (
        λ h.
            let (v, k, w) =
              by_command (is_valid kind_known compiles f.nodes) (kind_of f.trigger.kind)
                (is_empty word) (compiles f.trigger.pattern) key h in
            (known v, kind k, (is_empty-ne_nil word).0 w),
        λ (v, k, w).
            command_by (is_valid kind_known compiles f.nodes) (kind_of f.trigger.kind)
              (is_empty word) (compiles f.trigger.pattern) key
              (valid v, trigger k, (is_empty-ne_nil word).1 w),
      )

  pub sort-IsMatchFlow :
      (f : Flow Config)
      → (is_match (sort_of kind_known compiles f) ≡ true) ↔ IsMatchFlow kind_known compiles f
  unfolding sort_of trigger_kind kind_of
  sort-IsMatchFlow f =
      let (known, valid) = is_valid-IsKnown kind_known compiles f.nodes in
      let word = to_lower (trim_space f.trigger.command) in
      let (kind, trigger) = kind_of-other f.trigger.kind (codes "match") (λ e. cc) (λ e. cc) in
      let key = to_lower (trim_space f.name) in
      (
        λ h.
            let (v, k, w) =
              by_match (is_valid kind_known compiles f.nodes) (kind_of f.trigger.kind)
                (is_empty word) (compiles f.trigger.pattern) key h in
            (known v, kind k, w),
        λ (v, k, w).
            match_by (is_valid kind_known compiles f.nodes) (kind_of f.trigger.kind) (is_empty word)
              (compiles f.trigger.pattern) key (valid v, trigger k, w),
      )

  pub sort-IsEventFlow :
      (f : Flow Config)
      → (is_event (sort_of kind_known compiles f) ≡ true) ↔ IsEventFlow kind_known compiles f
  unfolding sort_of trigger_kind kind_of
  sort-IsEventFlow f =
      let (known, valid) = is_valid-IsKnown kind_known compiles f.nodes in
      let word = to_lower (trim_space f.trigger.command) in
      let (kind, trigger) = kind_of-other f.trigger.kind (codes "event") (λ e. cc) (λ e. cc) in
      let key = to_lower (trim_space f.name) in
      (
        λ h.
            let (v, k) =
              by_event (is_valid kind_known compiles f.nodes) (kind_of f.trigger.kind)
                (is_empty word) (compiles f.trigger.pattern) key h in
            (known v, kind k),
        λ (v, k).
            event_by (is_valid kind_known compiles f.nodes) (kind_of f.trigger.kind) (is_empty word)
              (compiles f.trigger.pattern) key (valid v, trigger k),
      )

  pub sort-IsWebhookFlow :
      (wanted : Str) (f : Flow Config)
      → (is_webhook wanted (sort_of kind_known compiles f) ≡ true)
        ↔ IsWebhookFlow kind_known compiles wanted f
  unfolding sort_of trigger_kind kind_of
  sort-IsWebhookFlow wanted f =
      let (known, valid) = is_valid-IsKnown kind_known compiles f.nodes in
      let word = to_lower (trim_space f.trigger.command) in
      let (kind, trigger) =
        kind_of-other f.trigger.kind (codes "webhook") webhook-ne-command (λ e. cc) in
      let key = to_lower (trim_space f.name) in
      (
        λ h.
            let (v, k, w, e) =
              by_webhook (is_valid kind_known compiles f.nodes) (kind_of f.trigger.kind)
                (is_empty word) (compiles f.trigger.pattern) key wanted h in
            (known v, kind k, e, λ n. (is_empty-ne_nil key).0 w (e ∙ n)),
        λ (v, k, e, n).
            webhook_by (is_valid kind_known compiles f.nodes) (kind_of f.trigger.kind)
              (is_empty word) (compiles f.trigger.pattern) key wanted
              (valid v, trigger k, (is_empty-ne_nil key).1 (λ m. n (sym e ∙ m)), e),
      )
