-- ===== src/Agent/Commands/Parsing.antt =====
-- What Parse of commands.go makes of a message.
use turborg.Base.Result.{done, panicked}
use turborg.Base.Text.{is_empty, to_lower}
use turborg.Base.{
  All, List, Str, [], arith, false, if◌then◌else◌, none, refl, some, ◌++◌, ◌↔◌, ◌∷◌, ◌≡◌,
}
use turborg.Base.Text.Split.{fields, join, trim_left}
use turborg.Base.Text.Words.{IsWord, IsBlank, fields-join, fields-eq-nil, strip_prefix-append}
use turborg.Agent.Commands.{CommandRegistry, parse, first_part, is_blank}

-- One word in any case, and its arguments, joined by single spaces behind the prefix, are read
-- back: the word lowercased and the arguments as they are.
trim_left-word :
    (w : Str) (ws : List Str)
    → IsWord w
    → (trim_left is_blank (join (32 ∷ []) (w ∷ ws)) ≡ join (32 ∷ []) (w ∷ ws))
      × (is_empty (join (32 ∷ []) (w ∷ ws)) ≡ false)
unfolding trim_left join
trim_left-word [] ws h = absurd h
trim_left-word (c ∷ w) [] h = ground (arith, h.0)
trim_left-word (c ∷ w) (v ∷ ws) h = ground (arith, h.0)

module _ {Out Error : Type 0} (r : CommandRegistry Out Error) where
  -- A command line reads back: behind the prefix a word and its arguments, joined by single spaces,
  -- give the word in lower case and the arguments as they are.
  pub parse-join :
      (w : Str) (ws : List Str)
      → IsWord w
      → All IsWord ws
      → parse (r.prefix ++ join (32 ∷ []) (w ∷ ws)) r ≡ done (some (to_lower w, ws))
  unfolding parse
  parse-join w ws h hs =
      let line = join (32 ∷ []) (w ∷ ws) in
      let trimmed = trim_left-word w ws h in
      rw (strip_prefix-append r.prefix line, trimmed.0, trimmed.1, fields-join (w ∷ ws) (h, hs))

  -- The parser panics on a message exactly when what follows the prefix, less its leading spaces
  -- and tabs, is not empty and consists of white-space characters, those beyond ASCII included.
  pub parse_panics_iff :
      (rest : Str)
      → let trimmed = trim_left is_blank rest in
        (parse (r.prefix ++ rest) r ≡ panicked) ↔ ((is_empty trimmed ≡ false) × IsBlank trimmed)
  unfolding parse
  parse_panics_iff rest =
      let trimmed = trim_left is_blank rest in
      rw (strip_prefix-append r.prefix rest) (cases trimmed)
    where
      none_panics : (ps : List Str) → first_part ps ≡ panicked → ps ≡ []
      none_panics [] e = refl
      none_panics (p ∷ ps) e = cc

      cases :
          (s : Str)
          → ((if is_empty s then done none else first_part (fields s)) ≡ panicked)
            ↔ ((is_empty s ≡ false) × IsBlank s)
      cases [] = ((λ e. cc), (λ h. cc))
      cases (c ∷ s) = (
        (λ e. (refl, (fields-eq-nil (c ∷ s)).0 (none_panics (fields (c ∷ s)) e))),
        λ h. rw ((fields-eq-nil (c ∷ s)).1 h.1),
      )
