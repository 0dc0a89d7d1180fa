-- ===== src/Agent/Commands/Dispatching.antt =====
-- Who answers a message, in Dispatch of commands.go.
use turborg.Base.Text.{to_lower}
use turborg.Base.Result.{Run, panicked, done}
use turborg.Base.Text.Split.{join}
use turborg.Base.Map.{lookup}
use turborg.Base.{
  Option, arith, refl, true, All, List, Str, [], if◌then◌else◌, none, some, str_eq, ◌&&◌, ◌++◌, ◌∷◌,
  ◌≡◌,
}
use turborg.Base.Text.Words.{IsWord}
use turborg.Agent.Commands.{
  InboundEnvelope, CommandEntry, CommandRegistry, passes, parse, dispatch, run_entry,
}
use turborg.Agent.Commands.Parsing.{parse-join}

module _ {Out Error : Type 0} (r : CommandRegistry Out Error) where
  -- A command line for a registered command gets the answer of its handler, on the arguments and
  -- the envelope with the command filled in, if both guards pass; else it gets no answer.
  pub dispatch_runs :
      (env : InboundEnvelope) (w : Str) (ws : List Str) (entry : CommandEntry Out Error)
      → env.text ≡ r.prefix ++ join (32 ∷ []) (w ∷ ws)
      → IsWord w
      → All IsWord ws
      → lookup (to_lower w) r.commands ≡ some entry
      → let env' = record env { command = to_lower w; args = ws } in
        dispatch env r
        ≡ done (
          env',
          if passes r.guard env' && passes entry.guard env'
              then entry.handler env' ws
              else (none, none),
        )
  unfolding dispatch
  dispatch_runs env w ws entry text h hs found =
      let line = join (32 ∷ []) (w ∷ ws) in rw (text, parse-join r w ws h hs, found) (ground arith)

  -- The parsed word names a registered command, both guards pass, and its handler gives the answer.
  abbrev pub Answered : InboundEnvelope → InboundEnvelope → Out → Option Error → Type 0
  Answered env env' out e =
      (entry : CommandEntry Out Error) × (lookup env'.command r.commands ≡ some entry)
      × (parse env.text r ≡ done (some (env'.command, env'.args)))
      × (passes r.guard env' ≡ true)
      × (passes entry.guard env' ≡ true)
      × (entry.handler env' env'.args ≡ (some out, e))

  -- An answer comes only from a registered command whose guard, and the guard of the registry, let
  -- the envelope pass: the parsed word names the command, and the answer is its handler's.
  pub answer_has_command :
      (env env' : InboundEnvelope) (out : Out) (e : Option Error)
      → dispatch env r ≡ done (env', (some out, e))
      → Answered env env' out e
  unfolding dispatch
  answer_has_command env env' out e h = parsed (parse env.text r) refl
    where
      found :
          (name : Str) (args : List Str) (o : Option (CommandEntry Out Error))
          → lookup name r.commands ≡ o
          → parse env.text r ≡ done (some (name, args))
          → run_entry r env name args o ≡ done (env', (some out, e))
          → Answered env env' out e
      found name args none l p eq = cc
      found name args (some entry) l p eq =
          (entry, ground arith, ground arith, ground arith, ground arith, ground arith)

      parsed : (p : Run (Option (Str × List Str))) → parse env.text r ≡ p → Answered env env' out e
      parsed panicked p = ground (arith, h)
      parsed (done none) p = ground (arith, h)
      parsed (done (some (name, args))) p =
          found name args (lookup name r.commands) refl p (rw p at h)
