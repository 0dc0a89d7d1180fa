-- ===== src/Lib.antt =====
-- Verification of turborg, an IRC and chat agent in Go: the connector's bookkeeping, its limiters,
-- and the layers that act on messages.
--
-- The IRC connector (internal/connector/irc) reads lines from a network and keeps what it knows of
-- the channels; a bouncer and a web gateway show that state to clients and pass their commands on.
-- Limiters guard the bouncer's password, the commands, the reconnect loop and the LLM's tokens.
--
-- Which file models which part:
--   Irc/ChannelState.antt    internal/connector/irc/state.go: a record for ChannelState, a function
--                            for each method, in snake_case (OnSelfJoin is on_self_join)
--   Irc/RateLimit.antt       internal/connector/irc/ratelimit.go: RateLimiter and Throttle
--   Irc/ReconnectStorm.antt  internal/connector/irc/reconnect_storm.go
--   Irc/Wanted.antt          internal/connector/irc/wanted.go
--   Irc/Protocol.antt        internal/connector/irc/protocol.go: Parse, FormatCommand and the tags
--   Irc/UpstreamState.antt   internal/connector/irc/upstream_state.go: the state machine of the
--                            connection, and what a server's texts mean for it
--   Irc/Policy.antt          internal/connector/irc/policy.go: what clients may ask for
--   Irc/PingLedger.antt      internal/connector/irc/pingledger.go
--   Irc/Backoff.antt         internal/connector/irc/backoff.go
--   Irc/Nudge.antt           internal/connector/irc/nudge.go
--   Irc/Nicknames.antt       internal/connector/irc/connector.go: the nicks, and the alternates of one
--                            that is taken
--   Irc/Handshake.antt       internal/connector/irc/connector.go: awaitHandshake
--   Irc/Modes.antt           internal/connector/irc/connector.go: applyPrefixModesToState
--   Irc/Session.antt         internal/connector/irc/connector.go: dispatchLine and its handlers, for
--                            the lines about channels and nicks
--   Irc/Reconcile.antt       internal/connector/irc/connector.go: ReconcileChannels
--   Irc/Queries.antt         internal/connector/irc/connector.go: the replies to WHOIS, and
--                            (Irc/Queries/Lists.antt) to WHO and LIST
--   Agent/Commands.antt      internal/agent/commands.go: the registry of chat commands
--   Flow/Graph.antt          internal/flow/flow.go and `run` of internal/flow/engine.go: the graph of
--                            a flow, and the walk over it with its ceiling of 256 steps
--   Flow/Reload.antt         internal/flow/engine.go: ReplaceFlows and parseCommand
--   Flow/Dispatch.antt       internal/flow/engine.go: onMessage, onUserEvent and FireWebhook
--   Llm/Budget.antt          internal/llm/budget.go
--   Llm/Budgeted.antt        internal/llm/budgeted.go: Ask, with the provider behind it as a parameter,
--                            and (Llm/Budgeted/Interleaved.antt) several calls of it at once
--   Skill/Cron.antt          internal/skill/cron.go: cron expressions, and (Skill/Cron/Next.antt) when
--                            the next minute comes that one matches
--   Skill/Store.antt         internal/skill/store.go: MemoryStore
--   Skill/Lifts.antt         internal/skill/engine.go: timed effects, from scheduleLift to SweepLifts
--   Skill/Model.antt         internal/skill/skill.go: skills and their flat form
--   Skill/Scheduler.antt     internal/skill/scheduler.go: ReplaceSkills and tick
--   Skill/Render.antt        internal/skill/render.go, and (Skill/Render/Vars.antt) renderTmpl of
--                            internal/skill/engine.go
--   Statepush/Emitter.antt   internal/statepush/state_emitter.go: the emitter, as a step relation
--   Messages/Store.antt      internal/messages/messages.go: MemoryStore
--   Messages/Sink.antt       internal/messagesink/sink.go: the sink, as a step relation
--   Base.antt and below      the parts of Go and of its standard library that these use
--
-- How the code is read. A method on a pointer returns the new record. A method that holds its mutex
-- from start to end is one step. SweepLifts releases its mutex before it issues what it has taken out,
-- and the budgeted provider holds none across a call: both are in two parts, between which others may
-- come. Theorems about sequences of calls range over every order in
-- which the calls may come; a file says where a method is more steps than one. The reading of the
-- clock is an argument; theorems that need it say that the readings do not go back. Instants and
-- durations are counts of nanoseconds, natural numbers; `int` is unbounded where no counter nears its
-- width, and has its wrap-around written out where one does (the steps of a cron field, the duration
-- of an effect, the seconds in a numeric); where the code gives a meaning to a value that is not
-- positive the model has the signed type of Base/Int.antt. A string is the list of its bytes; the
-- letters that strings.ToLower changes are the ASCII ones, and white space is that of unicode.IsSpace
-- in UTF-8. A map is an association list whose order
-- stands for Go's unspecified iteration order. Logging is left out.
--
-- Bounds and fuel. The walk of a flow has 257 rounds, one more than the code's own ceiling of 256
-- steps, which Flow/Graph/Walk.antt shows to be enough; the decimal digits of a number have the number. The loop over the steps of a cron part has 64 rounds,
-- which Skill/Cron/Rounds.antt shows to be enough; the search for the next minute has the minutes up
-- to its limit. Every other function is structural.
--
-- Not modelled: the supervisor of the connector and its registration up to the handshake, the bouncer
-- and the web gateway, the actions of the skill engine, the pooled server, the adapters of other chat
-- networks and all that is I/O.
pub mod Agent
pub mod Base
pub mod Flow
pub mod Irc
pub mod Llm
pub mod Messages
pub mod Skill
pub mod Statepush
