-- ===== src/Irc.antt =====
-- The IRC connector (internal/connector/irc).
pub mod RateLimit
pub mod ReconnectStorm
pub mod ChannelState
pub mod Wanted
pub mod Protocol
pub mod UpstreamState
pub mod Policy
pub mod PingLedger
pub mod Backoff
pub mod Nudge
pub mod Modes
pub mod Nicknames
pub mod Handshake
pub mod Session
pub mod Reconcile
pub mod Queries
