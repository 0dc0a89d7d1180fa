-- ===== src/Agent.antt =====
-- The agent core (internal/agent).
pub mod Commands
