-- ===== src/Statepush.antt =====
-- How the state of an agent is pushed to its control plane.
pub mod Emitter
