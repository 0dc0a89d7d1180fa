-- ===== src/Flow.antt =====
-- The flow engine (internal/flow).
pub mod Trigger
pub mod Graph
pub mod Reload
pub mod Dispatch
