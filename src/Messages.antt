-- ===== src/Messages.antt =====
-- The history of messages (internal/messages).
pub mod Store
pub mod Sink
