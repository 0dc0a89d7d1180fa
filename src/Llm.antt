-- ===== src/Llm.antt =====
-- The LLM layer (internal/llm).
pub mod Budget
pub mod Budgeted
