-- ===== src/Skill.antt =====
-- The skill engine: what a schedule, an event, a message or a webhook sets off.
pub mod Cron
pub mod Store
pub mod Lifts
pub mod Model
pub mod Scheduler
pub mod Render
