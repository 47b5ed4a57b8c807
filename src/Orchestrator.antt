-- ===== src/Orchestrator.antt =====
-- The agent orchestrator, orchestrator.
pub mod Transcript
pub mod Mutating
pub mod Gate
pub mod Redact
pub mod Phone
