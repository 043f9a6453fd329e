-- ===== src/Ai.antt =====
-- ai/: the investigation of exceptions.
pub mod Decision
pub mod Evidence
pub mod Guardrails
pub mod Toolkit
pub mod Agent
pub mod Prompt
pub mod Provider
pub mod Sample
pub mod Tests
pub mod ProviderTests
