-- ===== src/Aggregator.antt =====
-- src/aggregator.rs: usage totals by agent and by provider, model and effort.
pub mod Stats
pub mod Bucket
pub mod State
pub mod Values
pub mod Claude
pub mod Models
pub mod Reports
pub mod Codex
pub mod Ingest
pub mod Sound
mod Tests
