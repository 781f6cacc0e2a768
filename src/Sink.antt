-- ===== src/Sink.antt =====
-- src/sink.rs: the path of a batch from its receipt to the file, the usage totals, the
-- human-readable outputs and the proxy.
pub mod Health
pub mod Pretty
pub mod Pipeline
pub mod Retention
mod Tests
