-- ===== src/Format.antt =====
-- src/format.rs: the human-readable output.
pub mod Quote
mod Tests
