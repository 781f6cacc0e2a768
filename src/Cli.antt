-- ===== src/Cli.antt =====
-- src/cli.rs: the headers of the proxy's routes.
pub mod Headers
mod Tests
