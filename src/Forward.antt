-- ===== src/Forward.antt =====
-- src/forward: batches that are stored are handed to one queue for each upstream route.
pub mod Router
pub mod Worker
pub mod Client
mod Tests
