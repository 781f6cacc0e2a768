-- ===== src/Storage.antt =====
-- src/storage.rs: appends that leave no partial batch, the recovery of a torn tail, daily files.
pub mod File
pub mod Append
pub mod Tail
pub mod Daily
mod Tests
