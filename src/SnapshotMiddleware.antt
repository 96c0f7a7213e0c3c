-- ===== src/SnapshotMiddleware.antt =====
-- snapshot_middleware/mod.rs: which middleware turns a path into an instance.
pub mod Rules
pub mod Select
mod Ignored
mod Chosen
mod Agree
mod Endings
mod Rows
mod Named
pub mod Directories
mod Gathered
mod Tests
