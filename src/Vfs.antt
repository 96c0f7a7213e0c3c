-- ===== src/Vfs.antt =====
-- The virtual file system of crates/memofs/src/lib.rs, and the file system snapshots that syncback
-- writes to it.
pub mod Inner
pub mod FsSnapshot
mod Outcome
mod Tests
