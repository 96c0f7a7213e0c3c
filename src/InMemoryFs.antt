-- ===== src/InMemoryFs.antt =====
-- crates/memofs/src/in_memory_fs.rs and the snapshots of crates/memofs/src/snapshot.rs. Paths are
-- absolute, by the names below the root; the set of a directory's children is a list without its
-- order. Events are left out: raise_event only sends on a channel.
mod Fs
mod Write
mod Removal
mod Ancestors
mod Tests
unfoldable pub use Fs.*
