-- ===== src/RojoTree.antt =====
-- snapshot/tree.rs: the instance tree with the metadata of its instances.
pub mod Index
mod Paths
pub mod Coherent
pub mod Specified
pub mod Tree
pub mod Sound
pub mod Removal
pub mod Memory
mod Tests
