-- ===== src/Patch.antt =====
-- snapshot/patch.rs, patch_compute.rs and patch_apply.rs: the difference between a snapshot and the
-- tree, and its application.
pub mod Variants
pub mod Properties
pub mod Sets
pub mod Compute
pub mod Walk
pub mod Rewrite
pub mod Deferred
pub mod Apply
pub mod Finish
mod Context
mod Additions
mod Updates
mod Applied
mod Pairing
mod Sync
pub mod Sample
mod Tests
mod Total
pub mod Mirror
mod Distinct
mod Converge
mod Outcome
