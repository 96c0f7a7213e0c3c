-- ===== src/VariantEq.antt =====
-- variant_eq.rs: whether two property values are equal.
pub mod Values
pub mod Equal
mod Reflexive
mod Nan
mod Tags
mod Tests
