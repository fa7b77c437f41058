-- ===== src/Util.antt =====
-- The support crates of the repository, packages/util.
pub mod Powdos
pub mod Cobbl3
pub mod Tests
