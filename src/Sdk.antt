-- ===== src/Sdk.antt =====
-- The Cardano SDK of the repository, packages/cardano/sdk/src.
pub mod Value
