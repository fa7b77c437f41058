-- ===== src/Server.antt =====
-- The adaptor's server, packages/konduit/server/src.
pub mod Channel
pub mod Db
pub mod Data
pub mod Quote
pub mod Admin
