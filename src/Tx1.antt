-- ===== src/Tx1.antt =====
-- packages/konduit/tx/src: the first version of the steps of a channel.
pub mod Variables
pub mod Channel
pub mod Agrees
pub mod Refused
pub mod Tests
