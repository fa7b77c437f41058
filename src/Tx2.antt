-- ===== src/Tx2.antt =====
-- packages/konduit/tx2/src: the steps of a channel that a transaction takes.
pub mod Interval
pub mod Step
pub mod Fuel
pub mod Channel
pub mod Closing
pub mod Pendings
pub mod Resolve
pub mod Staged
pub mod Kernel
pub mod Tests
