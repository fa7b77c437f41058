-- ===== src/Data.antt =====
-- The data of the protocol, packages/konduit/data/src: what is signed off chain and what stands in
-- the datum and the redeemer on chain.
pub mod Indexes
pub mod SquashBody
pub mod Primitives
pub mod Duration
pub mod Cheque
pub mod Wire
pub mod Cbor
pub mod Signed
pub mod Stage
pub mod Datum
pub mod Redeemer
pub mod Encode
pub mod Decode
pub mod Fits
pub mod RoundTrip
