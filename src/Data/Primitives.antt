-- ===== src/Data/Primitives.antt =====
-- What the data of packages/konduit/data/src takes from other packages: SHA-256 and ed25519 of
-- cryptoxide, and the byte strings that minicbor's encoder writes. They are parameters.
use konduit.Base.{ℕ, Bool, Bytes}

pub record Primitives : Type 0 where
  -- `cryptoxide::hashing::sha256`
  pub sha256 : Bytes → Bytes
  -- `cryptoxide::ed25519::verify`, on a message, a key and a signature
  pub verify : Bytes → Bytes → Bytes → Bool
  -- what `minicbor::Encoder` writes for `tag`, `u64`, `bytes`, `array`, `begin_array`, `end` and
  -- `begin_bytes`
  pub write_tag : ℕ → Bytes
  pub write_u64 : ℕ → Bytes
  pub write_bytes : Bytes → Bytes
  pub write_array : ℕ → Bytes
  pub write_begin_array : Bytes
  pub write_end : Bytes
  pub write_begin_bytes : Bytes
