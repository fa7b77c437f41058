-- ===== src/Data/Decode.antt =====
-- The `Decode` instances of packages/konduit/data/src that read the datum.
pub mod Redeemer
pub mod Validity
use konduit.Base.{
  ℕ, Bool, true, false, List, Bytes, Result, ok, err, panic, length, ◌==◌, if◌then◌else◌,
}
use konduit.Data.Cbor.{
  Decoder, DecodeError, wrong_length, unfinished, unknown_tag, bad_indexes, bad_squash, Reader,
  ◌>>=◌, ◌>>◌, pure, fail,
}
use konduit.Data.Duration.{Duration, from_millis}
use konduit.Data.Cheque.{Lock, Secret, ChequeBody, ChequeSigned, Cheque, unlocked, locked, Unlocked}
use konduit.Data.Indexes
use konduit.Data.Indexes.{Indexes}
use konduit.Data.SquashBody
use konduit.Data.SquashBody.{SquashBody}
use konduit.Data.Signed.{Squash}
use konduit.Data.Stage.{
  Used, Pending, Unpend, continue, expire, unlock, Stage, opened, closed, responded, Constants,
}
use konduit.Data.Datum.{Datum}
use konduit.Data.Wire.{concat}

-- `<[u8; N]>::try_from`
abbrev pub exactly : ℕ → Bytes → Decoder Bytes
exactly n s = if length s == n then pure s else fail wrong_length

-- `Indexes::new`, and `SquashBody::new`, with the error as a message.
abbrev pub checked_indexes : List ℕ → Decoder Indexes
checked_indexes items bs = elim (Indexes.new items) [
  | ok xs ↦ ok (xs, bs)
  | err e ↦ err (bad_indexes e)
  | panic ↦ panic
]

abbrev pub checked_squash : ℕ → ℕ → Indexes → Decoder SquashBody
checked_squash amount index excludes bs = elim (SquashBody.new amount index excludes) [
  | ok b ↦ ok (b, bs)
  | err e ↦ err (bad_squash e)
  | panic ↦ panic
]

module _ (r : Reader) where
  open r use {read_tag, read_array, read_u64, read_bytes, skip, at_break, bytes_iter, array_iter}

  -- The test for the break that ends an array, and the `skip` over it.
  unfoldable pub finish : Decoder (Unit {0})
  finish bs = elim (at_break bs) [
    | ok b ↦ if b then skip bs else err unfinished
    | err e ↦ err e
    | panic ↦ panic
  ]

  -- `plutus_bytes::decode`, which is also what the keys and the signatures are read with.
  unfoldable pub decode_bytes : Decoder Bytes
  decode_bytes = do chunks ← bytes_iter; pure (concat chunks)

  unfoldable pub decode_exactly : ℕ → Decoder Bytes
  decode_exactly n = do raw ← decode_bytes; exactly n raw

  unfoldable pub decode_duration : Decoder Duration
  decode_duration = do millis ← read_u64; pure (from_millis millis)

  unfoldable pub decode_lock : Decoder Lock
  decode_lock = do raw ← read_bytes; s ← exactly 32 raw; pure (record { bytes = s })

  unfoldable pub decode_secret : Decoder Secret
  decode_secret = do raw ← read_bytes; s ← exactly 32 raw; pure (record { bytes = s })

  unfoldable pub decode_used : Decoder Used
  decode_used = do
    read_array
    index ← read_u64
    amount ← read_u64
    finish
    pure (record { index = index; amount = amount })

  unfoldable pub decode_pending : Decoder Pending
  decode_pending = do
    read_array
    amount ← read_u64
    timeout ← decode_duration
    lock ← decode_lock
    finish
    pure (record { amount = amount; timeout = timeout; lock = lock })

  -- No byte is a continue, 32 are a secret, and any other count is an expire.
  abbrev pub unpend_of : Bytes → Unpend
  unpend_of raw =
      if length raw == 0 then continue else if length raw == 32 then unlock raw else expire

  unfoldable pub decode_unpend : Decoder Unpend
  decode_unpend = do raw ← read_bytes; pure (unpend_of raw)

  -- `plutus_list::decode` is `array_iter`.
  unfoldable pub decode_opened : Decoder Stage
  decode_opened = do
    amount ← read_u64
    useds ← array_iter decode_used
    finish
    pure (opened amount useds)

  unfoldable pub decode_closed : Decoder Stage
  decode_closed = do
    amount ← read_u64
    useds ← array_iter decode_used
    deadline ← decode_duration
    finish
    pure (closed amount useds deadline)

  unfoldable pub decode_responded : Decoder Stage
  decode_responded = do
    amount ← read_u64
    pendings ← array_iter decode_pending
    finish
    pure (responded amount pendings)

  -- The tag is looked up before the array is entered.
  abbrev stage_fields : ℕ → Decoder Stage
  stage_fields n =
      if n == 121
      then read_array >> decode_opened
      else if n == 122
      then read_array >> decode_closed
      else if n == 123
      then read_array >> decode_responded
      else fail (unknown_tag n)

  unfoldable pub decode_stage : Decoder Stage
  decode_stage = do n ← read_tag; stage_fields n

  unfoldable pub decode_constants : Decoder Constants
  decode_constants = do
    read_array
    tag ← decode_bytes
    add_vkey ← decode_exactly 32
    sub_vkey ← decode_exactly 32
    close_period ← decode_duration
    finish
    pure (record {
      tag = tag;
      add_vkey = add_vkey;
      sub_vkey = sub_vkey;
      close_period = close_period;
    })

  unfoldable pub decode_datum : Decoder Datum
  decode_datum = do
    read_array
    raw ← read_bytes
    own_hash ← exactly 28 raw
    constants ← decode_constants
    stage ← decode_stage
    finish
    pure (record { own_hash = own_hash; constants = constants; stage = stage })
