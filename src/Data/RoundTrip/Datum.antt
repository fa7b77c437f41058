-- ===== src/Data/RoundTrip/Datum.antt =====
-- The datum: packages/konduit/data/src/{used,pending,stage,constants,datum}.rs.
use konduit.Base.{◌≡◌, List, ◌++◌, Bytes, ok, All, arith}
use konduit.Data.Primitives.{Primitives}
use konduit.Data.Wire
use konduit.Data.Cbor.{Reader, IsCbor}
use konduit.Data.Stage.{Used, Pending, Stage, opened, closed, responded, Constants}
use konduit.Data.Datum.{Datum}
use konduit.Data.Encode.{encode_used, encode_pending, encode_stage, encode_constants, encode_datum}
use konduit.Data.Decode.{
  decode_used, decode_pending, decode_stage, decode_opened, decode_closed, decode_responded,
  decode_constants, decode_datum,
}
use konduit.Data.Fits.{UsedFits, PendingFits, StageFits, ConstantsFit, DatumFits}
use konduit.Data.RoundTrip.{
  Reads, ReadsItem, Starts-begin_array, steps, finish-end, duration-Reads, lock-Reads, list-Reads,
}
use konduit.Data.RoundTrip.Strings.{bytes-Reads, exactly-Reads}

module _ (p : Primitives) (r : Reader) (cbor : IsCbor p r) where
  open cbor use {tag, u64, bytes, begin_array}

  used-ReadsItem : (u : Used) → UsedFits u → ReadsItem p r cbor (decode_used r) (encode_used p) u
  unfolding decode_used encode_used
  used-ReadsItem u (hi, ha) = (
    λ rest. simp (steps, begin_array, u64 u.index _ hi, u64 u.amount _ ha, finish-end p r cbor),
    Starts-begin_array p r cbor _,
  )

  pending-ReadsItem :
      (d : Pending) → PendingFits d → ReadsItem p r cbor (decode_pending r) (encode_pending p) d
  unfolding decode_pending encode_pending
  pending-ReadsItem d (ha, ht, hl) = (
    λ rest. simp (
      steps,
      begin_array,
      u64 d.amount _ ha,
      duration-Reads p r cbor d.timeout ht,
      lock-Reads p r cbor d.lock hl,
      finish-end p r cbor,
    ),
    Starts-begin_array p r cbor _,
  )

  useds-Reads :
      (us : List Used)
      → All UsedFits us
      → Reads p r cbor (r.array_iter (decode_used r)) (Wire.plutus_list p (encode_used p) us) us
  useds-Reads us h =
      list-Reads p r cbor (decode_used r) (encode_used p) UsedFits used-ReadsItem us h

  pendings-Reads :
      (ds : List Pending)
      → All PendingFits ds
      → Reads p r cbor
          (r.array_iter (decode_pending r))
          (Wire.plutus_list p (encode_pending p) ds)
          ds
  pendings-Reads ds h =
      list-Reads p r cbor (decode_pending r) (encode_pending p) PendingFits pending-ReadsItem ds h

  stage-Reads : (s : Stage) → StageFits s → Reads p r cbor (decode_stage r) (encode_stage p s) s
  unfolding decode_stage encode_stage decode_opened decode_closed decode_responded
  stage-Reads (opened amount us) (ha, hu) rest = simp (
    steps,
    tag 121 _ (omega arith),
    begin_array,
    u64 amount _ ha,
    useds-Reads us hu,
    finish-end p r cbor,
  )
  stage-Reads (closed amount us deadline) (ha, hu, hd) rest = simp (
    steps,
    tag 122 _ (omega arith),
    begin_array,
    u64 amount _ ha,
    useds-Reads us hu,
    duration-Reads p r cbor deadline hd,
    finish-end p r cbor,
  )
  stage-Reads (responded amount ds) (ha, hd) rest = simp (
    steps,
    tag 123 _ (omega arith),
    begin_array,
    u64 amount _ ha,
    pendings-Reads ds hd,
    finish-end p r cbor,
  )

  constants-Reads :
      (c : Constants)
      → ConstantsFit c
      → Reads p r cbor (decode_constants r) (encode_constants p c) c
  unfolding decode_constants encode_constants
  constants-Reads c (ha, hs, hp) rest = simp (
    steps,
    begin_array,
    bytes-Reads p r cbor c.tag,
    exactly-Reads p r cbor 32 c.add_vkey ha,
    exactly-Reads p r cbor 32 c.sub_vkey hs,
    duration-Reads p r cbor c.close_period hp,
    finish-end p r cbor,
  )

  -- What the encoder writes for a datum, the decoder reads back, and it leaves what follows. For a
  -- datum with a hash of 28 bytes, keys of 32 bytes, words of 64 bits and times of whole
  -- milliseconds, and for a reader that behaves as minicbor documents.
  pub decode_datum-encode_datum :
      (d : Datum) (rest : Bytes)
      → DatumFits d
      → decode_datum r (encode_datum p d ++ rest) ≡ ok (d, rest)
  unfolding decode_datum encode_datum
  decode_datum-encode_datum d rest (ho, hc, hs) = simp (
    steps,
    begin_array,
    bytes,
    ho,
    constants-Reads d.constants hc,
    stage-Reads d.stage hs,
    finish-end p r cbor,
  )
