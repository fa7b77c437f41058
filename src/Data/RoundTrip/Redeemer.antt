-- ===== src/Data/RoundTrip/Redeemer.antt =====
-- The redeemer: packages/konduit/data/src/{cheque_body,cheque_signed,cheque,indexes,squash_body,squash,
-- unpend,redeemer}.rs.
use konduit.Base.{◌≡◌, List, ◌++◌, Bytes, ok, All, arith}
use konduit.Data.Primitives.{Primitives}
use konduit.Data.Wire
use konduit.Data.Cbor.{Decoder, Reader, IsCbor}
use konduit.Data.Cheque.{ChequeBody, ChequeSigned, Cheque, unlocked, locked}
use konduit.Data.Stage.{Unpend, continue, expire, unlock}
use konduit.Data.SquashBody.{SquashBody}
use konduit.Data.Signed.{Squash}
use konduit.Data.Redeemer.{Cont, Eol, Step, Redeemer}
use konduit.Data.Encode.{
  encode_unpend, encode_signed, encode_cheque, encode_squash, encode_eol, encode_cont, encode_step,
  encode_redeemer,
}
use konduit.Data.Decode.{checked_indexes, checked_squash, decode_unpend, decode_lock, decode_secret}
use konduit.Data.Decode.Redeemer.{
  decode_body, decode_signed, decode_cheque, decode_unlocked_cheque, decode_locked_cheque,
  decode_squash, decode_squash_body, decode_indexes, decode_eol, decode_cont, decode_sub,
  decode_respond, decode_unlock, decode_expire, decode_step, decode_step_cont, decode_step_eol,
  decode_main, decode_redeemer,
}
use konduit.Data.Fits.{
  IsU64, LockFits, SecretFits, UnpendFits, BodyFits, SignedFits, UnlockedFits, ChequeFits,
  SquashBodyFits, SquashFits, ContFits, StepFits, RedeemerFits,
}
use konduit.Data.RoundTrip.{
  Reads, ReadsItem, Starts-begin_array, Starts-tag, steps, finish-end, duration-Reads, lock-Reads,
  secret-Reads, list-Reads,
}
use konduit.Data.SquashBody.Creation.{indexes-new_ok, new_ok}
use konduit.Data.RoundTrip.Strings.{exactly-Reads}

module _ (p : Primitives) (r : Reader) (cbor : IsCbor p r) where
  open cbor use {tag, u64, bytes, array, begin_array, break_bytes, break_u64}

  unpend-ReadsItem :
      (u : Unpend) → UnpendFits u → ReadsItem p r cbor (decode_unpend r) (encode_unpend p) u
  unfolding decode_unpend encode_unpend
  unpend-ReadsItem continue h = (λ rest. simp (steps, bytes), break_bytes _)
  unpend-ReadsItem expire h = (λ rest. simp (steps, bytes), break_bytes _)
  unpend-ReadsItem (unlock s) h = (λ rest. simp (steps, bytes, h), break_bytes s)

  pub body-Reads :
      {T : Type 0} (d : Decoder T) (encode : T → Bytes) (Fits : T → Type 0)
      → ((t : T) → Fits t → Reads p r cbor d (encode t) t)
      → (b : ChequeBody T) → BodyFits Fits b
      → Reads p r cbor (decode_body r d) (Wire.encode_body p encode b) b
  unfolding decode_body Wire.encode_body
  body-Reads d encode Fits latch b (hi, ha, ht, hl) rest = simp (
    steps,
    begin_array,
    u64 b.index _ hi,
    u64 b.amount _ ha,
    duration-Reads p r cbor b.timeout ht,
    latch b.latch hl,
    finish-end p r cbor,
  )

  signed-ReadsItem :
      {T : Type 0} (d : Decoder T) (encode : T → Bytes) (Fits : T → Type 0)
      → ((t : T) → Fits t → Reads p r cbor d (encode t) t)
      → (c : ChequeSigned T) → SignedFits Fits c
      → ReadsItem p r cbor (decode_signed r d) (encode_signed p encode) c
  unfolding decode_signed encode_signed
  signed-ReadsItem d encode Fits latch c (hb, hs) = (
    λ rest. simp (
      steps,
      begin_array,
      body-Reads d encode Fits latch c.body hb,
      exactly-Reads p r cbor 64 c.signature hs,
      finish-end p r cbor,
    ),
    Starts-begin_array p r cbor _,
  )

  cheque-ReadsItem :
      (c : Cheque) → ChequeFits c → ReadsItem p r cbor (decode_cheque r) (encode_cheque p) c
  unfolding decode_cheque encode_cheque decode_unlocked_cheque decode_locked_cheque
  cheque-ReadsItem (unlocked u) (hb, hs) = (
    λ rest. simp (
      steps,
      tag 121 _ (omega arith),
      begin_array,
      body-Reads (decode_secret r) (Wire.encode_secret p) SecretFits (secret-Reads p r cbor) u.body
          hb,
      exactly-Reads p r cbor 64 u.signature hs,
      finish-end p r cbor,
    ),
    Starts-tag p r cbor 121 _,
  )
  cheque-ReadsItem (locked l) (hb, hs) = (
    λ rest. simp (
      steps,
      tag 122 _ (omega arith),
      begin_array,
      body-Reads (decode_lock r) (Wire.encode_lock p) LockFits (lock-Reads p r cbor) l.body hb,
      exactly-Reads p r cbor 64 l.signature hs,
      finish-end p r cbor,
    ),
    Starts-tag p r cbor 122 _,
  )

  pub squash_body-Reads :
      (b : SquashBody)
      → SquashBodyFits b
      → Reads p r cbor (decode_squash_body r) (Wire.encode_squash_body p b) b
  unfolding decode_squash_body decode_indexes Wire.encode_squash_body
  squash_body-Reads b (ha, hi, he, valid) rest = simp (
    steps,
    checked_indexes,
    checked_squash,
    begin_array,
    u64 b.amount _ ha,
    u64 b.index _ hi,
    list-Reads p r cbor r.read_u64 p.write_u64 IsU64 (λ n h. ((λ rest. u64 n rest h), break_u64 n))
        b.excludes he,
    indexes-new_ok b.excludes valid.ascending valid.bounded,
    new_ok b valid,
    finish-end p r cbor,
  )

  pub squash-Reads :
      (s : Squash) → SquashFits s → Reads p r cbor (decode_squash r) (encode_squash p s) s
  unfolding decode_squash encode_squash
  squash-Reads s (hb, hs) rest = simp (
    steps,
    begin_array,
    squash_body-Reads s.body hb,
    exactly-Reads p r cbor 64 s.signature hs,
    finish-end p r cbor,
  )

  eol-Reads : (e : Eol) → Reads p r cbor (decode_eol r) (encode_eol p e) e
  unfolding decode_eol encode_eol
  eol-Reads Eol.end rest = simp (steps, tag 121 _ (omega arith), array)
  eol-Reads Eol.elapse rest = simp (steps, tag 122 _ (omega arith), array)

  unpends-Reads :
      (us : List Unpend)
      → All UnpendFits us
      → Reads p r cbor (r.array_iter (decode_unpend r)) (Wire.plutus_list p (encode_unpend p) us) us
  unpends-Reads us h =
      list-Reads p r cbor (decode_unpend r) (encode_unpend p) UnpendFits unpend-ReadsItem us h

  cont-Reads : (c : Cont) → ContFits c → Reads p r cbor (decode_cont r) (encode_cont p c) c
  unfolding decode_cont encode_cont decode_sub decode_respond decode_unlock decode_expire
  cont-Reads Cont.add h rest = simp (steps, tag 121 _ (omega arith), array)
  cont-Reads (Cont.sub squash us) (hs, hu) rest = simp (
    steps,
    tag 122 _ (omega arith),
    begin_array,
    squash-Reads squash hs,
    list-Reads p r cbor (decode_signed r (decode_secret r)) (encode_signed p (Wire.encode_secret p))
        UnlockedFits
        (signed-ReadsItem (decode_secret r) (Wire.encode_secret p) SecretFits
          (secret-Reads p r cbor))
        us hu,
    finish-end p r cbor,
  )
  cont-Reads Cont.close h rest = simp (steps, tag 123 _ (omega arith), array)
  cont-Reads (Cont.respond squash cs) (hs, hc) rest = simp (
    steps,
    tag 124 _ (omega arith),
    begin_array,
    squash-Reads squash hs,
    list-Reads p r cbor (decode_cheque r) (encode_cheque p) ChequeFits cheque-ReadsItem cs hc,
    finish-end p r cbor,
  )
  cont-Reads (Cont.unlock us) h rest =
      simp (steps, tag 125 _ (omega arith), begin_array, unpends-Reads us h, finish-end p r cbor)
  cont-Reads (Cont.expire us) h rest =
      simp (steps, tag 126 _ (omega arith), begin_array, unpends-Reads us h, finish-end p r cbor)

  step-ReadsItem : (s : Step) → StepFits s → ReadsItem p r cbor (decode_step r) (encode_step p) s
  unfolding decode_step encode_step decode_step_cont decode_step_eol
  step-ReadsItem (Step.cont c) h = (
    λ rest. simp (steps, tag 121 _ (omega arith), begin_array, cont-Reads c h, finish-end p r cbor),
    Starts-tag p r cbor 121 _,
  )
  step-ReadsItem (Step.eol e) h = (
    λ rest. simp (steps, tag 122 _ (omega arith), begin_array, eol-Reads e, finish-end p r cbor),
    Starts-tag p r cbor 122 _,
  )

  -- What the encoder writes for a redeemer, the decoder reads back, and it leaves what follows. For
  -- a redeemer with locks and secrets of 32 bytes, signatures of 64 bytes, words of 64 bits, times
  -- of whole milliseconds and valid squash bodies, and for a reader that behaves as minicbor
  -- documents.
  pub decode_redeemer-encode_redeemer :
      (d : Redeemer) (rest : Bytes)
      → RedeemerFits d
      → decode_redeemer r (encode_redeemer p d ++ rest) ≡ ok (d, rest)
  unfolding decode_redeemer encode_redeemer decode_main
  decode_redeemer-encode_redeemer Redeemer.defer rest h =
      simp (steps, tag 121 _ (omega arith), array)
  decode_redeemer-encode_redeemer (Redeemer.main ss) rest h = simp (
    steps,
    tag 122 _ (omega arith),
    begin_array,
    list-Reads p r cbor (decode_step r) (encode_step p) StepFits step-ReadsItem ss h,
    finish-end p r cbor,
  )
  decode_redeemer-encode_redeemer Redeemer.mutuals rest h =
      simp (steps, tag 123 _ (omega arith), array)
