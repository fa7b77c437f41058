-- ===== src/Data/RoundTrip/Signing.antt =====
-- The bytes that are signed, `Tag::data` of packages/konduit/data/src/tag.rs over the bodies: what can be
-- told from them.
use konduit.Base.{ℕ, refl, Option, ◌≡◌, ◌≢◌, ◌∙◌, sym, ap, List, [], ◌∷◌, ◌++◌, Bytes, ok, err}
use konduit.Data.Primitives.{Primitives}
use konduit.Data.Wire
use konduit.Data.Wire.{tag_data, encode_cheque_body, encode_squash_body}
use konduit.Data.Cheque.{ChequeBody, Lock}
use konduit.Data.SquashBody.{SquashBody}
use konduit.Data.Cbor.{Decoder, reader, Reader, IsCbor, ◌>>◌}
use konduit.Data.Decode.{decode_bytes, decode_lock}
use konduit.Data.Decode.Redeemer.{decode_body, decode_squash_body}
use konduit.Data.Fits.{BodyFits, LockFits, SquashBodyFits}
use konduit.Data.RoundTrip.{steps, lock-Reads}
use konduit.Data.RoundTrip.Strings.{bytes-Reads}
use konduit.Data.RoundTrip.Redeemer.{body-Reads, squash_body-Reads}

module _ (p : Primitives) (r : Reader) (cbor : IsCbor p r) where
  open cbor use {begin_array, u64, array, array_u64}
  open p use {write_end}

  -- The tag is read first, and what is left is the rest of what was tagged.
  tag_data-Reads :
      (tag encoded : Bytes)
      → (r.read_array >> decode_bytes r) (tag_data p tag encoded) ≡ ok (tag, encoded ++ write_end)
  unfolding tag_data
  tag_data-Reads tag encoded = simp (steps, begin_array, bytes-Reads p r cbor tag)

  tag_data-splits :
      (t t' e e' : Bytes)
      → tag_data p t e ≡ tag_data p t' e'
      → (t ≡ t') × (e ++ write_end ≡ e' ++ write_end)
  tag_data-splits t t' e e' h =
      let same = ap (r.read_array >> decode_bytes r) h in
      (
        cc (same, tag_data-Reads t e, tag_data-Reads t' e'),
        cc (same, tag_data-Reads t e, tag_data-Reads t' e'),
      )

  lock-body-Reads :
      (b : ChequeBody Lock)
      → BodyFits LockFits b
      → decode_body r (decode_lock r) (encode_cheque_body p b ++ write_end) ≡ ok (b, write_end)
  lock-body-Reads b h =
      body-Reads p r cbor (decode_lock r) (Wire.encode_lock p) LockFits (lock-Reads p r cbor) b h
        write_end

  -- The bytes that are signed for a cheque determine its tag and its body. For bodies with locks of
  -- 32 bytes, words of 64 bits and times of whole milliseconds, and where minicbor reads back what
  -- it writes.
  pub cheque_data-injective :
      (t t' : Bytes) (b b' : ChequeBody Lock)
      → BodyFits LockFits b
      → BodyFits LockFits b'
      → tag_data p t (encode_cheque_body p b) ≡ tag_data p t' (encode_cheque_body p b')
      → (t ≡ t') × (b ≡ b')
  cheque_data-injective t t' b b' h h' e =
      let (tags, bodies) = tag_data-splits t t' _ _ e in
      let same = ap (decode_body r (decode_lock r)) bodies in
      (tags, cc (same, lock-body-Reads b h, lock-body-Reads b' h'))

  -- The bytes that are signed for a squash determine its tag and its body. For valid bodies of
  -- words of 64 bits, and where minicbor reads back what it writes.
  squash_data-injective :
      (t t' : Bytes) (b b' : SquashBody)
      → SquashBodyFits b
      → SquashBodyFits b'
      → tag_data p t (encode_squash_body p b) ≡ tag_data p t' (encode_squash_body p b')
      → (t ≡ t') × (b ≡ b')
  squash_data-injective t t' b b' h h' e =
      let (tags, bodies) = tag_data-splits t t' _ _ e in
      let same = ap (decode_squash_body r) bodies in
      (
        tags,
        cc (
          same,
          squash_body-Reads p r cbor b h write_end,
          squash_body-Reads p r cbor b' h' write_end,
        ),
      )

  -- After two words a cheque has a third, and a squash has an array.
  abbrev third : Decoder (Option ℕ)
  third = r.read_array >> r.read_u64 >> r.read_u64 >> r.read_array

  third-cheque :
      (b : ChequeBody Lock) (rest : Bytes)
      → BodyFits LockFits b
      → third (encode_cheque_body p b ++ rest) ≡ err reader
  unfolding Wire.encode_body
  third-cheque b rest (hi, ha, _, _) =
      simp (steps, begin_array, u64 b.index _ hi, u64 b.amount _ ha, array_u64)

  third-squash :
      (b : SquashBody) (rest : Bytes)
      → SquashBodyFits b
      → third (encode_squash_body p b ++ rest) ≢ err reader
  unfolding Wire.encode_squash_body Wire.plutus_list
  third-squash b rest (ha, hi, _, _) = at b.excludes refl
    where
      at : (xs : List ℕ) → b.excludes ≡ xs → third (encode_squash_body p b ++ rest) ≢ err reader
      at [] e h = cc (simp (e, steps, begin_array, u64 b.amount _ ha, u64 b.index _ hi, array) at h)
      at (x ∷ xs) e h = cc (simp (e, steps, begin_array, u64 b.amount _ ha, u64 b.index _ hi) at h)

  -- The bytes that are signed for a cheque are never those that are signed for a squash, whatever
  -- the tags. For bodies that fit their types, and where minicbor reads back what it writes and
  -- refuses to read an array from a word.
  pub cheque_data-squash_data :
      (t t' : Bytes) (b : ChequeBody Lock) (s : SquashBody)
      → BodyFits LockFits b
      → SquashBodyFits s
      → tag_data p t (encode_cheque_body p b) ≢ tag_data p t' (encode_squash_body p s)
  cheque_data-squash_data t t' b s h h' e =
      let (tags, bodies) = tag_data-splits t t' _ _ e in
      third-squash s write_end h' (sym (ap third bodies) ∙ third-cheque b write_end h)
