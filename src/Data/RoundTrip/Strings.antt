-- ===== src/Data/RoundTrip/Strings.antt =====
-- Byte strings in chunks of 64 bytes: packages/konduit/data/src/cbor_with/plutus_bytes.rs.
use konduit.Base.{
  ℕ, zero, suc, ◌≤◌, ◌≡◌, refl, ap, ==-self, Bool-cases, inl, inr, List, [], ◌∷◌, ◌++◌, Bytes, ok,
  length, leb, arith,
}
use mathlib.Core.List.{append-nil}
use konduit.Data.Primitives.{Primitives}
use konduit.Data.Cbor.{Reader, IsCbor}
use konduit.Data.Wire.{plutus_bytes, write_chunks, take, drop, concat, chunk_size}
use konduit.Data.Decode.{decode_bytes, decode_exactly}
use konduit.Data.Fits.{HasLength}
use konduit.Data.RoundTrip.{Reads, steps}

take-drop : (n : ℕ) (s : Bytes) → take n s ++ drop n s ≡ s
take-drop zero s = refl
take-drop (suc n) [] = refl
take-drop (suc n) (b ∷ s) = ap (λ t. b ∷ t) (take-drop n s)

length-drop : (n : ℕ) (b : ℕ) (s : Bytes) → length (drop (suc n) (b ∷ s)) ≤ length s
length-drop zero b s = omega arith
length-drop (suc n) b [] = omega arith
length-drop (suc n) b (c ∷ s) = omega (arith, length-drop n c s)

module _ (p : Primitives) (r : Reader) (cbor : IsCbor p r) where
  open p use {write_end, write_bytes}
  open r use {bytes_rest}
  open cbor use {iter_bytes, iter_begin_bytes, rest_bytes, rest_end}

  -- The chunks of a string are read back, and put together they are the string.
  chunks-rest :
      (n : ℕ) (s rest : Bytes)
      → length s ≤ n
      → (chunks : List Bytes) × (bytes_rest (write_chunks p n s ++ (write_end ++ rest))
          ≡ ok (chunks, rest))
        × (concat chunks ≡ s)
  unfolding write_chunks
  chunks-rest zero [] rest h = ([], rest_end rest, refl)
  chunks-rest zero (b ∷ s) rest h = absurd (omega arith)
  chunks-rest (suc n) [] rest h = ([], rest_end rest, refl)
  chunks-rest (suc n) (b ∷ s) rest h =
      let more = drop chunk_size (b ∷ s) in
      let (chunks, read, whole) = chunks-rest n more rest (omega (arith, length-drop 63 b s)) in
      (
        take chunk_size (b ∷ s) ∷ chunks,
        simp (steps, rest_bytes, read),
        rw whole (take-drop chunk_size (b ∷ s)),
      )

  pub bytes-Reads : (s : Bytes) → Reads p r cbor (decode_bytes r) (plutus_bytes p s) s
  unfolding decode_bytes plutus_bytes
  bytes-Reads s rest = elim (Bool-cases (leb (length s) chunk_size)) [
    | inl short ↦ simp (short, decode_bytes, steps, iter_bytes, append-nil)
    | inr long ↦
        let (chunks, read, whole) = chunks-rest (length s) s rest (omega arith) in
        simp (long, decode_bytes, steps, iter_begin_bytes, read, whole)
  ]

  -- A key or a signature is written as one string, whatever its length.
  pub exactly-Reads :
      (n : ℕ) (s : Bytes) → HasLength n s → Reads p r cbor (decode_exactly r n) (write_bytes s) s
  unfolding decode_bytes decode_exactly
  exactly-Reads n s h rest =
      simp (decode_exactly, decode_bytes, steps, iter_bytes, append-nil, h, ==-self n)
