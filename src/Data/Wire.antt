-- ===== src/Data/Wire.antt =====
-- The bytes that are signed: packages/konduit/data/src/cbor_with and the `Encode` instances of
-- cheque_body.rs, indexes.rs and squash_body.rs, and `Tag::data` of tag.rs.
use konduit.Base.{ℕ, zero, suc, List, [], ◌∷◌, ◌++◌, Bytes, length, leb, is_empty, if◌then◌else◌}
use konduit.Data.Duration.{as_millis}
use konduit.Data.Primitives.{Primitives}
use konduit.Data.Cheque.{ChequeBody, Lock, Secret}
use konduit.Data.SquashBody.{SquashBody}

abbrev pub chunk_size : ℕ
chunk_size = 64

abbrev pub take : ℕ → Bytes → Bytes
take zero xs = []
take (suc n) [] = []
take (suc n) (x ∷ xs) = x ∷ take n xs

abbrev pub drop : ℕ → Bytes → Bytes
drop zero xs = xs
drop (suc n) [] = []
drop (suc n) (x ∷ xs) = drop n xs

-- The writes of a chain of calls, one after the other.
abbrev pub concat : List Bytes → Bytes
concat [] = []
concat (b ∷ bs) = b ++ concat bs

module _ (p : Primitives) where
  open p use {write_u64, write_bytes, write_array, write_begin_array, write_end, write_begin_bytes}

  -- `val.chunks(CHUNK_SIZE)`, each written in turn; the length of the value is enough fuel.
  unfoldable pub write_chunks : ℕ → Bytes → Bytes
  write_chunks zero xs = []
  write_chunks (suc n) [] = []
  write_chunks (suc n) (x ∷ xs) =
      write_bytes (take chunk_size (x ∷ xs)) ++ write_chunks n (drop chunk_size (x ∷ xs))

  -- `plutus_bytes::encode`
  unfoldable pub plutus_bytes : Bytes → Bytes
  unfolding write_chunks
  plutus_bytes xs =
      if leb (length xs) chunk_size
      then write_bytes xs
      else write_begin_bytes ++ (write_chunks (length xs) xs ++ write_end)

  unfoldable pub write_items : {A : Type 0} → (A → Bytes) → List A → Bytes
  write_items encode [] = []
  write_items encode (x ∷ xs) = encode x ++ write_items encode xs

  -- `plutus_list::encode`
  unfoldable pub plutus_list : {A : Type 0} → (A → Bytes) → List A → Bytes
  unfolding write_items
  plutus_list encode xs =
      if is_empty xs
      then write_array 0
      else write_begin_array ++ (write_items encode xs ++ write_end)

  -- `begin_array`, the fields in turn, and `end`
  abbrev pub framed : List Bytes → Bytes
  framed fields = write_begin_array ++ (concat fields ++ write_end)

  -- `impl Encode for ChequeBody`, over that of the latch
  unfoldable pub encode_body : {T : Type 0} → (T → Bytes) → ChequeBody T → Bytes
  encode_body encode_latch b = framed (
      write_u64 b.index
      ∷ write_u64 b.amount
      ∷ write_u64 (as_millis b.timeout)
      ∷ encode_latch b.latch
      ∷ [])

  -- `impl Encode for Lock`, and for `Secret`
  abbrev pub encode_lock : Lock → Bytes
  encode_lock l = write_bytes l.bytes

  abbrev pub encode_secret : Secret → Bytes
  encode_secret s = write_bytes s.bytes

  abbrev pub encode_cheque_body : ChequeBody Lock → Bytes
  encode_cheque_body = encode_body encode_lock

  -- `impl Encode for SquashBody`
  unfoldable pub encode_squash_body : SquashBody → Bytes
  encode_squash_body b =
      framed (write_u64 b.amount ∷ write_u64 b.index ∷ plutus_list write_u64 b.excludes ∷ [])

  -- `Tag::data`, on what is encoded already
  unfoldable pub tag_data : Bytes → Bytes → Bytes
  tag_data tag encoded = framed (plutus_bytes tag ∷ encoded ∷ [])
