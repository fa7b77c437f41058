-- ===== src/Data/RoundTrip.antt =====
-- What the encoders of packages/konduit/data/src write is read back by their decoders, for any reader
-- that behaves as minicbor documents. Here are the parts that all of them share.
pub mod Strings
pub mod Plain
pub mod Datum
pub mod Redeemer
pub mod Signing
pub mod Tests
use konduit.Base.{
  ℕ, ◌≡◌, ◌∙◌, refl, sym, ap, false, List, [], ◌∷◌, ◌++◌, Bytes, Result, ok, length, arith, All,
}
use mathlib.Core.List.{append_assoc, append-nil}
use konduit.Data.Primitives.{Primitives}
use konduit.Data.Cbor
use konduit.Data.Cbor.{Decoder, Reader, IsCbor, ◌>>=◌, ◌>>◌}
use konduit.Data.Duration.{Duration, as_millis}
use konduit.Data.Cheque.{Lock, Secret}
use konduit.Data.Wire.{plutus_list, write_items, encode_lock, encode_secret}
use konduit.Data.Encode.{encode_duration}
use konduit.Data.Decode.{decode_duration, decode_lock, decode_secret, finish}
use konduit.Data.Fits.{IsU64, IsMillis, LockFits, SecretFits}

as_millis-IsU64 : (d : Duration) → IsU64 (as_millis d)
unfolding as_millis
as_millis-IsU64 d = omega arith

ruleset steps = (append_assoc, ◌>>=◌, ◌>>◌)

All-map :
    {A : Type 0} (P Q : A → Type 0) → ((x : A) → P x → Q x) → (xs : List A) → All P xs → All Q xs
All-map P Q f [] hs = tt
All-map P Q f (x ∷ xs) (h, hs) = (f x h, All-map P Q f xs hs)

module _ (p : Primitives) (r : Reader) (cbor : IsCbor p r) where
  open p use {write_begin_array, write_end, write_tag, write_bytes}
  open r use {at_break, array_iter, array_rest}
  open cbor use {
    u64, bytes, array, end, break_end, break_begin_array, break_tag, break_bytes, iter_array,
    iter_begin_array, rest_stop, rest_item,
  }

  -- The decoder reads the value from the chunk, whatever follows it.
  abbrev pub Reads : {A : Type 0} → Decoder A → Bytes → A → Type 0
  Reads d chunk x = (rest : Bytes) → d (chunk ++ rest) ≡ ok (x, rest)

  -- The chunk does not look like the end of an array.
  abbrev Starts : Bytes → Type 0
  Starts chunk = (rest : Bytes) → at_break (chunk ++ rest) ≡ ok false

  abbrev pub ReadsItem : {A : Type 0} → Decoder A → (A → Bytes) → A → Type 0
  ReadsItem d encode x = Reads d (encode x) x × Starts (encode x)

  pub finish-end : (rest : Bytes) → finish r (write_end ++ rest) ≡ ok (tt, rest)
  unfolding finish
  finish-end rest = simp (finish, break_end, end)

  pub Starts-begin_array : (b : Bytes) → Starts (write_begin_array ++ b)
  Starts-begin_array b rest = rw (append_assoc) (break_begin_array (b ++ rest))

  pub Starts-tag : (n : ℕ) (b : Bytes) → Starts (write_tag n ++ b)
  Starts-tag n b rest = rw (append_assoc) (break_tag n (b ++ rest))

  pub duration-Reads :
      (d : Duration) → IsMillis d → Reads (decode_duration r) (encode_duration p d) d
  unfolding decode_duration
  duration-Reads d h rest =
      simp (decode_duration, steps, u64 (as_millis d) rest (as_millis-IsU64 d), h)

  pub lock-Reads : (l : Lock) → LockFits l → Reads (decode_lock r) (encode_lock p l) l
  unfolding decode_lock
  lock-Reads l h rest = simp (decode_lock, steps, bytes, h)

  pub secret-Reads : (s : Secret) → SecretFits s → Reads (decode_secret r) (encode_secret p s) s
  unfolding decode_secret
  secret-Reads s h rest = simp (decode_secret, steps, bytes, h)

  -- One item of an array: what starts no break is not empty.
  item-rest :
      {A : Type 0} (d : Decoder A) (x : A) (chunk rest : Bytes)
      → Starts chunk
      → Reads d chunk x
      → array_rest d (chunk ++ rest) ≡ (array_rest d >>= λ xs. Cbor.pure (x ∷ xs)) rest
  item-rest d x [] rest s h = cc (s (write_end ++ []), break_end [])
  item-rest d x (b ∷ item) rest s h = rest_item d x b item rest (s rest) (h rest)

  items-rest :
      {A : Type 0} (d : Decoder A) (encode : A → Bytes) (xs : List A)
      → All (ReadsItem d encode) xs
      → (rest : Bytes)
      → array_rest d (write_items p encode xs ++ (write_end ++ rest)) ≡ ok (xs, rest)
  unfolding write_items
  items-rest d encode [] hs rest = rest_stop d rest
  items-rest d encode (x ∷ xs) ((h, s), hs) rest =
      rw append_assoc
        (item-rest d x (encode x) _ s h ∙ simp (steps, items-rest d encode xs hs rest))

  plutus_list-Reads :
      {A : Type 0} (d : Decoder A) (encode : A → Bytes) (xs : List A)
      → All (ReadsItem d encode) xs
      → Reads (array_iter d) (plutus_list p encode xs) xs
  unfolding plutus_list write_items
  plutus_list-Reads d encode [] hs rest = iter_array d rest
  plutus_list-Reads d encode (x ∷ xs) hs rest =
      let whole = items-rest d encode (x ∷ xs) hs rest in
      simp (append_assoc, iter_begin_array) (rw append_assoc at whole)

  -- A list whose items fit is read back, if each item that fits is.
  pub list-Reads :
      {A : Type 0} (d : Decoder A) (encode : A → Bytes) (Fits : A → Type 0)
      → ((x : A) → Fits x → ReadsItem d encode x)
      → (xs : List A) → All Fits xs
      → Reads (array_iter d) (plutus_list p encode xs) xs
  list-Reads d encode Fits item xs hs =
      plutus_list-Reads d encode xs (All-map Fits (ReadsItem d encode) item xs hs)
