-- ===== src/Data/Cbor.antt =====
-- What the decoders of packages/konduit/data/src take from minicbor's `Decoder`: the calls are
-- parameters, and what the documentation of minicbor says of them is the record `IsCbor`. A decoder
-- is given the bytes that it has not read, and gives its value with the bytes that are left.
use konduit.Base.{
  ℕ, ◌<◌, ◌≡◌, refl, Bool, true, false, Option, none, some, List, [], ◌∷◌, ◌++◌, Bytes, Result, ok,
  err, panic, u64_mod,
}
use konduit.Data.Primitives.{Primitives}
use konduit.Data.Indexes.{IndexesError}
use konduit.Data.SquashBody.{SquashBodyError}

-- `reader` is any error of minicbor itself, the others are the messages of the source.
pub data DecodeError : Type 0 where
  reader unfinished wrong_length : DecodeError
  unknown_tag : ℕ → DecodeError
  bad_indexes : IndexesError → DecodeError
  bad_squash : SquashBodyError → DecodeError

abbrev pub Decoder : Type 0 → Type 0
Decoder A = Bytes → Result DecodeError (A × Bytes)

infixl 5 ◌>>=◌ ◌>>◌
abbrev pub ◌>>=◌ : {A B : Type 0} → Decoder A → (A → Decoder B) → Decoder B
◌>>=◌ d k bs = elim (d bs) [ ok (x, rest) ↦ k x rest | err e ↦ err e | panic ↦ panic ]

abbrev pub ◌>>◌ : {A B : Type 0} → Decoder A → Decoder B → Decoder B
d >> k = d >>= λ _. k

abbrev pub pure : {A : Type 0} → A → Decoder A
pure x bs = ok (x, bs)

abbrev pub fail : {A : Type 0} → DecodeError → Decoder A
fail e bs = err e

-- What a chain of calls that succeeds has read.
pub >>=-eq-ok :
    {A B : Type 0} (d : Decoder A) (k : A → Decoder B) (bs : Bytes) {y : B × Bytes}
    → (d >>= k) bs ≡ ok y
    → (x : A) × (mid : Bytes) × (d bs ≡ ok (x, mid)) × (k x mid ≡ ok y)
>>=-eq-ok {A} {B} d k bs {y} h = at (d bs) refl
  where
    at :
        (first : Result DecodeError (A × Bytes))
        → d bs ≡ first
        → (x : A) × (mid : Bytes) × (d bs ≡ ok (x, mid)) × (k x mid ≡ ok y)
    at (ok (x, mid)) e = (x, mid, e, rw (◌>>=◌, e) at h)
    at (err c) e = cc (rw (◌>>=◌, e) at h)
    at panic e = cc (rw (◌>>=◌, e) at h)

pub record Reader : Type 1 where
  -- `tag`, `array` (the length, if it is definite), `u64`, `bytes` and `skip`
  pub read_tag : Decoder ℕ
  pub read_array : Decoder (Option ℕ)
  pub read_u64 : Decoder ℕ
  pub read_bytes : Decoder Bytes
  pub skip : Decoder (Unit {0})
  -- whether `datatype` gives `Type::Break`
  pub at_break : Bytes → Result DecodeError Bool
  -- the slices that `bytes_iter` gives, and those that it still gives inside an indefinite string
  pub bytes_iter : Decoder (List Bytes)
  pub bytes_rest : Decoder (List Bytes)
  -- the items that `array_iter_with` gives, and those that it still gives inside an indefinite array
  pub array_iter : {A : Type 0} → Decoder A → Decoder (List A)
  pub array_rest : {A : Type 0} → Decoder A → Decoder (List A)

module _ (p : Primitives) (r : Reader) where
  open p use {
    write_tag, write_u64, write_bytes, write_array, write_begin_array, write_end, write_begin_bytes,
  }
  open r use {
    read_tag, read_array, read_u64, read_bytes, skip, at_break, bytes_iter, bytes_rest, array_iter,
    array_rest,
  }

  -- Each call of `Decoder` reads back what the call of `Encoder` has written, and leaves the rest. Only
  -- `end` writes a break.
  pub record IsCbor : Type 1 where
    pub tag : (n : ℕ) (rest : Bytes) → n < u64_mod → read_tag (write_tag n ++ rest) ≡ ok (n, rest)
    pub u64 : (n : ℕ) (rest : Bytes) → n < u64_mod → read_u64 (write_u64 n ++ rest) ≡ ok (n, rest)
    pub bytes : (s rest : Bytes) → read_bytes (write_bytes s ++ rest) ≡ ok (s, rest)
    pub array : (rest : Bytes) → read_array (write_array 0 ++ rest) ≡ ok (some 0, rest)
    pub begin_array : (rest : Bytes) → read_array (write_begin_array ++ rest) ≡ ok (none, rest)
    pub array_u64 : (n : ℕ) (rest : Bytes) → read_array (write_u64 n ++ rest) ≡ err reader
    pub end : (rest : Bytes) → skip (write_end ++ rest) ≡ ok (tt, rest)
    pub break_end : (rest : Bytes) → at_break (write_end ++ rest) ≡ ok true
    pub break_tag : (n : ℕ) (rest : Bytes) → at_break (write_tag n ++ rest) ≡ ok false
    pub break_u64 : (n : ℕ) (rest : Bytes) → at_break (write_u64 n ++ rest) ≡ ok false
    pub break_bytes : (s rest : Bytes) → at_break (write_bytes s ++ rest) ≡ ok false
    pub break_begin_array : (rest : Bytes) → at_break (write_begin_array ++ rest) ≡ ok false
    pub iter_bytes : (s rest : Bytes) → bytes_iter (write_bytes s ++ rest) ≡ ok (s ∷ [], rest)
    pub iter_begin_bytes : (rest : Bytes) → bytes_iter (write_begin_bytes ++ rest) ≡ bytes_rest rest
    pub rest_bytes :
        (s rest : Bytes)
        → bytes_rest (write_bytes s ++ rest) ≡ (bytes_rest >>= λ chunks. pure (s ∷ chunks)) rest
    pub rest_end : (rest : Bytes) → bytes_rest (write_end ++ rest) ≡ ok ([], rest)
    pub iter_array :
        {A : Type 0} (d : Decoder A) (rest : Bytes)
        → array_iter d (write_array 0 ++ rest) ≡ ok ([], rest)
    pub iter_begin_array :
        {A : Type 0} (d : Decoder A) (rest : Bytes)
        → array_iter d (write_begin_array ++ rest) ≡ array_rest d rest
    pub rest_stop :
        {A : Type 0} (d : Decoder A) (rest : Bytes)
        → array_rest d (write_end ++ rest) ≡ ok ([], rest)
    pub rest_item :
        {A : Type 0} (d : Decoder A) (x : A) (b : ℕ) (item rest : Bytes)
        → at_break ((b ∷ item) ++ rest) ≡ ok false
        → d ((b ∷ item) ++ rest) ≡ ok (x, rest)
        → array_rest d ((b ∷ item) ++ rest) ≡ (array_rest d >>= λ xs. pure (x ∷ xs)) rest
