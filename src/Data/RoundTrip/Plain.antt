-- ===== src/Data/RoundTrip/Plain.antt =====
-- A small format with the behaviour that minicbor documents: each item is a number for its kind, then
-- its value. It shows that the hypotheses of the round trips can hold, and it can be run.
use konduit.Base.{
  ℕ, zero, suc, ◌<◌, ◌&&◌, Option, ◌≡◌, refl, ap, inl, inr, Bool-cases, ltb→lt, Bool, true, false,
  none, some, List, [], ◌∷◌, ◌++◌, Bytes, Result, ok, err, panic, length, length-append, ltb, leb,
  ◌==◌, if◌then◌else◌, arith,
}
use konduit.Data.Primitives.{Primitives}
use konduit.Data.Wire.{take, drop}
use konduit.Data.Cbor.{Decoder, DecodeError, reader, Reader, IsCbor, ◌>>=◌, pure}

abbrev pub writer : Primitives
writer = record {
  sha256 = λ b. b;
  verify = λ m k s. true;
  write_tag = λ n. 6 ∷ n ∷ [];
  write_u64 = λ n. 0 ∷ n ∷ [];
  write_bytes = λ s. 2 ∷ length s ∷ s;
  write_array = λ n. 4 ∷ n ∷ [];
  write_begin_array = 5 ∷ [];
  write_end = 255 ∷ [];
  write_begin_bytes = 3 ∷ [];
}

abbrev one_number : ℕ → Decoder ℕ
one_number kind (k ∷ n ∷ rest) = if k == kind then ok (n, rest) else err reader
one_number kind _ = err reader

abbrev plain_bytes : Decoder Bytes
plain_bytes (k ∷ n ∷ rest) =
    if (k == 2) && leb n (length rest) then ok (take n rest, drop n rest) else err reader
plain_bytes _ = err reader

abbrev plain_array : Decoder (Option ℕ)
plain_array [] = err reader
plain_array (k ∷ rest) = if k == 5 then ok (none, rest) else definite k rest
  where
    definite : ℕ → Decoder (Option ℕ)
    definite k [] = err reader
    definite k (n ∷ rest) = if k == 4 then ok (some n, rest) else err reader

abbrev plain_skip : Decoder (Unit {0})
plain_skip [] = err reader
plain_skip (k ∷ rest) = if k == 255 then ok (tt, rest) else err reader

abbrev plain_break : Bytes → Result DecodeError Bool
plain_break [] = err reader
plain_break (k ∷ rest) = ok (k == 255)

-- An item must be shorter than the bytes that it is read from.
abbrev next_item : {A : Type 0} → Decoder A → Decoder (List A) → Decoder (List A)
next_item d more bs = elim (d bs) [
  | ok (x, rest) ↦
      if ltb (length rest) (length bs) then (more >>= λ xs. pure (x ∷ xs)) rest else err reader
  | err e ↦ err e
  | panic ↦ panic
]

next_item-agrees :
    {A : Type 0} (d : Decoder A) (more more' : Decoder (List A)) (bs : Bytes)
    → ((rest : Bytes) → length rest < length bs → more rest ≡ more' rest)
    → next_item d more bs ≡ next_item d more' bs
next_item-agrees {A} d more more' bs same = at (d bs) refl
  where
    at :
        (first : Result DecodeError (A × Bytes))
        → d bs ≡ first
        → next_item d more bs ≡ next_item d more' bs
    at (ok (x, rest)) e = elim (Bool-cases (ltb (length rest) (length bs))) [
      | inl short ↦ simp (next_item, ◌>>=◌, e, short, same rest (omega (arith, ltb→lt _ _ short)))
      | inr long ↦ simp (next_item, e, long)
    ]
    at (err x) e = simp (next_item, e)
    at panic e = simp (next_item, e)

-- The loop over the items. Each takes at least one number, so that their count is enough fuel.
unfoldable pub items : {A : Type 0} → ℕ → Decoder A → Decoder (List A)
items zero d bs = err reader
items (suc n) d [] = err reader
items (suc n) d (k ∷ bs) =
    let more = next_item d (items n d) (k ∷ bs) in if k == 255 then ok ([], bs) else more

items-fuel :
    {A : Type 0} (d : Decoder A) (n m : ℕ) (bs : Bytes)
    → length bs < n
    → length bs < m
    → items n d bs ≡ items m d bs
unfolding items
items-fuel d zero m bs h k = absurd (omega arith)
items-fuel d (suc n) zero bs h k = absurd (omega arith)
items-fuel d (suc n) (suc m) [] h k = refl
items-fuel d (suc n) (suc m) (b ∷ bs) h k =
    let more =
      next_item-agrees d (items n d) (items m d) (b ∷ bs)
        (λ rest short. items-fuel d n m rest (omega arith) (omega arith)) in
    rw more

abbrev plain_rest : {A : Type 0} → Decoder A → Decoder (List A)
plain_rest d bs = items (suc (length bs)) d bs

abbrev plain_iter : {A : Type 0} → Decoder A → Decoder (List A)
plain_iter d bs = elim (plain_array bs) [
  | ok (none, rest) ↦ plain_rest d rest
  | ok (some zero, rest) ↦ ok ([], rest)
  | _ ↦ err reader
]

-- A string is one item, or the items up to the end.
abbrev plain_strings : Decoder (List Bytes)
plain_strings [] = err reader
plain_strings (k ∷ rest) =
    if k == 3 then plain_rest plain_bytes rest else (plain_bytes >>= λ s. pure (s ∷ [])) (k ∷ rest)

abbrev pub parser : Reader
parser = record {
  read_tag = one_number 6;
  read_array = plain_array;
  read_u64 = one_number 0;
  read_bytes = plain_bytes;
  skip = plain_skip;
  at_break = plain_break;
  bytes_iter = plain_strings;
  bytes_rest = plain_rest plain_bytes;
  array_iter = λ d. plain_iter d;
  array_rest = λ d. plain_rest d;
}

take-append : (s rest : Bytes) → take (length s) (s ++ rest) ≡ s
take-append [] rest = refl
take-append (b ∷ s) rest = ap (λ t. b ∷ t) (take-append s rest)

drop-append : (s rest : Bytes) → drop (length s) (s ++ rest) ≡ rest
drop-append [] rest = refl
drop-append (b ∷ s) rest = drop-append s rest

leb-append : (s rest : Bytes) → leb (length s) (length (s ++ rest)) ≡ true
leb-append s rest = ground (arith, length-append s rest)

bytes_plain : (s rest : Bytes) → plain_bytes (2 ∷ length s ∷ (s ++ rest)) ≡ ok (s, rest)
bytes_plain s rest = simp (leb-append s rest, take-append s rest, drop-append s rest)

rest_item_plain :
    {A : Type 0} (d : Decoder A) (x : A) (b : ℕ) (item rest : Bytes)
    → plain_break ((b ∷ item) ++ rest) ≡ ok false
    → d ((b ∷ item) ++ rest) ≡ ok (x, rest)
    → plain_rest d ((b ∷ item) ++ rest) ≡ (plain_rest d >>= λ xs. pure (x ∷ xs)) rest
unfolding items
rest_item_plain d x b item rest starts reads =
    let not_end : (b == 255) ≡ false = cc starts in
    let short : ltb (length rest) (length ((b ∷ item) ++ rest)) ≡ true =
      ground (arith, length-append item rest) in
    let fuel =
      items-fuel d (length ((b ∷ item) ++ rest)) (suc (length rest)) rest
        (omega (arith, length-append item rest)) (omega arith) in
    rw not_end (simp (next_item, ◌>>=◌, reads, short, fuel))

rest_end_plain :
    {A : Type 0} (d : Decoder A) (rest : Bytes) → plain_rest d (255 ∷ rest) ≡ ok ([], rest)
unfolding items
rest_end_plain d rest = refl

iter_bytes_plain : (s rest : Bytes) → plain_strings (2 ∷ length s ∷ (s ++ rest)) ≡ ok (s ∷ [], rest)
iter_bytes_plain s rest = simp (◌>>=◌, bytes_plain s rest)

pub plain-IsCbor : IsCbor writer parser
plain-IsCbor = record {
  tag = λ n rest h. refl;
  u64 = λ n rest h. refl;
  bytes = bytes_plain;
  array = λ rest. refl;
  begin_array = λ rest. refl;
  array_u64 = λ n rest. refl;
  end = λ rest. refl;
  break_end = λ rest. refl;
  break_tag = λ n rest. refl;
  break_u64 = λ n rest. refl;
  break_bytes = λ s rest. refl;
  break_begin_array = λ rest. refl;
  iter_bytes = iter_bytes_plain;
  iter_begin_bytes = λ rest. refl;
  rest_bytes =
      λ s rest. rest_item_plain plain_bytes s 2 (length s ∷ s) rest refl (bytes_plain s rest);
  rest_end = rest_end_plain plain_bytes;
  iter_array = λ d rest. refl;
  iter_begin_array = λ d rest. refl;
  rest_stop = rest_end_plain;
  rest_item = rest_item_plain;
}
