-- ===== src/Data/Decode/Validity.antt =====
-- What decoding checks of a squash, whatever the bytes and whoever wrote them:
-- packages/konduit/data/src/{indexes,squash_body,squash}.rs.
use konduit.Base.{
  ℕ, ◌≡◌, ◌≤◌, refl, List, Bytes, Result, ok, err, panic, length, ◌==◌, ==→eq, Bool-cases, inl, inr,
  subst, sym,
}
use konduit.Base.Lists
use konduit.Base.Ascending.{IsAscending}
use konduit.Data.Cbor.{Decoder, Reader, ◌>>=◌, >>=-eq-ok}
use konduit.Data.Indexes
use konduit.Data.Indexes.{Indexes, IndexesError, max_exclude_length}
use konduit.Data.SquashBody
use konduit.Data.SquashBody.{SquashBody, SquashBodyError, IsValid}
use konduit.Data.SquashBody.Creation.{new-eq-ok, new-IsValid}
use konduit.Data.Signed.{Squash}
use konduit.Data.Decode.{
  checked_indexes, checked_squash, exactly, decode_exactly, decode_bytes, finish,
}
use konduit.Data.Decode.Redeemer.{decode_indexes, decode_squash_body, decode_squash}
use konduit.Data.Fits.{HasLength}

-- Whatever the decoder gives has the property.
record Gives {A : Type 0} (P : A → Type 0) (d : Decoder A) : Type 0 where
  given : (bs rest : Bytes) (x : A) → d bs ≡ ok (x, rest) → P x

abbrev FewAscending : Indexes → Type 0
FewAscending xs = IsAscending xs × (Lists.length xs ≤ max_exclude_length)

chain-Gives :
    {A B : Type 0} (P : B → Type 0) (Q : A → Type 0) (d : Decoder A) (k : A → Decoder B)
    → Gives Q d
    → ((x : A) → Q x → Gives P (k x))
    → Gives P (d >>= k)
chain-Gives P Q d k first next = record {
  given = λ bs rest y h.
      let (x, mid, read, h') = >>=-eq-ok d k bs h in
      (next x (first.given bs mid x read)).given mid rest y h';
}

skip-Gives :
    {A B : Type 0} (P : B → Type 0) (d : Decoder A) (k : A → Decoder B)
    → ((x : A) → Gives P (k x))
    → Gives P (d >>= k)
skip-Gives P d k next =
    chain-Gives P (λ x. Unit {0}) d k (record { given = λ bs rest x h. tt }) (λ x t. next x)

checked_indexes-Gives : (items : List ℕ) → Gives FewAscending (checked_indexes items)
checked_indexes-Gives items = record {
  given = λ bs rest xs h. at bs rest xs h (Indexes.new items) refl;
}
  where
    at :
        (bs rest : Bytes) (xs : Indexes)
        → checked_indexes items bs ≡ ok (xs, rest)
        → (made : Result IndexesError Indexes) → Indexes.new items ≡ made
        → FewAscending xs
    at bs rest xs h (ok ys) e =
        let (taken, up, few) = new-eq-ok items ys e in
        let same : items ≡ xs = cc (taken, rw (checked_indexes, e) at h) in
        subst FewAscending same (up, few)
    at bs rest xs h (err x) e = cc (rw (checked_indexes, e) at h)
    at bs rest xs h panic e = cc (rw (checked_indexes, e) at h)

checked_squash-Gives :
    (amount index : ℕ) (excludes : Indexes)
    → FewAscending excludes
    → Gives IsValid (checked_squash amount index excludes)
checked_squash-Gives amount index excludes (up, few) = record {
  given = λ bs rest b h. at bs rest b h (SquashBody.new amount index excludes) refl;
}
  where
    at :
        (bs rest : Bytes) (b : SquashBody)
        → checked_squash amount index excludes bs ≡ ok (b, rest)
        → (made : Result SquashBodyError SquashBody) → SquashBody.new amount index excludes ≡ made
        → IsValid b
    at bs rest b h (ok c) e =
        let same : c ≡ b = cc (rw (checked_squash, e) at h) in
        subst IsValid same (new-IsValid amount index excludes up few e)
    at bs rest b h (err x) e = cc (rw (checked_squash, e) at h)
    at bs rest b h panic e = cc (rw (checked_squash, e) at h)

exactly-Gives : (n : ℕ) (raw : Bytes) → Gives (HasLength n) (exactly n raw)
exactly-Gives n raw = record {
  given = λ bs rest s h. elim (Bool-cases (length raw == n)) [
    | inl e ↦
        let same : raw ≡ s = cc (rw (exactly, e) at h) in subst (HasLength n) same (==→eq _ _ e)
    | inr e ↦ cc (rw (exactly, e) at h)
  ];
}

module _ (r : Reader) where
  decode_exactly-Gives : (n : ℕ) → Gives (HasLength n) (decode_exactly r n)
  unfolding decode_exactly
  decode_exactly-Gives n = skip-Gives (HasLength n) (decode_bytes r) _ λ raw. exactly-Gives n raw

  decode_indexes-Gives : Gives FewAscending (decode_indexes r)
  unfolding decode_indexes
  decode_indexes-Gives =
      skip-Gives FewAscending (r.array_iter r.read_u64) _ λ items. checked_indexes-Gives items

  decode_squash_body-Gives : Gives IsValid (decode_squash_body r)
  unfolding decode_squash_body
  decode_squash_body-Gives = skip-Gives IsValid r.read_array _ λ _.
      skip-Gives IsValid r.read_u64 _ λ amount. skip-Gives IsValid r.read_u64 _ λ index.
        chain-Gives IsValid FewAscending (decode_indexes r) _ decode_indexes-Gives λ excludes good.
          skip-Gives IsValid (finish r) _ λ _. checked_squash-Gives amount index excludes good

  abbrev Sound : Squash → Type 0
  Sound s = IsValid s.body × HasLength 64 s.signature

  decode_squash-Gives : Gives Sound (decode_squash r)
  unfolding decode_squash
  decode_squash-Gives = skip-Gives Sound r.read_array _ λ _.
      chain-Gives Sound IsValid (decode_squash_body r) _ decode_squash_body-Gives λ body valid.
        chain-Gives Sound (HasLength 64) (decode_exactly r 64) _ (decode_exactly-Gives 64)
          λ signature long. skip-Gives Sound (finish r) _ λ _. record {
            given = λ bs rest s h.
                let made : s ≡ record { body = body; signature = signature } = cc h in
                subst Sound (sym made) (valid, long);
          }

  -- A squash that is decoded has at most ten excluded indexes, increasing and below its own index,
  -- and a signature of 64 bytes, whatever the bytes and the reader.
  pub decode_squash-IsValid :
      (bs rest : Bytes) (s : Squash)
      → decode_squash r bs ≡ ok (s, rest)
      → IsValid s.body × HasLength 64 s.signature
  decode_squash-IsValid = decode_squash-Gives.given
