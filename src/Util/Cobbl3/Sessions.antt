-- ===== src/Util/Cobbl3/Sessions.antt =====
-- packages/util/cobbl3/src/lib.rs: what becomes of a token on its way from the server to the client and back.
use konduit.Base.{
  ℕ, zero, suc, ◌≤◌, ◌≡◌, ◌≢◌, ◌⊎◌, inl, inr, refl, sym, ◌∙◌, ap, true, not, some, [], ◌∷◌, length,
  Bytes, bytes_eq, bytes_eq_self, bytes_eq→eq, bytes_eq-distinct, ok, ◌>>=◌, >>=-eq-ok, refuse_if,
  refuse_if-eq-ok, arith, Bool-cases,
}
use konduit.Util.Cobbl3.{
  Error, client_signature, hmac_signature, Token, token_of, Session, first_bytes, sign, issue,
  verify, to_string, from_str,
}

-- The first bytes are there where there are enough.
first_bytes-total :
    (n : ℕ) (xs : Bytes)
    → n ≤ length xs
    → (ys : Bytes) × (first_bytes {E = Error} n xs ≡ ok ys) × (length ys ≡ n)
unfolding first_bytes
first_bytes-total zero xs h = ([], refl, refl)
first_bytes-total (suc n) [] h = absurd (omega arith)
first_bytes-total (suc n) (x ∷ xs) h =
    let (ys, made, long) = first_bytes-total n xs (omega arith) in
    (x ∷ ys, rw made refl, omega (arith, long))

-- The first of a list, as many as there are.
abbrev pub take : ℕ → Bytes → Bytes
take zero xs = []
take (suc n) [] = []
take (suc n) (x ∷ xs) = x ∷ take n xs

first_bytes-take :
    (n : ℕ) (xs : Bytes) {ys : Bytes}
    → first_bytes {E = Error} n xs ≡ ok ys
    → (ys ≡ take n xs) × (length ys ≡ n)
unfolding first_bytes
first_bytes-take zero xs h = let is : [] ≡ _ = cc h in (sym is, ap length (sym is))
first_bytes-take (suc n) [] h = absurd (cc h)
first_bytes-take (suc n) (x ∷ xs) h =
    let (zs, made, more) = >>=-eq-ok (first_bytes {E = Error} n xs) (λ zs. ok (x ∷ zs)) h in
    let (same, long) = first_bytes-take n xs made in
    let is : x ∷ zs ≡ _ = cc more in
    (sym is ∙ ap (λ l. x ∷ l) same, ap length (sym is) ∙ ap suc long)

-- Two bodies of different encodings whose keyed hashes agree in the bytes of a code.
abbrev pub Collision : {B : Type 0} → Session B → ℕ → Bytes → B → B → Type 0
Collision S n key b b' =
    (S.encode b ≢ S.encode b')
    × (take n (S.keyed_hash key (S.encode b)) ≡ take n (S.keyed_hash key (S.encode b')))

module _ {B : Type 0} (S : Session B) (n : ℕ) (key : Bytes) where
  -- Where base64 and the encoding of tokens read back what they write, and the hash has 32 bytes: a body with
  -- a good signature is issued a code of the length that is asked for, if that is at most 32, and
  -- the token with that code is accepted when it comes back as a string.
  pub issue-accepted :
      (body : B) (signature : Bytes)
      → ((bytes : Bytes) → S.decode_base64 (S.encode_base64 bytes) ≡ some bytes)
      → ((t : Token B) → S.decode_token (S.encode_token t) ≡ some t)
      → ((k d : Bytes) → length (S.keyed_hash k d) ≡ 32)
      → n ≤ 32
      → S.verify body signature ≡ true
      → (code : Bytes) × (issue S n key body signature ≡ ok code)
        × (length code ≡ n)
        × ((from_str S (to_string S (token_of body code)) >>= verify S n key) ≡ ok tt)
  unfolding issue sign verify from_str
  issue-accepted body signature base64 tokens hashes short good =
      let hash = S.keyed_hash key (S.encode body) in
      let (code, made, long) =
        first_bytes-total n hash (omega (arith, hashes key (S.encode body))) in
      (
        code,
        rw (good, made) refl,
        long,
        rw
            (
              base64 (S.encode_token (token_of body code)),
              tokens (token_of body code),
              made,
              bytes_eq_self code,
            )
            refl,
      )

  verify-sign : (t : Token B) → verify S n key t ≡ ok tt → sign S n key t.body ≡ ok t.mac
  unfolding verify
  verify-sign t h =
      let (expected, e₁, f₁) = >>=-eq-ok (sign S n key t.body) _ h in
      let (_, e₂, _) = >>=-eq-ok (refuse_if (not (bytes_eq expected t.mac)) hmac_signature) _ f₁ in
      let differs = refuse_if-eq-ok (not (bytes_eq expected t.mac)) hmac_signature e₂ in
      let same = bytes_eq→eq expected t.mac (ground (arith, differs)) in e₁ ∙ ap (λ b. ok b) same

  signed-take :
      (body : B) {code : Bytes}
      → sign S n key body ≡ ok code
      → (code ≡ take n (S.keyed_hash key (S.encode body))) × (length code ≡ n)
  unfolding sign
  signed-take body h = first_bytes-take n (S.keyed_hash key (S.encode body)) h

  -- A code that is issued for a body has the length that is asked for and is the start of the keyed hash of
  -- what the body is encoded as, and the client of the body has signed. A token that is accepted with that
  -- code is encoded as the body is, unless the keyed hashes of the two encodings, which then differ, start
  -- with the same bytes.
  pub issue-bound :
      (body : B) (signature : Bytes) (t : Token B)
      → issue S n key body signature ≡ ok t.mac
      → verify S n key t ≡ ok tt
      → (S.verify body signature ≡ true)
        × (length t.mac ≡ n)
        × (t.mac ≡ take n (S.keyed_hash key (S.encode body)))
        × ((S.encode t.body ≡ S.encode body) ⊎ Collision S n key t.body body)
  unfolding issue
  issue-bound body signature t issued accepted =
      let (_, e₁, signed) =
        >>=-eq-ok (refuse_if (not (S.verify body signature)) client_signature) _ issued in
      let refused = refuse_if-eq-ok (not (S.verify body signature)) client_signature e₁ in
      let (code, long) = signed-take body signed in
      let (again, _) = signed-take t.body (verify-sign t accepted) in
      (
        ground (arith, refused),
        long,
        code,
        elim (Bool-cases (bytes_eq (S.encode t.body) (S.encode body))) [
          | inl e ↦ inl (bytes_eq→eq (S.encode t.body) (S.encode body) e)
          | inr e ↦ inr (bytes_eq-distinct (S.encode t.body) (S.encode body) e, sym again ∙ code)
        ],
      )
