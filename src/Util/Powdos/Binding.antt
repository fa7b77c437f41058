-- ===== src/Util/Powdos/Binding.antt =====
-- packages/util/powdos/src/lib.rs, `verify`: what a challenge that is accepted was issued for.
use konduit.Base.{
  ℕ, zero, suc, ◌+◌, ◌*◌, ◌/◌, ◌%◌, ◌≤◌, ◌<◌, ◌≡◌, refl, sym, ◌∙◌, ap, ◌↔◌, ◌≢◌, ◌⊎◌, subst,
  refuse_if, not, ◌∷◌, Bytes, bytes_eq, bytes_eq→eq, bytes_eq-distinct, ltb, min, u64_mod, ok,
  >>=-eq-ok, refuse_if-eq-ok, arith, Bool-cases, inl, inr,
}
use konduit.Util.Powdos.{
  time, mac, hash, challenge_of, PowScheme, sha256, HashHmac, Challenge, be_bytes, mac_data,
  leading_zero_bits, mac_of, new, verify,
}
use konduit.Util.Powdos.Solving.{Solves, verify-Solves}

-- How many numbers so many bytes can hold.
abbrev room : ℕ → ℕ
room zero = 1
room (suc k) = 256 * room k

be_bytes-injective :
    (k a b : ℕ) (xs ys : Bytes)
    → a < room k
    → b < room k
    → be_bytes k a xs ≡ be_bytes k b ys
    → (a ≡ b) × (xs ≡ ys)
unfolding be_bytes
be_bytes-injective zero a b xs ys h j e = (omega arith, e)
be_bytes-injective (suc k) a b xs ys h j e =
    let (high, rest) =
      be_bytes-injective k (a / 256) (b / 256) (a % 256 ∷ xs) (b % 256 ∷ ys) (omega arith)
        (omega arith) e in
    let low : a % 256 ≡ b % 256 = cc in (omega (arith, high, low), cc)

PowScheme-one : (s t : PowScheme) → s ≡ t
PowScheme-one sha256 sha256 = refl

mac_data-injective :
    (s t : PowScheme) (a x b y : ℕ) (ip other : Bytes)
    → x < u64_mod
    → y < u64_mod
    → mac_data s a x ip ≡ mac_data t b y other
    → (a ≡ b) × (x ≡ y) × (ip ≡ other)
mac_data-injective s t a x b y ip other h k e =
    let rest : be_bytes 8 x ip ≡ be_bytes 8 y other = cc in
    let (times, ips) = be_bytes-injective 8 x y ip other h k rest in (cc, times, ips)

-- Two inputs of the HMAC that it does not tell apart.
abbrev pub Collision : HashHmac → PowScheme → Bytes → Type 0
Collision C s server_secret =
    (d : Bytes) × (e : Bytes) × (d ≢ e) × (C.hmac s server_secret d ≡ C.hmac s server_secret e)

module _ (C : HashHmac) (c : Challenge) (client_ip server_secret : Bytes) (n now : ℕ) where
  verify-Accepts :
      verify C c client_ip server_secret n now ≡ ok tt
      → (now ≤ c.expires_at)
        × (mac_of C c.scheme server_secret c.difficulty c.expires_at client_ip ≡ ok c.mac)
        × Solves C c n
  unfolding verify
  verify-Accepts h =
      let (_, e₁, f₁) = >>=-eq-ok (refuse_if (ltb c.expires_at now) time) _ h in
      let early = refuse_if-eq-ok (ltb c.expires_at now) time e₁ in
      let (expected, e₂, f₂) =
        >>=-eq-ok (mac_of C c.scheme server_secret c.difficulty c.expires_at client_ip) _ f₁ in
      let (_, e₃, f₃) = >>=-eq-ok (refuse_if (not (bytes_eq c.mac expected)) mac) _ f₂ in
      let differs = refuse_if-eq-ok (not (bytes_eq c.mac expected)) mac e₃ in
      let same = bytes_eq→eq c.mac expected (ground (arith, differs)) in
      let (h', e₄, f₄) = >>=-eq-ok (C.hash c.scheme c.mac n) _ f₃ in
      let (_, e₅, _) = >>=-eq-ok (refuse_if (ltb (leading_zero_bits h') c.difficulty) hash) _ f₄ in
      let enough = refuse_if-eq-ok (ltb (leading_zero_bits h') c.difficulty) hash e₅ in
      (ground (arith, early), e₂ ∙ ap (λ b. ok b) (sym same), (h', e₄, ground (arith, enough)))

  -- The server accepts a nonce exactly if the challenge has not expired, its code is that of its fields and
  -- of the address of the client, and the nonce solves the puzzle.
  verify_lem : (verify C c client_ip server_secret n now ≡ ok tt) ↔ (
      (now ≤ c.expires_at)
      × (mac_of C c.scheme server_secret c.difficulty c.expires_at client_ip ≡ ok c.mac)
      × Solves C c n)
  verify_lem = (
    verify-Accepts,
    λ (in_time, signed, solves).
        verify-Solves C c client_ip server_secret n now signed in_time solves,
  )

-- A challenge that carries the code of one that was issued, and that the server accepts, is the one that
-- was issued, from the address it was issued for, unless the HMAC collides. For a
-- challenge whose time fits in 64 bits.
pub verify-bound :
    (C : HashHmac) (s : PowScheme) (difficulty : ℕ) (client_ip other_ip server_secret : Bytes)
    (ttl issued_at now n : ℕ) (c d : Challenge)
    → d.expires_at < u64_mod
    → new C s difficulty client_ip server_secret ttl issued_at ≡ ok c
    → d.mac ≡ c.mac
    → verify C d other_ip server_secret n now ≡ ok tt
    → ((d ≡ c) × (other_ip ≡ client_ip)) ⊎ Collision C s server_secret
unfolding new
verify-bound C s difficulty client_ip other_ip server_secret ttl issued_at now n c d fits issued
      same_mac accepted =
    let expires_at = min (issued_at + ttl) 18446744073709551615 in
    let (code, signed, same) =
      >>=-eq-ok (mac_of C s server_secret difficulty expires_at client_ip)
        (λ code. ok (challenge_of s difficulty expires_at code)) issued in
    let whole : challenge_of s difficulty expires_at code ≡ c = cc in
    let (_, again, _) = verify-Accepts C d other_ip server_secret n now accepted in
    let here = mac_data s difficulty expires_at client_ip in
    let there = mac_data d.scheme d.difficulty d.expires_at other_ip in
    let one : s ≡ d.scheme = PowScheme-one s d.scheme in
    let equal_codes : C.hmac s server_secret here ≡ C.hmac s server_secret there =
      subst (λ t. C.hmac s server_secret here ≡ C.hmac t server_secret there) (sym one) cc in
    elim (Bool-cases (bytes_eq here there)) [
      | inl e ↦
          let (difficulties, times, ips) =
            mac_data-injective s d.scheme difficulty expires_at d.difficulty d.expires_at client_ip
              other_ip (omega arith) fits (bytes_eq→eq here there e) in
          inl (cc, cc)
      | inr e ↦ inr (here, there, bytes_eq-distinct here there e, equal_codes)
    ]
