-- ===== src/Util/Powdos/Solving.antt =====
-- packages/util/powdos/src/lib.rs, `solve` and `verify`: what is solved, and that it is verified.
use konduit.Base.{
  ℕ, zero, suc, ◌+◌, ◌≤◌, ◌<◌, ◌≡◌, refl, ◌∙◌, true, some, Bytes, bytes_eq_self, leb, le→ltb,
  gt→leb, subst, min, u64_mod, add64, add64-eq, ok, >>=-eq-ok, arith,
}
use konduit.Util.Powdos.{
  PowScheme, HashHmac, Challenge, leading_zero_bits, mac_of, new, verify, solve_from, solve,
  challenge_of,
}

module _ (C : HashHmac) (c : Challenge) where
  -- A nonce that solves the puzzle, and one that is tried in vain.
  abbrev pub Solves : ℕ → Type 0
  Solves nonce =
      (h : Bytes) × (C.hash c.scheme c.mac nonce ≡ ok h) × (c.difficulty ≤ leading_zero_bits h)

  abbrev pub Misses : ℕ → Type 0
  Misses nonce =
      (h : Bytes) × (C.hash c.scheme c.mac nonce ≡ ok h) × (leading_zero_bits h < c.difficulty)

  solve_from-here :
      (fuel nonce : ℕ) → Solves nonce → solve_from C (suc fuel) c nonce ≡ some (ok nonce)
  unfolding solve_from
  solve_from-here fuel nonce (h, made, enough) =
      let passes : leb c.difficulty (leading_zero_bits h) ≡ true = ground arith in
      rw (made, passes) refl

  solve_from-next :
      (fuel nonce : ℕ)
      → Misses nonce
      → solve_from C (suc fuel) c nonce ≡ solve_from C fuel c (add64 nonce 1)
  unfolding solve_from
  solve_from-next fuel nonce (h, made, less) =
      rw (made, gt→leb c.difficulty (leading_zero_bits h) less) refl

  solve_from-least :
      (k nonce n : ℕ)
      → nonce + k ≡ n
      → n < u64_mod
      → Solves n
      → ((m : ℕ) → nonce ≤ m → m < n → Misses m)
      → solve_from C (suc k) c nonce ≡ some (ok n)
  solve_from-least zero nonce n e fits solves misses =
      let same : nonce ≡ n = omega arith in rw same (solve_from-here 0 n solves)
  solve_from-least (suc k) nonce n e fits solves misses =
      let step = add64-eq nonce 1 (omega arith) in
      solve_from-next (suc k) nonce (misses nonce (omega arith) (omega arith))
      ∙ solve_from-least k (add64 nonce 1) n (omega (arith, step)) fits solves
          (λ m low high. misses m (omega (arith, step)) high)

  solve-least :
      (n : ℕ)
      → n < u64_mod
      → Solves n
      → ((m : ℕ) → m < n → Misses m)
      → solve C (suc n) c ≡ some (ok n)
  solve-least n fits solves misses =
      solve_from-least n 0 n (omega arith) fits solves (λ m low high. misses m high)

pub verify-Solves :
    (C : HashHmac) (c : Challenge) (client_ip server_secret : Bytes) (n now : ℕ)
    → mac_of C c.scheme server_secret c.difficulty c.expires_at client_ip ≡ ok c.mac
    → now ≤ c.expires_at
    → Solves C c n
    → verify C c client_ip server_secret n now ≡ ok tt
unfolding verify
verify-Solves C c client_ip server_secret n now signed in_time (h, made, enough) =
    rw
      (
        le→ltb c.expires_at now in_time,
        signed,
        bytes_eq_self c.mac,
        made,
        le→ltb (leading_zero_bits h) c.difficulty enough,
      )
      refl

-- The least nonce that solves a challenge that was issued is found in one round for it and for each before
-- it, and the server verifies it, for the address of the client and until the time to live is over. For
-- nonces and times of 64 bits, where the nonces before it hash without an error.
pub solve-verify :
    (C : HashHmac) (s : PowScheme) (difficulty : ℕ) (client_ip server_secret : Bytes)
    (ttl issued_at now n : ℕ) (c : Challenge)
    → new C s difficulty client_ip server_secret ttl issued_at ≡ ok c
    → n < u64_mod
    → Solves C c n
    → ((m : ℕ) → m < n → Misses C c m)
    → now ≤ issued_at + ttl
    → now < u64_mod
    → (solve C (suc n) c ≡ some (ok n)) × (verify C c client_ip server_secret n now ≡ ok tt)
unfolding new
solve-verify C s difficulty client_ip server_secret ttl issued_at now n c issued fits solves misses
      in_time clock =
    let expires_at = min (issued_at + ttl) 18446744073709551615 in
    let (code, signed, same) =
      >>=-eq-ok (mac_of C s server_secret difficulty expires_at client_ip)
        (λ code. ok (challenge_of s difficulty expires_at code)) issued in
    let whole : challenge_of s difficulty expires_at code ≡ c = cc in
    (
      solve-least C c n fits solves misses,
      subst (λ d. Solves C d n → verify C d client_ip server_secret n now ≡ ok tt) whole
          (verify-Solves C (challenge_of s difficulty expires_at code) client_ip server_secret n now
            signed (omega arith))
          solves,
    )
