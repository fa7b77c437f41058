-- ===== src/Util/Powdos.antt =====
-- packages/util/powdos/src/lib.rs: a proof of work that a server asks of its clients. The hash, the HMAC and
-- the clock are parameters.
pub mod Bits
pub mod Solving
pub mod Binding
use konduit.Base.{
  ℕ, zero, suc, ◌+◌, ◌/◌, ◌%◌, min, Bool, Option, none, some, List, [], ◌∷◌, Bytes, bytes_eq, not,
  ltb, leb, ◌==◌, if◌then◌else◌, u64_mod, add64, Result, ok, err, panic, ◌>>=◌, ◌>>◌, refuse_if,
}

pub data PowScheme : Type 0 where
  sha256 : PowScheme

pub data Error : Type 0 where
  time : Error
  mac : Error
  hash : Error
  scheme : Error
  parse : Error

-- The trait `HashHmac`.
pub record HashHmac : Type 0 where
  pub hash : PowScheme → Bytes → ℕ → Result Error Bytes
  pub hmac : PowScheme → Bytes → Bytes → Result Error Bytes

pub record Challenge : Type 0 where
  pub scheme : PowScheme
  pub difficulty : ℕ
  pub expires_at : ℕ
  pub mac : Bytes

-- `scheme as u8`
abbrev scheme_byte : PowScheme → ℕ
scheme_byte sha256 = 0

-- `to_be_bytes`, in so many bytes before the rest
unfoldable pub be_bytes : ℕ → ℕ → Bytes → Bytes
be_bytes zero n rest = rest
be_bytes (suc k) n rest = be_bytes k (n / 256) (n % 256 ∷ rest)

abbrev pub mac_data : PowScheme → ℕ → ℕ → Bytes → Bytes
mac_data s difficulty expires_at client_ip =
    scheme_byte s ∷ difficulty ∷ be_bytes 8 expires_at client_ip

-- `u8::leading_zeros`
unfoldable pub leading_zeros : ℕ → ℕ
leading_zeros b =
    if leb 128 b
    then 0
    else (if leb 64 b
        then 1
        else (if leb 32 b
            then 2
            else (if leb 16 b
                then 3
                else (if leb 8 b
                    then 4
                    else (if leb 4 b
                        then 5
                        else (if leb 2 b then 6 else (if leb 1 b then 7 else 8)))))))

-- The loop of `leading_zero_bits`, whose count is a `u8`.
unfoldable pub leading_zero_bits_from : ℕ → Bytes → ℕ
leading_zero_bits_from count [] = count
leading_zero_bits_from count (b ∷ bs) =
    let rest = leading_zero_bits_from ((count + 8) % 256) bs in
    if b == 0 then rest else (count + leading_zeros b) % 256

abbrev pub leading_zero_bits : Bytes → ℕ
leading_zero_bits bytes = leading_zero_bits_from 0 bytes

abbrev pub challenge_of : PowScheme → ℕ → ℕ → Bytes → Challenge
challenge_of s difficulty expires_at code = record {
  scheme = s;
  difficulty = difficulty;
  expires_at = expires_at;
  mac = code;
}

module _ (C : HashHmac) where
  abbrev pub mac_of : PowScheme → Bytes → ℕ → ℕ → Bytes → Result Error Bytes
  mac_of s server_secret difficulty expires_at client_ip =
      C.hmac s server_secret (mac_data s difficulty expires_at client_ip)

  -- `Challenge::new`, at a time in milliseconds
  unfoldable pub new : PowScheme → ℕ → Bytes → Bytes → ℕ → ℕ → Result Error Challenge
  new s difficulty client_ip server_secret ttl now =
      let expires_at = min (now + ttl) 18446744073709551615 in
      do
        code ← mac_of s server_secret difficulty expires_at client_ip
        ok (challenge_of s difficulty expires_at code)

  unfoldable pub verify : Challenge → Bytes → Bytes → ℕ → ℕ → Result Error (Unit {0})
  verify c client_ip server_secret nonce now = do
    refuse_if (ltb c.expires_at now) time
    expected ← mac_of c.scheme server_secret c.difficulty c.expires_at client_ip
    refuse_if (not (bytes_eq c.mac expected)) mac
    h ← C.hash c.scheme c.mac nonce
    refuse_if (ltb (leading_zero_bits h) c.difficulty) hash
    ok tt

  abbrev tried :
      Challenge → ℕ → Option (Result Error ℕ) → Result Error Bytes → Option (Result Error ℕ)
  tried c nonce rest (ok h) =
      if leb c.difficulty (leading_zero_bits h) then some (ok nonce) else rest
  tried c nonce rest (err e) = some (err e)
  tried c nonce rest panic = some panic

  -- The loop of `Challenge::solve`, for so many rounds.
  unfoldable pub solve_from : ℕ → Challenge → ℕ → Option (Result Error ℕ)
  solve_from zero c nonce = none
  solve_from (suc fuel) c nonce =
      tried c nonce (solve_from fuel c (add64 nonce 1)) (C.hash c.scheme c.mac nonce)

  abbrev pub solve : ℕ → Challenge → Option (Result Error ℕ)
  solve fuel c = solve_from fuel c 0
