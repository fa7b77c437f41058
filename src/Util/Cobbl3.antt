-- ===== src/Util/Cobbl3.antt =====
-- packages/util/cobbl3/src/lib.rs: session tokens under a keyed hash. The body of a token, with its encoder and
-- the check of the client's signature, is a parameter, as are BLAKE3, base64 and the encoding of tokens.
pub mod Sessions
use konduit.Base.{
  ℕ, zero, suc, Bool, true, false, not, Option, none, some, [], ◌∷◌, Bytes, bytes_eq, Result, ok,
  err, panic, ◌>>=◌, ◌>>◌, refuse_if, ok_or, if◌then◌else◌,
}

pub data Error : Type 0 where
  client_signature : Error
  token : Error
  hmac_signature : Error

-- `Token`, with its `Mac`
pub record Token (B : Type 0) : Type 0 where
  pub body : B
  pub mac : Bytes

abbrev pub token_of : {B : Type 0} → B → Bytes → Token B
token_of b code = record { body = b; mac = code }

-- The traits `Encode` and `Verify` of a body, and the calls of other packages.
pub record Session (B : Type 0) : Type 0 where
  pub encode : B → Bytes
  pub verify : B → Bytes → Bool
  pub keyed_hash : Bytes → Bytes → Bytes
  pub encode_token : Token B → Bytes
  pub decode_token : Bytes → Option (Token B)
  pub encode_base64 : Bytes → Bytes
  pub decode_base64 : Bytes → Option Bytes

-- `copy_from_slice(&bytes[..n])`, which panics where there are fewer
unfoldable pub first_bytes : {E : Type 0} → ℕ → Bytes → Result E Bytes
first_bytes zero xs = ok []
first_bytes (suc n) [] = panic
first_bytes (suc n) (x ∷ xs) = first_bytes n xs >>= λ ys. ok (x ∷ ys)

module _ {B : Type 0} (S : Session B) where
  -- `HmacKey::sign`, for codes of so many bytes
  unfoldable pub sign : ℕ → Bytes → B → Result Error Bytes
  sign n key body = first_bytes n (S.keyed_hash key (S.encode body))

  -- `HmacKey::issue`
  unfoldable pub issue : ℕ → Bytes → B → Bytes → Result Error Bytes
  issue n key body signature = do
    refuse_if (not (S.verify body signature)) client_signature
    sign n key body

  -- `HmacKey::verify`
  unfoldable pub verify : ℕ → Bytes → Token B → Result Error (Unit {0})
  verify n key t = do
    expected ← sign n key t.body
    refuse_if (not (bytes_eq expected t.mac)) hmac_signature
    ok tt

  -- `Display for Token`
  abbrev pub to_string : Token B → Bytes
  to_string t = S.encode_base64 (S.encode_token t)

  -- `FromStr for Token`
  unfoldable pub from_str : Bytes → Result Error (Token B)
  from_str s = do bytes ← ok_or (S.decode_base64 s) token; ok_or (S.decode_token bytes) token
