-- ===== src/Data/Signed.antt =====
-- Signatures: `Squash` of packages/konduit/data/src/squash.rs, and `try_verify` of locked.rs,
-- unlocked.rs, cheque.rs and squash.rs. A signature is checked with the channel's key, over the
-- tagged body; an unlocked cheque by the body in which the secret is replaced by its lock.
use konduit.Base.{
  ℕ, ◌≡◌, Bool, true, Bytes, none, some, Result, ok, err, ◌>>=◌, if◌then◌else◌, arith,
}
use konduit.Data.Primitives.{Primitives}
use konduit.Data.Cheque.{
  ChequeBody, Lock, Secret, Locked, Unlocked, Cheque, unlocked, locked, locked_body,
  try_from_locked, lock_eq, lock_of,
}
use konduit.Data.SquashBody
use konduit.Data.SquashBody.{SquashBody}
use konduit.Data.Wire.{encode_cheque_body, encode_squash_body, tag_data}

pub record Squash : Type 0 where
  pub body : SquashBody
  pub signature : Bytes

abbrev pub is_index_squashed : Squash → ℕ → Bool
is_index_squashed s i = SquashBody.is_index_squashed s.body i

pub data VerifyError : Type 0 where
  invalid_signature : VerifyError

module _ (p : Primitives) (key tag : Bytes) where
  open p use {verify}

  unfoldable pub cheque_verifies : ChequeBody Lock → Bytes → Bool
  cheque_verifies b signature = verify (tag_data p tag (encode_cheque_body p b)) key signature

  unfoldable pub squash_verifies : Squash → Bool
  squash_verifies s = verify (tag_data p tag (encode_squash_body p s.body)) key s.signature

  -- `Locked::try_verify`
  unfoldable pub try_verify_locked : Locked → Result VerifyError Locked
  unfolding cheque_verifies
  try_verify_locked l = if cheque_verifies l.body l.signature then ok l else err invalid_signature

  -- `Unlocked::try_verify`
  try_verify_unlocked : Unlocked → Result VerifyError Unlocked
  unfolding cheque_verifies
  try_verify_unlocked u =
      if cheque_verifies (locked_body p u.body) u.signature then ok u else err invalid_signature

  -- `Cheque::try_verify`
  try_verify_cheque : Cheque → Result VerifyError Cheque
  try_verify_cheque (unlocked u) = do v ← try_verify_unlocked u; ok (unlocked v)
  try_verify_cheque (locked l) = do v ← try_verify_locked l; ok (locked v)

  -- `Squash::try_verify`
  unfoldable pub try_verify_squash : Squash → Result VerifyError Squash
  unfolding squash_verifies
  try_verify_squash s = if squash_verifies s then ok s else err invalid_signature

  -- What the marker `Verified` stands for.
  abbrev pub IsSigned : Cheque → Type 0
  IsSigned (unlocked u) = cheque_verifies (locked_body p u.body) u.signature ≡ true
  IsSigned (locked l) = cheque_verifies l.body l.signature ≡ true

  abbrev pub IsSquashSigned : Squash → Type 0
  IsSquashSigned s = squash_verifies s ≡ true

  pub try_verify_locked-IsSigned :
      (l l' : Locked) → try_verify_locked l ≡ ok l' → (l' ≡ l) × IsSigned (locked l)
  unfolding try_verify_locked
  try_verify_locked-IsSigned l l' h = ground arith

  pub IsSigned-try_verify_locked : (l : Locked) → IsSigned (locked l) → try_verify_locked l ≡ ok l
  unfolding try_verify_locked
  IsSigned-try_verify_locked l h = rw h

  pub IsSquashSigned-try_verify_squash :
      (s : Squash) → IsSquashSigned s → try_verify_squash s ≡ ok s
  unfolding try_verify_squash
  IsSquashSigned-try_verify_squash s h = rw h

  pub try_verify_squash-IsSigned :
      (s s' : Squash) → try_verify_squash s ≡ ok s' → (s' ≡ s) × IsSquashSigned s
  unfolding try_verify_squash
  try_verify_squash-IsSigned s s' h = ground arith

-- The secret that opens a locked cheque gives an unlocked cheque of the same signed body, and only
-- a secret that hashes to the lock opens it.
pub try_from_locked_lem :
    (p : Primitives) (l : Locked) (s : Secret)
    → try_from_locked p l s ≡ (
        if lock_eq (lock_of p s) l.body.latch
        then some (record {
          body = record {
            index = l.body.index;
            amount = l.body.amount;
            timeout = l.body.timeout;
            latch = s;
          };
          signature = l.signature;
        })
        else none)
unfolding try_from_locked
try_from_locked_lem p l s = ground arith
