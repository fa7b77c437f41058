-- ===== src/Data/Encode.antt =====
-- The `Encode` instances of packages/konduit/data/src that write the datum and the redeemer. The
-- encoder writes into a vector, so that no write fails.
use konduit.Base.{List, [], ◌∷◌, ◌++◌, Bytes, ℕ}
use konduit.Data.Duration.{Duration, as_millis}
use konduit.Data.Primitives.{Primitives}
use konduit.Data.Cheque.{ChequeSigned, Cheque, unlocked, locked, Unlocked}
use konduit.Data.Signed.{Squash}
use konduit.Data.Stage.{
  Used, Pending, Unpend, continue, expire, unlock, Stage, opened, closed, responded, Constants,
}
use konduit.Data.Datum.{Datum}
use konduit.Data.Redeemer.{Cont, Eol, Step, Redeemer}
use konduit.Data.Wire.{
  plutus_bytes, plutus_list, framed, encode_body, encode_lock, encode_secret, encode_squash_body,
}

module _ (p : Primitives) where
  open p use {write_tag, write_u64, write_bytes, write_array}

  abbrev pub encode_duration : Duration → Bytes
  encode_duration d = write_u64 (as_millis d)

  -- A Plutus constructor without fields, and one with some.
  abbrev bare : ℕ → Bytes
  bare n = write_tag n ++ write_array 0

  abbrev pub filled : ℕ → List Bytes → Bytes
  filled n fields = write_tag n ++ framed p fields

  unfoldable pub encode_used : Used → Bytes
  encode_used u = framed p (write_u64 u.index ∷ write_u64 u.amount ∷ [])

  unfoldable pub encode_pending : Pending → Bytes
  encode_pending d =
      framed p (write_u64 d.amount ∷ encode_duration d.timeout ∷ encode_lock p d.lock ∷ [])

  unfoldable pub encode_unpend : Unpend → Bytes
  encode_unpend continue = write_bytes []
  encode_unpend expire = write_bytes (0 ∷ [])
  encode_unpend (unlock secret) = write_bytes secret

  unfoldable pub encode_stage : Stage → Bytes
  encode_stage (opened amount useds) =
      filled 121 (write_u64 amount ∷ plutus_list p encode_used useds ∷ [])
  encode_stage (closed amount useds deadline) =
      filled 122
        (write_u64 amount ∷ plutus_list p encode_used useds ∷ encode_duration deadline ∷ [])
  encode_stage (responded amount pendings) =
      filled 123 (write_u64 amount ∷ plutus_list p encode_pending pendings ∷ [])

  -- The tag is written in chunks, the keys each as one string.
  unfoldable pub encode_constants : Constants → Bytes
  encode_constants c = framed p (
      plutus_bytes p c.tag
      ∷ write_bytes c.add_vkey
      ∷ write_bytes c.sub_vkey
      ∷ encode_duration c.close_period
      ∷ [])

  unfoldable pub encode_datum : Datum → Bytes
  encode_datum d =
      framed p (write_bytes d.own_hash ∷ encode_constants d.constants ∷ encode_stage d.stage ∷ [])

  unfoldable pub encode_signed : {T : Type 0} → (T → Bytes) → ChequeSigned T → Bytes
  encode_signed encode_latch c =
      framed p (encode_body p encode_latch c.body ∷ write_bytes c.signature ∷ [])

  abbrev encode_unlocked : Unlocked → Bytes
  encode_unlocked = encode_signed (encode_secret p)

  unfoldable pub encode_cheque : Cheque → Bytes
  encode_cheque (unlocked u) =
      filled 121 (encode_body p (encode_secret p) u.body ∷ write_bytes u.signature ∷ [])
  encode_cheque (locked l) =
      filled 122 (encode_body p (encode_lock p) l.body ∷ write_bytes l.signature ∷ [])

  unfoldable pub encode_squash : Squash → Bytes
  encode_squash s = framed p (encode_squash_body p s.body ∷ write_bytes s.signature ∷ [])

  unfoldable pub encode_eol : Eol → Bytes
  encode_eol Eol.end = bare 121
  encode_eol Eol.elapse = bare 122

  unfoldable pub encode_cont : Cont → Bytes
  encode_cont Cont.add = bare 121
  encode_cont (Cont.sub squash unlockeds) =
      filled 122 (encode_squash squash ∷ plutus_list p encode_unlocked unlockeds ∷ [])
  encode_cont Cont.close = bare 123
  encode_cont (Cont.respond squash cheques) =
      filled 124 (encode_squash squash ∷ plutus_list p encode_cheque cheques ∷ [])
  encode_cont (Cont.unlock unpends) = filled 125 (plutus_list p encode_unpend unpends ∷ [])
  encode_cont (Cont.expire unpends) = filled 126 (plutus_list p encode_unpend unpends ∷ [])

  unfoldable pub encode_step : Step → Bytes
  encode_step (Step.cont c) = filled 121 (encode_cont c ∷ [])
  encode_step (Step.eol e) = filled 122 (encode_eol e ∷ [])

  unfoldable pub encode_redeemer : Redeemer → Bytes
  encode_redeemer Redeemer.defer = bare 121
  encode_redeemer (Redeemer.main steps) = filled 122 (plutus_list p encode_step steps ∷ [])
  encode_redeemer Redeemer.mutuals = bare 123
