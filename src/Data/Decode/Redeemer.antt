-- ===== src/Data/Decode/Redeemer.antt =====
-- The `Decode` instances of packages/konduit/data/src for the redeemer and what is signed in it.
use konduit.Base.{ℕ, ◌==◌, if◌then◌else◌}
use konduit.Data.Cbor.{Decoder, unknown_tag, Reader, ◌>>=◌, ◌>>◌, pure, fail}
use konduit.Data.Cheque.{ChequeBody, ChequeSigned, Cheque, unlocked, locked}
use konduit.Data.Indexes.{Indexes}
use konduit.Data.SquashBody.{SquashBody}
use konduit.Data.Signed.{Squash}
use konduit.Data.Redeemer.{Cont, Eol, Step, Redeemer}
use konduit.Data.Decode.{
  checked_indexes, checked_squash, finish, decode_exactly, decode_duration, decode_lock,
  decode_secret, decode_unpend,
}

module _ (r : Reader) where
  open r use {read_tag, read_array, read_u64, array_iter}

  -- `impl Decode for ChequeBody`, over that of the latch
  unfoldable pub decode_body : {T : Type 0} → Decoder T → Decoder (ChequeBody T)
  decode_body decode_latch = do
    read_array
    index ← read_u64
    amount ← read_u64
    timeout ← decode_duration r
    latch ← decode_latch
    finish r
    pure (record { index = index; amount = amount; timeout = timeout; latch = latch })

  unfoldable pub decode_signed : {T : Type 0} → Decoder T → Decoder (ChequeSigned T)
  decode_signed decode_latch = do
    read_array
    body ← decode_body decode_latch
    signature ← decode_exactly r 64
    finish r
    pure (record { body = body; signature = signature })

  unfoldable pub decode_unlocked_cheque : Decoder Cheque
  decode_unlocked_cheque = do
    body ← decode_body (decode_secret r)
    signature ← decode_exactly r 64
    finish r
    pure (unlocked (record { body = body; signature = signature }))

  unfoldable pub decode_locked_cheque : Decoder Cheque
  decode_locked_cheque = do
    body ← decode_body (decode_lock r)
    signature ← decode_exactly r 64
    finish r
    pure (locked (record { body = body; signature = signature }))

  abbrev cheque_fields : ℕ → Decoder Cheque
  cheque_fields n =
      if n == 121
      then read_array >> decode_unlocked_cheque
      else if n == 122
      then read_array >> decode_locked_cheque
      else fail (unknown_tag n)

  unfoldable pub decode_cheque : Decoder Cheque
  decode_cheque = do n ← read_tag; cheque_fields n

  unfoldable pub decode_indexes : Decoder Indexes
  decode_indexes = do items ← array_iter read_u64; checked_indexes items

  unfoldable pub decode_squash_body : Decoder SquashBody
  decode_squash_body = do
    read_array
    amount ← read_u64
    index ← read_u64
    excludes ← decode_indexes
    finish r
    checked_squash amount index excludes

  unfoldable pub decode_squash : Decoder Squash
  decode_squash = do
    read_array
    body ← decode_squash_body
    signature ← decode_exactly r 64
    finish r
    pure (record { body = body; signature = signature })

  abbrev eol_fields : ℕ → Decoder Eol
  eol_fields n =
      if n == 121
      then read_array >> pure Eol.end
      else if n == 122
      then read_array >> pure Eol.elapse
      else fail (unknown_tag n)

  unfoldable pub decode_eol : Decoder Eol
  decode_eol = do n ← read_tag; eol_fields n

  unfoldable pub decode_sub : Decoder Cont
  decode_sub = do
    read_array
    squash ← decode_squash
    unlockeds ← array_iter (decode_signed (decode_secret r))
    finish r
    pure (Cont.sub squash unlockeds)

  unfoldable pub decode_respond : Decoder Cont
  decode_respond = do
    read_array
    squash ← decode_squash
    cheques ← array_iter decode_cheque
    finish r
    pure (Cont.respond squash cheques)

  unfoldable pub decode_unlock : Decoder Cont
  decode_unlock = do
    read_array
    unpends ← array_iter (decode_unpend r)
    finish r
    pure (Cont.unlock unpends)

  unfoldable pub decode_expire : Decoder Cont
  decode_expire = do
    read_array
    unpends ← array_iter (decode_unpend r)
    finish r
    pure (Cont.expire unpends)

  abbrev cont_fields : ℕ → Decoder Cont
  cont_fields n =
      if n == 121
      then read_array >> pure Cont.add
      else if n == 122
      then decode_sub
      else if n == 123
      then read_array >> pure Cont.close
      else if n == 124
      then decode_respond
      else if n == 125
      then decode_unlock
      else if n == 126
      then decode_expire
      else fail (unknown_tag n)

  unfoldable pub decode_cont : Decoder Cont
  decode_cont = do n ← read_tag; cont_fields n

  unfoldable pub decode_step_cont : Decoder Step
  decode_step_cont = do read_array; c ← decode_cont; finish r; pure (Step.cont c)

  unfoldable pub decode_step_eol : Decoder Step
  decode_step_eol = do read_array; e ← decode_eol; finish r; pure (Step.eol e)

  abbrev step_fields : ℕ → Decoder Step
  step_fields n =
      if n == 121
      then decode_step_cont
      else if n == 122
      then decode_step_eol
      else fail (unknown_tag n)

  unfoldable pub decode_step : Decoder Step
  decode_step = do n ← read_tag; step_fields n

  unfoldable pub decode_main : Decoder Redeemer
  decode_main = do read_array; steps ← array_iter decode_step; finish r; pure (Redeemer.main steps)

  abbrev redeemer_fields : ℕ → Decoder Redeemer
  redeemer_fields n =
      if n == 121
      then read_array >> pure Redeemer.defer
      else if n == 122
      then decode_main
      else if n == 123
      then read_array >> pure Redeemer.mutuals
      else fail (unknown_tag n)

  unfoldable pub decode_redeemer : Decoder Redeemer
  decode_redeemer = do n ← read_tag; redeemer_fields n
