-- ===== src/Receipt/Secrets.antt =====
-- `apply_secret` of receipt.rs: what a secret does to the cheques.
use konduit.Base.{
  ◌≡◌, refl, List, [], ◌∷◌, map, ok, err, if◌then◌else◌, any, arith, bytes_eq_self, bytes_eq→eq,
}
use konduit.Data.Primitives.{Primitives}
use konduit.Data.Cheque.{Secret, Locked, Unlocked, Cheque, unlocked, locked, lock_eq, lock_of}
use konduit.Data.Signed.{try_from_locked_lem}
use konduit.Receipt.{Receipt, unchanged, opens, open_cheque, open_cheques, apply_secret}

module _ (p : Primitives) (s : Secret) where
  -- The unlocked cheque that a secret makes of a locked one.
  abbrev pub unlocked_by : Locked → Unlocked
  unlocked_by l = record {
    body = record {
      index = l.body.index;
      amount = l.body.amount;
      timeout = l.body.timeout;
      latch = s;
    };
    signature = l.signature;
  }

  -- Every locked cheque under the secret's lock becomes unlocked, and no other cheque changes.
  abbrev pub opened_by : Cheque → Cheque
  opened_by (unlocked u) = unlocked u
  opened_by (locked l) =
      if lock_eq l.body.latch (lock_of p s) then unlocked (unlocked_by l) else locked l

  open_cheque_lem : (c : Cheque) → open_cheque p s c ≡ ok (opened_by c, opens (lock_of p s) c)
  unfolding open_cheque
  open_cheque_lem (unlocked u) = refl
  open_cheque_lem (locked l) = ground (
    arith,
    try_from_locked_lem p l s,
    bytes_eq→eq l.body.latch.bytes (lock_of p s).bytes,
    bytes_eq_self (lock_of p s).bytes,
  )

  open_cheques_lem :
      (cs : List Cheque) → open_cheques p s cs ≡ ok (map opened_by cs, any (opens (lock_of p s)) cs)
  unfolding open_cheques
  open_cheques_lem [] = refl
  open_cheques_lem (c ∷ cs) = rw (open_cheque_lem c, open_cheques_lem cs)

  -- A secret opens every locked cheque under its lock and changes no other; without such a cheque it
  -- is refused. The call that could abort never does.
  pub apply_secret_lem :
      (r : Receipt)
      → apply_secret p r s ≡ (
          if any (opens (lock_of p s)) r.cheques
          then ok (record r { cheques = map opened_by r.cheques })
          else err unchanged)
  unfolding apply_secret
  apply_secret_lem r = rw (open_cheques_lem r.cheques)
