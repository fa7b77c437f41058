-- ===== src/Server/Admin/Unlocks.antt =====
-- packages/konduit/server/src/admin/service.rs, `unlocks`: the secrets that the Lightning node reveals are taken to the
-- channels. What the node reveals is a parameter; the storage is taken not to fail.
use konduit.Base.{
  ◌≡◌, refl, ◌∙◌, ap, false, Option, none, some, List, [], ◌∷◌, ◌++◌, map, any, is_empty, Bytes,
  if◌then◌else◌, Result, ok, err, panic, ◌>>=◌, ok_or, map_err, Bool-cases, inl, inr,
}
use konduit.Data.Primitives.{Primitives}
use konduit.Data.Cheque.{Cheque, Lock, Secret, locked, unlocked, lock_of, lock_eq}
use konduit.Receipt.{Receipt, lockeds, opens, unchanged}
use konduit.Receipt.Secrets.{opened_by, apply_secret_lem}
use konduit.Server.Channel.{Channel, receipt_error, apply_secret, apply_secrets}
use konduit.Server.Db
use konduit.Server.Db.{Table, channel_at, update}
use konduit.Server.Admin.{keys, after_one}

pub data UnlocksError : Type 0 where
  vanished : Bytes → UnlocksError
  bln : Bytes → UnlocksError
  db : Db.Error → UnlocksError

-- The locks of the locked cheques.
abbrev locks_of : Receipt → List Lock
locks_of r = map (λ l. l.body.latch) (lockeds r)

abbrev revealed : Option Bytes → List Secret → List Secret
revealed none rest = rest
revealed (some secret) rest = record { bytes = secret } ∷ rest

module _ (p : Primitives) (reveal : Bytes → Result Bytes (Option Bytes)) where
  unfoldable pub get_secrets : List Lock → Result UnlocksError (List Secret)
  get_secrets [] = ok []
  get_secrets (l ∷ ls) = do
    found ← map_err bln (reveal l.bytes)
    rest ← get_secrets ls
    ok (revealed found rest)

  abbrev taken : Table → Bytes → List Secret → Result UnlocksError Table
  taken t k secrets =
      if is_empty secrets then ok t else map_err db (update t k (λ ch. apply_secrets p ch secrets))

  abbrev with_locks : Table → Bytes → Option Receipt → Result UnlocksError Table
  with_locks t k none = ok t
  with_locks t k (some r) = get_secrets (locks_of r) >>= λ secrets. taken t k secrets

  -- The body of the loop of `unlocks`
  unfoldable pub unlocks_one : Table → Bytes → Result UnlocksError Table
  unlocks_one t k = do ch ← ok_or (channel_at t k) (vanished k); with_locks t k ch.receipt

  -- The table that the loop leaves, and how it ends.
  unfoldable pub unlocks_from : Table → List Bytes → Table × Result UnlocksError (Unit {0})
  unlocks_from t [] = (t, ok tt)
  unlocks_from t (k ∷ ks) = after_one t (λ t'. unlocks_from t' ks) (unlocks_one t k)

  abbrev pub unlocks : Table → Table × Result UnlocksError (Unit {0})
  unlocks t = unlocks_from t (keys t)

  -- A run goes on from what the keytags before made of the table.
  unlocks_from-append :
      (t t' : Table) (before after : List Bytes)
      → unlocks_from t before ≡ (t', ok tt)
      → unlocks_from t (before ++ after) ≡ unlocks_from t' after
  unfolding unlocks_from
  unlocks_from-append t t' [] after h =
      ap (λ (x : Table × Result UnlocksError (Unit {0})). unlocks_from x.0 after) h
  unlocks_from-append t t' (k ∷ before) after h =
      go (unlocks_one t k) (λ u. unlocks_from-append u t' before after) h
    where
      go :
          (served : Result UnlocksError Table)
          → ((u : Table)
              → unlocks_from u before ≡ (t', ok tt)
              → unlocks_from u (before ++ after) ≡ unlocks_from t' after)
          → after_one t (λ u. unlocks_from u before) served ≡ (t', ok tt)
          → after_one t (λ u. unlocks_from u (before ++ after)) served ≡ unlocks_from t' after
      go (ok u) next e = next u e
      go (err x) next e = absurd (cc (ap (λ (x : Table × Result UnlocksError (Unit {0})). x.1) e))
      go panic next e = absurd (cc (ap (λ (x : Table × Result UnlocksError (Unit {0})). x.1) e))

  opened_by-closed :
      (s : Secret) (cs : List Cheque) → any (opens (lock_of p s)) (map (opened_by p s) cs) ≡ false
  opened_by-closed s [] = refl
  opened_by-closed s (unlocked u ∷ cs) = opened_by-closed s cs
  opened_by-closed s (locked l ∷ cs) = elim (Bool-cases (lock_eq l.body.latch (lock_of p s))) [
    | inl e ↦ rw e (opened_by-closed s cs)
    | inr e ↦ rw (e, e) (opened_by-closed s cs)
  ]

  -- A secret that comes twice is refused.
  apply_secrets-twice :
      (ch : Channel) (r : Receipt) (s : Secret) (ss : List Secret)
      → ch.receipt ≡ some r
      → apply_secrets p ch (s ∷ s ∷ ss) ≡ err (receipt_error unchanged)
  unfolding apply_secrets apply_secret
  apply_secrets-twice ch r s ss held = elim (Bool-cases (any (opens (lock_of p s)) r.cheques)) [
    | inl e ↦
        rw (held, apply_secret_lem p s r, e)
          (rw
            (
              apply_secret_lem p s (record r { cheques = map (opened_by p s) r.cheques }),
              opened_by-closed s r.cheques,
            )
            refl)
    | inr e ↦ rw (held, apply_secret_lem p s r, e) refl
  ]

-- Where the first two locked cheques of a channel are under one lock, whose secret the node reveals, and the
-- node answers for the other locks of the channel, a run of `unlocks` that gets to this channel ends there in
-- an error. The table that it leaves is the one that the keytags before made: the channel is as it was, with
-- none of its cheques opened, and no keytag after it is served.
pub unlocks-stuck :
    (p : Primitives) (reveal : Bytes → Result Bytes (Option Bytes)) (t t' : Table) (k : Bytes)
    (before after : List Bytes) (ch : Channel) (r : Receipt) (lock : Lock) (rest : List Lock)
    (secret : Bytes) (secrets : List Secret)
    → keys t ≡ before ++ k ∷ after
    → unlocks_from p reveal t before ≡ (t', ok tt)
    → channel_at t' k ≡ some ch
    → ch.receipt ≡ some r
    → locks_of r ≡ lock ∷ lock ∷ rest
    → reveal lock.bytes ≡ ok (some secret)
    → get_secrets p reveal rest ≡ ok secrets
    → unlocks p reveal t ≡ (t', err (db (Db.channel (receipt_error unchanged))))
unfolding unlocks_from unlocks_one get_secrets update
unlocks-stuck p reveal t t' k before after ch r lock rest secret secrets order served found held
      locks known others =
    let twice = apply_secrets-twice p reveal ch r (record { bytes = secret }) secrets held in
    let failed : unlocks_one p reveal t' k ≡ err (db (Db.channel (receipt_error unchanged))) =
      rw (found, held, locks, known, others, found, twice) refl in
    rw order (
      unlocks_from-append p reveal t t' before (k ∷ after) served
      ∙ ap (after_one t' (λ u. unlocks_from p reveal u after)) failed)
