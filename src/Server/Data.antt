-- ===== src/Server/Data.antt =====
-- packages/konduit/server/src/server/data.rs: what the server checks before it pays an invoice for a cheque.
-- The rates are floating-point numbers, and the conversion to millisatoshi is a parameter; the clock is
-- an argument. What is sent to the Lightning node is the result.
pub mod Tests
use konduit.Base.{
  ℕ, ◌+◌, ◌-◌, ◌*◌, ◌/◌, ◌≤◌, ◌<◌, ◌≡◌, refl, ap, subst, ◌∙◌, Bool, true, false, not, Option, none,
  some, List, Bytes, bytes_eq, bytes_eq→eq, bytes_eq_self, le→ltb, Result, ok, err, ◌>>=◌, ◌>>◌,
  >>=-eq-ok, refuse_if, refuse_if-eq-ok, map_err, map_err-eq-ok, ltb, arith, u64_mod,
}
use konduit.Base.Words.{sub64, sub64-eq}
use konduit.Data.Duration.{Duration, as_millis, from_millis}
use konduit.Data.Primitives.{Primitives}
use konduit.Data.Cheque.{Locked}
use konduit.Server.Channel
use konduit.Server.Channel.{Channel}
use konduit.Server.Channel.Inversion.{apply_locked-eq-ok}
use konduit.Server.Db
use konduit.Server.Db.{
  Table, channel_at, update, update-eq-ok, channel_at-keys, to_channel-from_channel,
}

abbrev pub fee_placeholder : ℕ
fee_placeholder = 1000

-- 40 blocks of ten minutes
abbrev pub adaptor_time_delta : Duration
adaptor_time_delta = 40 * 10 * 60 * 1000000000

-- The fields that the server reads of an invoice of the Lightning client.
pub record Invoice : Type 0 where
  pub payment_hash : Bytes
  pub amount_msat : ℕ

pub data CommitmentError : Type 0 where
  lock fee time : CommitmentError

pub record PayRequest : Type 0 where
  pub fee_limit : ℕ
  pub relative_timeout : Duration
  pub invoice : Invoice

-- The errors that `pay` gives before the call of the Lightning node.
pub data Error : Type 0 where
  no_channel : Error
  channel : Channel.Error → Error
  commitment : CommitmentError → Error

-- `impl From<db::Error> for Error`
abbrev pub from_db : Db.Error → Error
from_db Db.no_channel = no_channel
from_db (Db.channel e) = channel e

-- A time for the Lightning client is whole milliseconds.
abbrev from_konduit_duration : Duration → Duration
from_konduit_duration d = from_millis (as_millis d)

from_konduit_duration_le : (d : Duration) → from_konduit_duration d ≤ d
unfolding as_millis
from_konduit_duration_le d = omega arith

module _ (lovelace_to_msat : ℕ → ℕ) where
  unfoldable pub align_commitments :
      Duration → Locked → Invoice → Result CommitmentError (ℕ × Duration)
  align_commitments now l invoice =
      let fee_limit =
        lovelace_to_msat (sub64 l.body.amount fee_placeholder) - invoice.amount_msat in
      let relative_timeout = (l.body.timeout - now) - adaptor_time_delta in
      do
        refuse_if (not (bytes_eq invoice.payment_hash l.body.latch.bytes)) lock
        refuse_if (ltb fee_limit 1) fee
        refuse_if (ltb (relative_timeout / 1000000000) 1) time
        ok (fee_limit, relative_timeout)

  -- `Data::pay`, up to the call of the Lightning node
  unfoldable pub pay :
      Primitives → Duration → Table → Bytes → Locked → Invoice → Result Error (Table × PayRequest)
  pay p now t keytag l invoice = do
    limits ← map_err commitment (align_commitments now l invoice)
    t' ← map_err from_db (update t keytag (λ ch. Channel.apply_locked p ch l))
    ok (
      t',
      record {
        fee_limit = limits.0;
        relative_timeout = from_konduit_duration limits.1;
        invoice = invoice;
      },
    )

  align_commitments-eq-ok :
      (now : Duration) (l : Locked) (invoice : Invoice) {limits : ℕ × Duration}
      → align_commitments now l invoice ≡ ok limits
      → (invoice.payment_hash ≡ l.body.latch.bytes)
        × (limits.0 + invoice.amount_msat ≤ lovelace_to_msat (sub64 l.body.amount fee_placeholder))
        × (now + adaptor_time_delta + limits.1 ≡ l.body.timeout)
  unfolding align_commitments
  align_commitments-eq-ok now l invoice {limits} h =
      let (_, e₁, f₁) =
        >>=-eq-ok (refuse_if (not (bytes_eq invoice.payment_hash l.body.latch.bytes)) lock) _ h in
      let (_, e₂, f₂) =
        >>=-eq-ok
          (refuse_if
            (ltb (lovelace_to_msat (sub64 l.body.amount fee_placeholder) - invoice.amount_msat) 1)
            fee)
          _ f₁ in
      let (_, e₃, f₃) =
        >>=-eq-ok
          (refuse_if (ltb (((l.body.timeout - now) - adaptor_time_delta) / 1000000000) 1) time) _
          f₂ in
      let same = refuse_if-eq-ok (not (bytes_eq invoice.payment_hash l.body.latch.bytes)) lock e₁ in
      let enough =
        refuse_if-eq-ok
          (ltb (lovelace_to_msat (sub64 l.body.amount fee_placeholder) - invoice.amount_msat) 1) fee
          e₂ in
      let soon =
        refuse_if-eq-ok (ltb (((l.body.timeout - now) - adaptor_time_delta) / 1000000000) 1) time
          e₃ in
      let a : limits.0
          ≡ lovelace_to_msat (sub64 l.body.amount fee_placeholder) - invoice.amount_msat =
        cc in
      let b : limits.1 ≡ (l.body.timeout - now) - adaptor_time_delta = cc in
      (bytes_eq→eq _ _ (ground (arith, same)), ground (arith, enough, a), ground (arith, soon, b))

module _ (p : Primitives) (lovelace_to_msat : ℕ → ℕ) (now : Duration) (t : Table) (keytag : Bytes)
    (l : Locked) (invoice : Invoice) where
  -- A payment that the server sets out on has a cheque behind it: the channel of the keytag accepts
  -- the cheque, and the invoice is locked under the same hash; the invoice with the limit of the
  -- routing fee is no more than the cheque less the fee of the server, at the rate; the limit of time
  -- leaves the server its own time before the cheque times out; and no other channel changes. For a
  -- cheque of at least the fee of the server, in 64 bits.
  pub pay-guarded :
      {t' : Table} {request : PayRequest}
      → fee_placeholder ≤ l.body.amount
      → l.body.amount < u64_mod
      → pay lovelace_to_msat p now t keytag l invoice ≡ ok (t', request)
      → (c : Channel) × (c' : Channel) × (channel_at t keytag ≡ some c)
        × (Channel.apply_locked p c l ≡ ok c')
        × (channel_at t' keytag ≡ some c')
        × (invoice.payment_hash ≡ l.body.latch.bytes)
        × (request.fee_limit + invoice.amount_msat
            ≤ lovelace_to_msat (l.body.amount - fee_placeholder))
        × (now + adaptor_time_delta + request.relative_timeout ≤ l.body.timeout)
        × ((other : Bytes)
            → bytes_eq keytag other ≡ false
            → channel_at t' other ≡ channel_at t other)
  unfolding pay
  pay-guarded {t'} {request} charged small h =
      let (limits, e₁, f₁) =
        >>=-eq-ok (map_err commitment (align_commitments lovelace_to_msat now l invoice)) _ h in
      let f : Channel → Result Channel.Error Channel = λ ch. Channel.apply_locked p ch l in
      let (stored, e₂, f₂) = >>=-eq-ok (map_err from_db (update t keytag f)) _ f₁ in
      let (hash, fees, times) =
        align_commitments-eq-ok lovelace_to_msat now l invoice
          (map_err-eq-ok commitment (align_commitments lovelace_to_msat now l invoice) e₁) in
      let (c, c', held, applied, after, others) =
        update-eq-ok t keytag f (map_err-eq-ok from_db (update t keytag f) e₂) in
      let (_, r, r', _, _, _, _, _, pushed) = apply_locked-eq-ok p c l applied in
      let (key, tag) = channel_at-keys t keytag held in
      let whole =
        to_channel-from_channel c' keytag (ap (λ x. x.key) pushed ∙ key)
          (ap (λ x. x.tag) pushed ∙ tag) in
      let same : stored ≡ t' = cc in
      let limit : request.fee_limit ≡ limits.0 = cc in
      let timeout : request.relative_timeout ≡ from_konduit_duration limits.1 = cc in
      (
        c,
        c',
        held,
        applied,
        subst (λ s. channel_at s keytag ≡ some c') same (after ∙ ap (λ x. some x) whole),
        hash,
        omega (
          arith,
          limit,
          subst (λ x. limits.0 + invoice.amount_msat ≤ lovelace_to_msat x)
              (sub64-eq l.body.amount fee_placeholder small charged) fees,
        ),
        omega (arith, timeout, from_konduit_duration_le limits.1, times),
        subst
            (λ s.
              (other : Bytes)
              → bytes_eq keytag other ≡ false
              → channel_at s other ≡ channel_at t other)
            same others,
      )

sub64-wraps : (a b : ℕ) → a < b → b ≤ u64_mod → sub64 a b ≡ u64_mod + a - b
unfolding sub64
sub64-wraps a b h k = omega arith

-- A cheque of less than the fee of the server is taken to cover nearly 2 ^ 64 lovelace: it passes, with
-- the hash of the invoice and in time, for every invoice below that at the rate, and what the rate
-- makes of the difference is the limit of the routing fee.
pub align_commitments-wraps :
    (lovelace_to_msat : ℕ → ℕ) (now : Duration) (l : Locked) (invoice : Invoice)
    → let covered = lovelace_to_msat (u64_mod + l.body.amount - fee_placeholder) in
      l.body.amount < fee_placeholder
      → invoice.payment_hash ≡ l.body.latch.bytes
      → invoice.amount_msat < covered
      → now + adaptor_time_delta + 1000000000 ≤ l.body.timeout
      → align_commitments lovelace_to_msat now l invoice
        ≡ ok (covered - invoice.amount_msat, (l.body.timeout - now) - adaptor_time_delta)
unfolding align_commitments
align_commitments-wraps lovelace_to_msat now l invoice less hash below timely =
    let amount = sub64-wraps l.body.amount fee_placeholder less (omega arith) in
    let covered = lovelace_to_msat (u64_mod + l.body.amount - fee_placeholder) in
    let enough = le→ltb (covered - invoice.amount_msat) 1 (omega arith) in
    let soon =
      le→ltb (((l.body.timeout - now) - adaptor_time_delta) / 1000000000) 1 (omega arith) in
    rw (hash, bytes_eq_self l.body.latch.bytes, amount, enough, soon) refl
