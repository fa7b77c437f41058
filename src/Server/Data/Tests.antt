-- ===== src/Server/Data/Tests.antt =====
-- Runs of packages/konduit/server/src/server/data.rs on a table of one channel.
use konduit.Base.{
  ℕ, ◌+◌, ◌-◌, ◌≤◌, ◌<◌, ◌≡◌, refl, Bool, true, false, Option, none, some, List, [], ◌∷◌, ◌++◌,
  Bytes, bytes_eq, Result, ok, err, arith, u64_mod,
}
use konduit.Data.Cheque.{Locked, locked}
use konduit.Receipt.{Receipt}
use konduit.Receipt.Tests.{plain, lock8, cheque_of, mixed}
use konduit.Server.Channel
use konduit.Server.Channel.{Channel}
use konduit.Server.Db.{Value, Table, channel_at}
use konduit.Server.Data.{
  Invoice, PayRequest, fee_placeholder, adaptor_time_delta, align_commitments, pay, pay-guarded,
  align_commitments-wraps,
}

-- One lovelace is worth two millisatoshi here.
abbrev pub doubled : ℕ → ℕ
doubled n = n + n

abbrev pub value_of : Receipt → Value
value_of r = record {
  retainer = some (record { amount = 5000; subbed = 0; useds = [] });
  receipt = some r;
  is_active = true;
}

abbrev pub table_of : Receipt → Table
table_of r = ([], value_of r) ∷ []

abbrev paid_cheque : Locked
paid_cheque = cheque_of 3 2000 24005000000000 lock8

abbrev paid_receipt : Receipt
paid_receipt = record {
  squash = mixed.squash;
  cheques = mixed.cheques ++ (locked paid_cheque ∷ []);
}

abbrev pub bill : Invoice
bill = record { payment_hash = 8 ∷ []; amount_msat = 1500 }

abbrev request : PayRequest
request = record { fee_limit = 500; relative_timeout = 5000000000; invoice = bill }

mixed-pay :
    pay doubled plain 0 (table_of mixed) [] paid_cheque bill ≡ ok (table_of paid_receipt, request)
unfolding konduit.Data.Duration.as_millis pay align_commitments konduit.Base.Words.sub64
    konduit.Server.Db.update konduit.Base.Maps.get konduit.Base.Maps.Entries.insert
    Channel.apply_locked konduit.Data.Signed.try_verify_locked Channel.uncommitted
    konduit.Receipt.capacity konduit.Receipt.committed konduit.Base.Words.add64
    konduit.Base.Words.sum64 konduit.Receipt.apply_locked konduit.Receipt.max_index
mixed-pay = refl

pay-guarded_example :
    (c : Channel) × (c' : Channel) × (channel_at (table_of mixed) [] ≡ some c)
    × (Channel.apply_locked plain c paid_cheque ≡ ok c')
    × (channel_at (table_of paid_receipt) [] ≡ some c')
    × (bill.payment_hash ≡ lock8.bytes)
    × (request.fee_limit + bill.amount_msat ≤ doubled (paid_cheque.body.amount - fee_placeholder))
    × (0 + adaptor_time_delta + request.relative_timeout ≤ paid_cheque.body.timeout)
    × ((other : Bytes)
        → bytes_eq [] other ≡ false
        → channel_at (table_of paid_receipt) other ≡ channel_at (table_of mixed) other)
pay-guarded_example =
    pay-guarded plain doubled 0 (table_of mixed) [] paid_cheque bill (omega arith) (omega arith)
      mixed-pay

-- A cheque of five lovelace passes for an invoice of a hundred million millisatoshi.
abbrev small_cheque : Locked
small_cheque = cheque_of 3 5 24005000000000 lock8

abbrev large : Invoice
large = record { payment_hash = 8 ∷ []; amount_msat = 100000000 }

align_commitments-wraps_example :
    align_commitments doubled 0 small_cheque large
    ≡ ok (
      doubled (u64_mod + 5 - fee_placeholder) - 100000000,
      (24005000000000 - 0) - adaptor_time_delta,
    )
align_commitments-wraps_example =
    align_commitments-wraps doubled 0 small_cheque large (omega arith) refl (omega arith)
      (omega arith)
