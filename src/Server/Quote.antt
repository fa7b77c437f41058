-- ===== src/Server/Quote.antt =====
-- packages/konduit/server/src/server/data.rs: the quote of a payment. What the Lightning node answers for the amount,
-- the payee and the hints of a body is a parameter, as are the rates.
pub mod Paid
pub mod Free
pub mod Tests
use konduit.Base.{ℕ, ◌+◌, ◌*◌, Bytes, Result, ok, err, ◌>>=◌, map_err, ok_or, add64}
use konduit.Data.Duration
use konduit.Data.Duration.{Duration, as_millis}
use konduit.Server.Channel
use konduit.Server.Channel.{can_commit}
use konduit.Server.Db.{Table, channel_at}
use konduit.Server.Data.{Invoice, fee_placeholder, adaptor_time_delta}

-- What is sent to the node of a simple quote.
pub record SimpleQuote : Type 0 where
  pub amount_msat : ℕ
  pub payee : Bytes

pub data QuoteBody : Type 0 where
  simple : SimpleQuote → QuoteBody
  bolt11 : Invoice → QuoteBody

abbrev pub amount_msat : QuoteBody → ℕ
amount_msat (simple q) = q.amount_msat
amount_msat (bolt11 i) = i.amount_msat

pub record QuoteResponse : Type 0 where
  pub relative_timeout : Duration
  pub fee_msat : ℕ

pub record Quote : Type 0 where
  pub index : ℕ
  pub amount : ℕ
  pub relative_timeout : ℕ
  pub routing_fee : ℕ

-- The errors that a quote gives; that of the node is its text.
pub data Error : Type 0 where
  no_channel : Error
  channel : Channel.Error → Error
  bln : Bytes → Error

-- 4 blocks of ten minutes
abbrev pub quote_pay_time_margin : Duration
quote_pay_time_margin = 4 * 10 * 60 * 1000000000

abbrev pub quote_of : ℕ → ℕ → Duration → ℕ → Quote
quote_of index amount timeout fee = record {
  index = index;
  amount = amount;
  relative_timeout = as_millis timeout;
  routing_fee = fee;
}

-- What a cheque must be worth for so many millisatoshi, at a rate.
abbrev pub charge : (ℕ → ℕ) → ℕ → ℕ
charge msat_to_lovelace msat = add64 (add64 (msat_to_lovelace msat) fee_placeholder) 1

module _ (msat_to_lovelace : ℕ → ℕ) (node : QuoteBody → Result Bytes QuoteResponse) where
  -- `Data::quote`
  unfoldable pub quote : Table → Bytes → QuoteBody → Result Error Quote
  quote t keytag body = do
    ch ← ok_or (channel_at t keytag) no_channel
    possible ← map_err channel (can_commit ch (charge msat_to_lovelace (amount_msat body)))
    res ← map_err bln (node body)
    let amount = charge msat_to_lovelace (add64 (amount_msat body) res.fee_msat)
    index ← map_err channel (can_commit ch amount)
    timeout ← Duration.add (adaptor_time_delta + quote_pay_time_margin) res.relative_timeout
    ok (quote_of index amount timeout res.fee_msat)
