-- ===== src/Server/Quote/Tests.antt =====
-- Runs of packages/konduit/server/src/server/data.rs: a quote on a table of one channel.
use konduit.Base.{ℕ, ◌+◌, ◌/◌, ◌≤◌, ◌≡◌, refl, some, [], ◌∷◌, Bytes, Result, ok, err, arith}
use konduit.Data.Duration.{from_millis}
use konduit.Data.Cheque.{Locked, locked}
use konduit.Data.Signed.{IsSigned}
use konduit.Receipt
use konduit.Receipt.Tests.{plain, lock8, cheque_of, mixed}
use konduit.Server.Channel
use konduit.Server.Channel.{Channel, Retainer, last_used_index}
use konduit.Server.Db.{Table, to_channel, channel_at}
use konduit.Server.Data.{PayRequest, pay, commitment, fee}
use konduit.Server.Quote.Free.{quote-unpaid}
use konduit.Server.Data.Tests.{doubled, table_of, value_of, bill}
use konduit.Server.Quote.{QuoteBody, bolt11, QuoteResponse, Quote, quote}
use konduit.Server.Quote.Paid.{quote-paid}

abbrev halved : ℕ → ℕ
halved n = n / 2

abbrev route : QuoteResponse
route = record { relative_timeout = from_millis 7000; fee_msat = 5 }

abbrev node : QuoteBody → Result Bytes QuoteResponse
node body = ok route

abbrev given : Quote
given = record { index = 3; amount = 1753; relative_timeout = 26407000; routing_fee = 5 }

mixed-quote : quote halved node (table_of mixed) [] (bolt11 bill) ≡ ok given
unfolding quote konduit.Base.Maps.get Channel.can_commit Channel.uncommitted Receipt.capacity
    konduit.Base.Words.add64 Receipt.committed konduit.Base.Words.sum64 Channel.next_index
    konduit.Data.Duration.add Receipt.propose_index konduit.Data.Duration.as_millis
    Receipt.max_index
mixed-quote = refl

abbrev held : Channel
held = to_channel (value_of mixed) []

mixed-held : channel_at (table_of mixed) [] ≡ some held
unfolding konduit.Base.Maps.get
mixed-held = refl

abbrev retainer : Retainer
retainer = record { amount = 5000; subbed = 0; useds = [] }

abbrev cheque : Locked
cheque = cheque_of 3 1753 26408000000000 lock8

cheque-IsSigned : IsSigned plain [] [] (locked cheque)
unfolding konduit.Data.Signed.cheque_verifies
cheque-IsSigned = refl

not_used : last_used_index retainer ≤ Receipt.propose_index mixed
not_used = omega arith

quote-paid_example :
    (t' : Table) × (request : PayRequest) × (pay doubled plain 2000000000
        (table_of mixed)
        []
        cheque
        bill
      ≡ ok (t', request))
    × (5 ≤ request.fee_limit)
quote-paid_example =
    quote-paid plain halved doubled node 2000000000 (table_of mixed) [] (bolt11 bill) given 1000
      cheque bill held retainer mixed route (omega arith) mixed-quote refl mixed-held refl refl
      not_used cheque-IsSigned (record { index = refl; amount = refl; timeout = refl }) refl refl
      (omega arith) (omega arith) (omega arith) (omega arith) (omega arith)

-- A route without a fee, and rates of half a millisatoshi for a lovelace.
abbrev direct : QuoteBody → Result Bytes QuoteResponse
direct body = ok (record { relative_timeout = from_millis 7000; fee_msat = 0 })

abbrev free : Quote
free = record { index = 3; amount = 4001; relative_timeout = 26407000; routing_fee = 0 }

mixed-free : quote doubled direct (table_of mixed) [] (bolt11 bill) ≡ ok free
unfolding quote konduit.Base.Maps.get Channel.can_commit Channel.uncommitted Receipt.capacity
    konduit.Base.Words.add64 Receipt.committed konduit.Base.Words.sum64 Channel.next_index
    konduit.Data.Duration.add Receipt.propose_index konduit.Data.Duration.as_millis
    Receipt.max_index
mixed-free = refl

quote-unpaid_example :
    pay halved plain 2000000000 (table_of mixed) [] (cheque_of 3 4001 26408000000000 lock8) bill
    ≡ err (commitment fee)
quote-unpaid_example =
    quote-unpaid plain doubled halved direct 2000000000 (table_of mixed) (table_of mixed) []
      (bolt11 bill) free (cheque_of 3 4001 26408000000000 lock8) bill held
      (record { relative_timeout = from_millis 7000; fee_msat = 0 }) refl mixed-free refl refl
      mixed-held refl refl refl (omega arith) (omega arith)
