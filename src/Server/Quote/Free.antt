-- ===== src/Server/Quote/Free.antt =====
-- packages/konduit/server/src/server/data.rs: a quote without a routing fee, and the payment that follows it.
use konduit.Base.{
  ◌+◌, ◌-◌, ◌<◌, ◌≡◌, ℕ, refl, sym, ap, ◌∙◌, subst, Bytes, bytes_eq_self, ltb, Result, ok, err,
  add64, add64-eq, sub64, sub64-eq, u64_mod, arith, true, some,
}
use konduit.Data.Duration.{Duration}
use konduit.Data.Primitives.{Primitives}
use konduit.Data.Cheque.{Locked}
use konduit.Server.Channel.{Channel}
use konduit.Server.Db.{Table, channel_at}
use konduit.Server.Data.{Invoice, fee_placeholder, align_commitments, pay, commitment, fee}
use konduit.Server.Quote.{QuoteBody, amount_msat, QuoteResponse, Quote, charge, quote}
use konduit.Server.Quote.Paid.{quote-eq-ok}

-- A payment of a quote without a routing fee is refused for its fee, where the rates bring the quoted amount
-- back without a surplus: whatever the times, the channel and the table then. For a cheque of the quoted amount,
-- an invoice of the quoted amount that is locked under the hash of the cheque, and sums that fit.
pub quote-unpaid :
    (p : Primitives) (msat_to_lovelace lovelace_to_msat : ℕ → ℕ)
    (node : QuoteBody → Result Bytes QuoteResponse) (now : Duration) (t later : Table)
    (keytag : Bytes) (body : QuoteBody) (q : Quote) (l : Locked) (invoice : Invoice) (ch : Channel)
    (res : QuoteResponse)
    → lovelace_to_msat (msat_to_lovelace (amount_msat body) + 1) ≡ amount_msat body
    → quote msat_to_lovelace node t keytag body ≡ ok q
    → node body ≡ ok res
    → res.fee_msat ≡ 0
    → channel_at t keytag ≡ some ch
    → l.body.amount ≡ q.amount
    → invoice.payment_hash ≡ l.body.latch.bytes
    → invoice.amount_msat ≡ amount_msat body
    → amount_msat body < u64_mod
    → msat_to_lovelace (amount_msat body) + 1001 < u64_mod
    → pay lovelace_to_msat p now later keytag l invoice ≡ err (commitment fee)
unfolding pay align_commitments
quote-unpaid p msat_to_lovelace lovelace_to_msat node now t later keytag body q l invoice ch res
      rates quoted answered free held amount hash amounts fits charged =
    let (res', again, amount_eq, _, _, _) =
      quote-eq-ok msat_to_lovelace node t keytag body ch quoted held in
    let msat = amount_msat body in
    let same : res' ≡ res = cc in
    let asked : add64 msat res'.fee_msat ≡ msat =
      subst (λ (x : QuoteResponse). add64 msat x.fee_msat ≡ msat) (sym same)
        (omega (arith, free, add64-eq msat res.fee_msat (omega (arith, free)))) in
    let worth : q.amount ≡ charge msat_to_lovelace msat =
      amount_eq ∙ ap (charge msat_to_lovelace) asked in
    let with_fee = add64-eq (msat_to_lovelace msat) fee_placeholder (omega arith) in
    let with_one =
      add64-eq (add64 (msat_to_lovelace msat) fee_placeholder) 1 (omega (arith, with_fee)) in
    let price : l.body.amount ≡ msat_to_lovelace msat + 1001 =
      omega (arith, worth, with_fee, with_one, amount) in
    let left : sub64 l.body.amount fee_placeholder ≡ msat_to_lovelace msat + 1 = omega (
      arith,
      price,
      sub64-eq l.body.amount fee_placeholder (omega (arith, price)) (omega (arith, price)),
    ) in
    let nothing : ltb (lovelace_to_msat (msat_to_lovelace msat + 1) - invoice.amount_msat) 1
        ≡ true =
      ground (arith, rates, amounts) in
    rw (hash, bytes_eq_self l.body.latch.bytes, left, nothing) refl
