-- ===== src/Server/Quote/Paid.antt =====
-- packages/konduit/server/src/server/data.rs: a quote, and the payment that follows it.
use konduit.Base.{
  ℕ, ◌+◌, ◌-◌, ◌*◌, ◌/◌, ◌≤◌, ◌<◌, ◌≡◌, refl, sym, ap, ◌∙◌, subst, some, Bytes, bytes_eq_self,
  le→ltb, Result, ok, map_err, ok_or, >>=-eq-ok, map_err-eq-ok, ok_or-eq-ok, add64, add64-eq,
  sub64-eq, u64_mod, arith,
}
use konduit.Data.Duration
use konduit.Data.Duration.{Duration, as_millis, from_millis}
use konduit.Data.Primitives.{Primitives}
use konduit.Data.Cheque.{Locked, locked}
use konduit.Data.Signed.{IsSigned}
use konduit.Receipt
use konduit.Receipt.{Receipt}
use konduit.Server.Channel
use konduit.Server.Channel.{Channel, Retainer, can_commit, last_used_index}
use konduit.Server.Channel.Funds.{can_commit-apply_locked}
use konduit.Server.Db
use konduit.Server.Db.{Table, channel_at}
use konduit.Server.Data.{
  Invoice, PayRequest, fee_placeholder, adaptor_time_delta, align_commitments, pay,
}
use konduit.Server.Quote.{
  QuoteBody, amount_msat, QuoteResponse, Quote, no_channel, channel, bln, quote_pay_time_margin,
  charge, quote, quote_of,
}

module _ (msat_to_lovelace : ℕ → ℕ) (node : QuoteBody → Result Bytes QuoteResponse) where
  -- What holds of a quote that is given.
  pub quote-eq-ok :
      (t : Table) (keytag : Bytes) (body : QuoteBody) (ch : Channel) {q : Quote}
      → quote msat_to_lovelace node t keytag body ≡ ok q
      → channel_at t keytag ≡ some ch
      → (res : QuoteResponse) × (node body ≡ ok res)
        × (q.amount ≡ charge msat_to_lovelace (add64 (amount_msat body) res.fee_msat))
        × (can_commit ch q.amount ≡ ok q.index)
        × (q.relative_timeout
            ≡ as_millis (adaptor_time_delta + quote_pay_time_margin + res.relative_timeout))
        × (q.routing_fee ≡ res.fee_msat)
  unfolding quote Duration.add
  quote-eq-ok t keytag body ch {q} h held =
      let (c, e₁, f₁) = >>=-eq-ok (ok_or (channel_at t keytag) no_channel) _ h in
      let found = ok_or-eq-ok (channel_at t keytag) no_channel e₁ in
      let same : c ≡ ch = cc in
      let (_, _, f₂) =
        >>=-eq-ok (map_err channel (can_commit c (charge msat_to_lovelace (amount_msat body)))) _
          f₁ in
      let (res, e₃, f₃) = >>=-eq-ok (map_err bln (node body)) _ f₂ in
      let answered = map_err-eq-ok bln (node body) e₃ in
      let amount = charge msat_to_lovelace (add64 (amount_msat body) res.fee_msat) in
      let (index, e₄, f₄) = >>=-eq-ok (map_err channel (can_commit c amount)) _ f₃ in
      let committed = map_err-eq-ok channel (can_commit c amount) e₄ in
      let (timeout, e₅, f₅) =
        >>=-eq-ok (Duration.add (adaptor_time_delta + quote_pay_time_margin) res.relative_timeout) _
          f₄ in
      let made : q ≡ quote_of index amount timeout res.fee_msat = cc in
      let whole : timeout ≡ adaptor_time_delta + quote_pay_time_margin + res.relative_timeout =
        ground (arith, e₅) in
      (
        res,
        answered,
        ap (λ (x : Quote). x.amount) made,
        subst (λ (x : Quote). can_commit ch x.amount ≡ ok x.index) (sym made)
            (subst (λ d. can_commit d amount ≡ ok index) same committed),
        ap (λ (x : Quote). x.relative_timeout) made ∙ ap as_millis whole,
        ap (λ (x : Quote). x.routing_fee) made,
      )

pay-ok :
    (p : Primitives) (lovelace_to_msat : ℕ → ℕ) (now : Duration) (t : Table) (keytag : Bytes)
    (l : Locked) (invoice : Invoice) (ch ch' : Channel)
    → channel_at t keytag ≡ some ch
    → Channel.apply_locked p ch l ≡ ok ch'
    → invoice.payment_hash ≡ l.body.latch.bytes
    → fee_placeholder ≤ l.body.amount
    → l.body.amount < u64_mod
    → invoice.amount_msat < lovelace_to_msat (l.body.amount - fee_placeholder)
    → now + adaptor_time_delta + 1000000000 ≤ l.body.timeout
    → (t' : Table) × (request : PayRequest) × (pay lovelace_to_msat p now t keytag l invoice
        ≡ ok (t', request))
      × (request.fee_limit
          ≡ lovelace_to_msat (l.body.amount - fee_placeholder) - invoice.amount_msat)
unfolding pay align_commitments Db.update
pay-ok p lovelace_to_msat now t keytag l invoice ch ch' held applied hash charged small covers
      timely =
    let limit = lovelace_to_msat (l.body.amount - fee_placeholder) - invoice.amount_msat in
    let enough = le→ltb limit 1 (omega arith) in
    let soon =
      le→ltb (((l.body.timeout - now) - adaptor_time_delta) / 1000000000) 1 (omega arith) in
    rw
      (
        hash,
        bytes_eq_self l.body.latch.bytes,
        sub64-eq l.body.amount fee_placeholder small charged,
        enough,
        soon,
        held,
        applied,
      )
      (_, _, refl, refl)

-- What the consumer of a quote makes of it: a cheque of its index and its amount, which times out when the
-- quoted time has passed from the time that it was made.
pub record Follows (q : Quote) (made_at : ℕ) (l : Locked) : Type 0 where
  pub index : l.body.index ≡ q.index
  pub amount : l.body.amount ≡ q.amount
  pub timeout : l.body.timeout ≡ from_millis (made_at + q.relative_timeout)

-- The payment that follows a quote goes out to the Lightning node, with a limit of the routing fee that is
-- no less than the fee that was quoted: where the cheque follows the quote and is signed, the invoice is
-- of the quoted amount and locked under the same hash, the channel is as it was, and no used item
-- on chain has an index beyond the next one of the receipt. The server receives it no later than the margin
-- less a second after it was made. For a routing fee that is not zero, sums and times that fit, and
-- rates that bring this one quoted amount back, with its fee, where one lovelace is added to it.
pub quote-paid :
    (p : Primitives) (msat_to_lovelace lovelace_to_msat : ℕ → ℕ)
    (node : QuoteBody → Result Bytes QuoteResponse) (now : Duration) (t : Table) (keytag : Bytes)
    (body : QuoteBody) (q : Quote) (made_at : ℕ) (l : Locked) (invoice : Invoice) (ch : Channel)
    (retainer : Retainer) (r : Receipt) (res : QuoteResponse)
    → amount_msat body + res.fee_msat
      ≤ lovelace_to_msat (msat_to_lovelace (amount_msat body + res.fee_msat) + 1)
    → quote msat_to_lovelace node t keytag body ≡ ok q
    → node body ≡ ok res
    → channel_at t keytag ≡ some ch
    → ch.retainer ≡ some retainer
    → ch.receipt ≡ some r
    → last_used_index retainer ≤ Receipt.propose_index r
    → IsSigned p ch.key ch.tag (locked l)
    → Follows q made_at l
    → invoice.payment_hash ≡ l.body.latch.bytes
    → invoice.amount_msat ≡ amount_msat body
    → now + 1000000000 ≤ from_millis made_at + quote_pay_time_margin
    → 1 ≤ res.fee_msat
    → amount_msat body + res.fee_msat < u64_mod
    → msat_to_lovelace (amount_msat body + res.fee_msat) + 1001 < u64_mod
    → adaptor_time_delta + quote_pay_time_margin + res.relative_timeout < u64_mod * 1000000
    → (t' : Table) × (request : PayRequest) × (pay lovelace_to_msat p now t keytag l invoice
        ≡ ok (t', request))
      × (q.routing_fee ≤ request.fee_limit)
unfolding as_millis
quote-paid p msat_to_lovelace lovelace_to_msat node now t keytag body q made_at l invoice ch
      retainer r res rates quoted answered held has_retainer has_receipt used signed follows hash
      amounts in_time fee fits charged clock =
    let (res', again, amount_eq, commit, timeout_eq, fee_eq) =
      quote-eq-ok msat_to_lovelace node t keytag body ch quoted held in
    let same : res' ≡ res = cc in
    let msat = amount_msat body + res.fee_msat in
    let asked : add64 (amount_msat body) res'.fee_msat ≡ msat =
      subst (λ (x : QuoteResponse). add64 (amount_msat body) x.fee_msat ≡ msat) (sym same)
        (add64-eq (amount_msat body) res.fee_msat fits) in
    let worth : q.amount ≡ charge msat_to_lovelace msat =
      amount_eq ∙ ap (charge msat_to_lovelace) asked in
    let with_fee = add64-eq (msat_to_lovelace msat) fee_placeholder (omega arith) in
    let with_one =
      add64-eq (add64 (msat_to_lovelace msat) fee_placeholder) 1 (omega (arith, with_fee)) in
    let price : l.body.amount ≡ msat_to_lovelace msat + 1001 =
      omega (arith, worth, with_fee, with_one, follows.amount) in
    let left : l.body.amount - fee_placeholder ≡ msat_to_lovelace msat + 1 = omega (arith, price) in
    let covers : msat ≤ lovelace_to_msat (l.body.amount - fee_placeholder) =
      subst (λ x. msat ≤ lovelace_to_msat x) (sym left) rates in
    let quoted_fee : q.routing_fee ≡ res.fee_msat =
      fee_eq ∙ ap (λ (x : QuoteResponse). x.fee_msat) same in
    let quoted_time : q.relative_timeout
        ≡ as_millis (adaptor_time_delta + quote_pay_time_margin + res.relative_timeout) =
      timeout_eq
      ∙ ap
          (λ (x : QuoteResponse).
            as_millis (adaptor_time_delta + quote_pay_time_margin + x.relative_timeout))
          same in
    let (ch', applied) =
      can_commit-apply_locked p ch q.amount q.index l retainer r commit has_retainer has_receipt
        used signed follows.index (omega (arith, follows.amount)) in
    let (t', request, paid, limit) =
      pay-ok p lovelace_to_msat now t keytag l invoice ch ch' held applied hash
        (omega (arith, price)) (omega (arith, price)) (omega (arith, covers, amounts, fee))
        (omega (arith, follows.timeout, quoted_time, in_time)) in
    (t', request, paid, omega (arith, limit, covers, amounts, quoted_fee))
