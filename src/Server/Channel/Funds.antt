-- ===== src/Server/Channel/Funds.antt =====
-- What the server lets a consumer commit, against what the channel holds on chain.
use konduit.Base.{
  ℕ, ◌+◌, ◌-◌, ◌≤◌, ◌<◌, max, ◌≡◌, ◌≢◌, refl, subst, some, [], ◌∷◌, ◌++◌, ok, err, ◌>>=◌, >>=-eq-ok,
  map_err, arith, le→ltb, length, length-append, u64_mod,
}
use konduit.Data.Primitives.{Primitives}
use konduit.Data.Cheque.{Locked, locked}
use konduit.Data.Signed.{
  Squash, IsSigned, IsSquashSigned, IsSigned-try_verify_locked, IsSquashSigned-try_verify_squash,
}
use konduit.Receipt
use konduit.Receipt.{Receipt, max_unsquashed}
use konduit.Receipt.Amounts.{committed_total, apply_squash_lem, apply_locked-amounts, Fits}
use konduit.Server.Channel.{
  Channel, Retainer, apply_locked, apply_squash, squash_receipt, uncommitted, can_commit,
  next_index, last_used_index, receipt_error,
}
use konduit.Server.Channel.Inversion.{uncommitted-eq-ok, apply_locked-eq-ok}

receipt_locked-length :
    (r : Receipt) (l : Locked) {r' : Receipt}
    → Receipt.apply_locked r l ≡ ok r'
    → length r'.cheques ≡ length r.cheques + 1
unfolding Receipt.apply_locked
receipt_locked-length r l h = ground (arith, length-append r.cheques (locked l ∷ []))

pushed_bounds :
    (r r' : Receipt) (l : Locked) (t : Retainer)
    → committed_total r + l.body.amount < u64_mod
    → 0 < l.body.amount
    → l.body.amount ≤ t.amount - (Receipt.committed r - t.subbed)
    → Receipt.capacity r ≢ 0
    → Receipt.apply_locked r l ≡ ok r'
    → (Receipt.committed r' ≤ t.subbed + t.amount) × (length r'.cheques ≤ max_unsquashed)
unfolding Receipt.capacity
pushed_bounds r r' l t fits some_amount within room h =
    let (raised, _) = apply_locked-amounts r l fits h in
    (omega arith, omega (arith, receipt_locked-length r l h))

module _ (p : Primitives) (ch : Channel) where
  -- After the server takes in a cheque of some amount, what is committed is covered by what was
  -- subbed and what the channel holds on chain, and no more than ten cheques stand unsquashed. For
  -- sums that fit in 64 bits.
  pub apply_locked-solvent :
      (l : Locked) {ch' : Channel} {r : Receipt}
      → ch.receipt ≡ some r
      → committed_total r + l.body.amount < u64_mod
      → 0 < l.body.amount
      → apply_locked p ch l ≡ ok ch'
      → (t : Retainer) × (r' : Receipt) × (ch'.retainer ≡ some t)
        × (ch'.receipt ≡ some r')
        × (Receipt.committed r' ≤ t.subbed + t.amount)
        × (length r'.cheques ≤ max_unsquashed)
  apply_locked-solvent l {ch'} {r = r₀} held fits some_amount h =
      let (available, r, r', signed, spend, within, held', e, same) = apply_locked-eq-ok p ch l h in
      let can = uncommitted-eq-ok ch spend in
      let same_r : r₀ ≡ r = cc in
      let same_c : can.receipt ≡ r = cc (can.has_receipt) in
      let rest : available ≡ can.retainer.amount - (Receipt.committed r - can.retainer.subbed) =
        subst (λ x. available ≡ can.retainer.amount - (Receipt.committed x - can.retainer.subbed))
          same_c can.rest in
      let room : Receipt.capacity r ≢ 0 = subst (λ x. Receipt.capacity x ≢ 0) same_c can.has_room in
      let fits_r : committed_total r + l.body.amount < u64_mod =
        subst (λ x. committed_total x + l.body.amount < u64_mod) same_r fits in
      let (bounded, few) =
        pushed_bounds r r' l can.retainer fits_r some_amount (omega arith) room e in
      (can.retainer, r', rw same can.has_retainer, rw same refl, bounded, few)

can_commit-eq-ok :
    (ch : Channel) (x : ℕ) {i : ℕ}
    → can_commit ch x ≡ ok i
    → (n : ℕ) × (uncommitted ch ≡ ok n) × (x < n) × (next_index ch ≡ ok i)
unfolding can_commit
can_commit-eq-ok ch x h =
    let (n, e, f) = >>=-eq-ok (uncommitted ch) _ h in (n, e, ground arith, ground arith)

next_index-eq-ok :
    (ch : Channel) {i : ℕ} (t : Retainer) (r : Receipt)
    → ch.retainer ≡ some t
    → ch.receipt ≡ some r
    → next_index ch ≡ ok i
    → i ≡ max (last_used_index t) (Receipt.propose_index r)
unfolding next_index
next_index-eq-ok ch t r ht hr h = ground arith

-- What `apply_locked` does with a signed cheque that the funds cover.
apply_locked_funded :
    (p : Primitives) (ch : Channel) (l : Locked) (n : ℕ) (r : Receipt)
    → IsSigned p ch.key ch.tag (locked l)
    → uncommitted ch ≡ ok n
    → l.body.amount ≤ n
    → ch.receipt ≡ some r
    → apply_locked p ch l ≡ (
        map_err receipt_error (Receipt.apply_locked r l) >>= λ r'.
        ok (record ch { receipt = some r' }))
unfolding apply_locked
apply_locked_funded p ch l n r signed spend within held =
    rw (IsSigned-try_verify_locked p ch.key ch.tag l signed, spend, le→ltb n l.body.amount within)
      (ground arith)

-- A quote names an index and an amount up to which it holds: a cheque of that index and of no more
-- than that amount, signed by the consumer, is accepted, where no used item on chain has an index
-- beyond the next one of the receipt.
pub can_commit-apply_locked :
    (p : Primitives) (ch : Channel) (x i : ℕ) (l : Locked) (t : Retainer) (r : Receipt)
    → can_commit ch x ≡ ok i
    → ch.retainer ≡ some t
    → ch.receipt ≡ some r
    → last_used_index t ≤ Receipt.propose_index r
    → IsSigned p ch.key ch.tag (locked l)
    → l.body.index ≡ i
    → l.body.amount ≤ x
    → (ch' : Channel) × (apply_locked p ch l ≡ ok ch')
unfolding Receipt.propose_index Receipt.apply_locked
can_commit-apply_locked p ch x i l t r h ht hr used signed index amount =
    let (n, spend, more, next) = can_commit-eq-ok ch x h in
    let quoted = next_index-eq-ok ch t r ht hr next in
    let pushed : Receipt = record r { cheques = r.cheques ++ locked l ∷ [] } in
    (
      record ch { receipt = some pushed },
      rw (apply_locked_funded p ch l n r signed spend (omega arith) hr) (ground arith),
    )

-- Where a used item on chain has an index beyond the next one of the receipt, the index that is
-- quoted is that of the used item, and a signed cheque of the quoted index and of no more than the
-- quoted amount is refused.
pub can_commit-refused :
    (p : Primitives) (ch : Channel) (x i : ℕ) (l : Locked) (t : Retainer) (r : Receipt)
    → can_commit ch x ≡ ok i
    → ch.retainer ≡ some t
    → ch.receipt ≡ some r
    → Receipt.propose_index r < last_used_index t
    → IsSigned p ch.key ch.tag (locked l)
    → l.body.index ≡ i
    → l.body.amount ≤ x
    → (i ≡ last_used_index t) × (apply_locked p ch l ≡ err (receipt_error Receipt.input))
unfolding Receipt.propose_index Receipt.apply_locked
can_commit-refused p ch x i l t r h ht hr used signed index amount =
    let (n, spend, more, next) = can_commit-eq-ok ch x h in
    let quoted = next_index-eq-ok ch t r ht hr next in
    (omega arith, rw (apply_locked_funded p ch l n r signed spend (omega arith) hr) (ground arith))

-- The server takes a signed squash of a lower index in place of the current one, where no cheque
-- stands unsquashed, its amount is no less, and the current amount fits in 64 bits.
apply_squash-earlier :
    (p : Primitives) (ch : Channel) (q : Squash) (r : Receipt)
    → ch.receipt ≡ some r
    → r.cheques ≡ []
    → r.squash.body.amount < u64_mod
    → r.squash.body.amount ≤ q.body.amount
    → q.body.index < r.squash.body.index
    → IsSquashSigned p ch.key ch.tag q
    → apply_squash p ch q ≡ ok (record ch { receipt = some (Receipt.new q) })
unfolding apply_squash squash_receipt
apply_squash-earlier p ch q r held none_left word amount earlier signed =
    let fits : Fits r = rw none_left (omega arith) in
    let accepted : Receipt.apply_squash r q ≡ ok (Receipt.new q) =
      ground (arith, apply_squash_lem r q fits) in
    rw (IsSquashSigned-try_verify_squash p ch.key ch.tag q signed, held) (rw accepted refl)
