-- ===== src/Server/Channel/Inversion.antt =====
-- What holds of an operation of the server's channel that succeeds.
use konduit.Base.{
  ℕ, ◌≤◌, ◌-◌, ◌≡◌, ◌≢◌, refl, subst, ◌⊎◌, inl, inr, true, Option, none, some, ok, >>=-eq-ok,
  map_err, map_err-eq-ok, ok_or, ok_or-eq-ok, refuse_if, refuse_if-eq-ok, arith, ltb, Option-cases,
}
use konduit.Data.Primitives.{Primitives}
use konduit.Data.Cheque.{Secret, Locked, locked}
use konduit.Data.Signed.{
  Squash, IsSigned, IsSquashSigned, try_verify_locked, try_verify_squash,
  try_verify_locked-IsSigned, try_verify_squash-IsSigned,
}
use konduit.Receipt
use konduit.Receipt.{Receipt}
use konduit.Server.Channel.{
  Channel, Retainer, squash_receipt, apply_squash, apply_locked, apply_secret, uncommitted,
  receipt_error, verify, no_receipt, funds,
}

-- What a channel has that can tell how much is uncommitted.
pub record CanSpend (ch : Channel) (available : ℕ) : Type 0 where
  pub is_active : ch.is_active ≡ true
  pub retainer : Retainer
  pub receipt : Receipt
  pub has_retainer : ch.retainer ≡ some retainer
  pub has_receipt : ch.receipt ≡ some receipt
  pub has_room : Receipt.capacity receipt ≢ 0
  pub rest : available ≡ retainer.amount - (Receipt.committed receipt - retainer.subbed)

pub uncommitted-eq-ok : (ch : Channel) {n : ℕ} → uncommitted ch ≡ ok n → CanSpend ch n
unfolding uncommitted
uncommitted-eq-ok ch h = elim (Option-cases ch.retainer) [
  | inl e ↦ absurd (ground arith)
  | inr (t, e) ↦ elim (Option-cases ch.receipt) [
    | inl f ↦ absurd (ground arith)
    | inr (r, f) ↦ record {
      is_active = ground arith;
      retainer = t;
      receipt = r;
      has_retainer = e;
      has_receipt = f;
      has_room = ground arith;
      rest = ground arith;
    }
  ]
]

module _ (p : Primitives) (ch : Channel) where
  pub apply_secret-eq-ok :
      (s : Secret) {ch' : Channel}
      → apply_secret p ch s ≡ ok ch'
      → (r : Receipt) × (r' : Receipt) × (ch.receipt ≡ some r)
        × (Receipt.apply_secret p r s ≡ ok r')
        × (ch' ≡ record ch { receipt = some r' })
  unfolding apply_secret
  apply_secret-eq-ok s h =
      let (r, e, f) = >>=-eq-ok (ok_or ch.receipt no_receipt) _ h in
      let (r', e', f') = >>=-eq-ok (map_err receipt_error (Receipt.apply_secret p r s)) _ f in
      (
        r,
        r',
        ok_or-eq-ok ch.receipt no_receipt e,
        map_err-eq-ok receipt_error (Receipt.apply_secret p r s) e',
        cc,
      )

  pub apply_locked-eq-ok :
      (l : Locked) {ch' : Channel}
      → apply_locked p ch l ≡ ok ch'
      → (available : ℕ) × (r : Receipt) × (r' : Receipt) × IsSigned p ch.key ch.tag (locked l)
        × (uncommitted ch ≡ ok available)
        × (l.body.amount ≤ available)
        × (ch.receipt ≡ some r)
        × (Receipt.apply_locked r l ≡ ok r')
        × (ch' ≡ record ch { receipt = some r' })
  unfolding apply_locked
  apply_locked-eq-ok l h =
      let (l', e₁, f₁) =
        >>=-eq-ok (map_err (λ _. verify) (try_verify_locked p ch.key ch.tag l)) _ h in
      let (same, signed) =
        try_verify_locked-IsSigned p ch.key ch.tag l l'
          (map_err-eq-ok (λ _. verify) (try_verify_locked p ch.key ch.tag l) e₁) in
      let (available, e₂, f₂) = >>=-eq-ok (uncommitted ch) _ f₁ in
      let (_, e₃, f₃) = >>=-eq-ok (refuse_if (ltb available l'.body.amount) funds) _ f₂ in
      let within = refuse_if-eq-ok (ltb available l'.body.amount) funds e₃ in
      let (r, e₄, f₄) = >>=-eq-ok (ok_or ch.receipt no_receipt) _ f₃ in
      let (r', e₅, f₅) = >>=-eq-ok (map_err receipt_error (Receipt.apply_locked r l')) _ f₄ in
      let pushed = map_err-eq-ok receipt_error (Receipt.apply_locked r l') e₅ in
      (
        available,
        r,
        r',
        signed,
        e₂,
        ground (arith, same, within),
        ok_or-eq-ok ch.receipt no_receipt e₄,
        subst (λ x. Receipt.apply_locked r x ≡ ok r') same pushed,
        cc,
      )

  pub apply_squash-eq-ok :
      (q : Squash) {ch' : Channel}
      → apply_squash p ch q ≡ ok ch'
      → (r' : Receipt) × IsSquashSigned p ch.key ch.tag q
        × (squash_receipt ch.receipt q ≡ ok r')
        × (ch' ≡ record ch { receipt = some r' })
  unfolding apply_squash
  apply_squash-eq-ok q h =
      let (q', e₁, f₁) =
        >>=-eq-ok (map_err (λ _. verify) (try_verify_squash p ch.key ch.tag q)) _ h in
      let (same, signed) =
        try_verify_squash-IsSigned p ch.key ch.tag q q'
          (map_err-eq-ok (λ _. verify) (try_verify_squash p ch.key ch.tag q) e₁) in
      let (r', e₂, f₂) = >>=-eq-ok (squash_receipt ch.receipt q') _ f₁ in
      (r', signed, subst (λ x. squash_receipt ch.receipt x ≡ ok r') same e₂, cc)

-- The receipt that a squash makes or advances.
pub squash_receipt-eq-ok :
    (o : Option Receipt) (q : Squash) {r' : Receipt}
    → squash_receipt o q ≡ ok r'
    → ((o ≡ none) × (r' ≡ Receipt.new q))
      ⊎ ((r : Receipt) × (o ≡ some r) × (Receipt.apply_squash r q ≡ ok r'))
unfolding squash_receipt
squash_receipt-eq-ok none q h = inl (refl, cc)
squash_receipt-eq-ok (some r) q h =
    inr (r, refl, map_err-eq-ok receipt_error (Receipt.apply_squash r q) h)
