-- ===== src/Server/Channel/Verified.antt =====
-- Everything that the server keeps of a channel off chain is signed by its consumer.
use konduit.Base.{
  subst, ◌≡◌, sym, ap, Bool, Option, none, some, List, [], ◌∷◌, ◌++◌, map, ok, >>=-eq-ok, arith,
  filter, not, All, Bytes, Bool-cases, inl, inr, bytes_eq→eq,
}
use konduit.Data.Primitives.{Primitives}
use konduit.Data.Cheque.{Secret, Locked, Cheque, unlocked, locked, locked_body, lock_eq, lock_of}
use konduit.Data.Signed.{Squash, IsSigned, IsSquashSigned}
use konduit.Receipt
use konduit.Receipt.{Receipt, settles}
use konduit.Receipt.Secrets.{opened_by, unlocked_by, apply_secret_lem}
use konduit.Server.Channel.{
  Channel, squash_receipt, apply_squash, apply_locked, apply_secret, apply_secrets,
}
use konduit.Server.Channel.Inversion.{
  apply_squash-eq-ok, squash_receipt-eq-ok, apply_locked-eq-ok, apply_secret-eq-ok,
}

module _ (p : Primitives) where
  -- The squash and every cheque carry a signature of the key.
  record IsReceiptSigned (key tag : Bytes) (r : Receipt) : Type 0 where
    pub squash_signed : IsSquashSigned p key tag r.squash
    pub cheques_signed : All (IsSigned p key tag) r.cheques

  abbrev IsSignedOption : Bytes → Bytes → Option Receipt → Type 0
  IsSignedOption key tag none = Unit
  IsSignedOption key tag (some r) = IsReceiptSigned key tag r

  abbrev IsChannelSigned : Channel → Type 0
  IsChannelSigned ch = IsSignedOption ch.key ch.tag ch.receipt

  All-push :
      (P : Cheque → Type 0) (cs : List Cheque) (c : Cheque) → All P cs → P c → All P (cs ++ c ∷ [])
  All-push P [] c h k = (k, tt)
  All-push P (d ∷ cs) c h k = (h.0, All-push P cs c h.1 k)

  All-filter :
      (P : Cheque → Type 0) (f : Cheque → Bool) (cs : List Cheque) → All P cs → All P (filter f cs)
  All-filter P f [] h = tt
  All-filter P f (c ∷ cs) h = ground (arith, All-filter P f cs h.1)

  -- An opened cheque is signed as the locked one was, since its secret hashes to the lock.
  opened_by-IsSigned :
      (key tag : Bytes) (s : Secret) (c : Cheque)
      → IsSigned p key tag c
      → IsSigned p key tag (opened_by p s c)
  opened_by-IsSigned key tag s (unlocked u) h = h
  opened_by-IsSigned key tag s (locked l) h =
      elim (Bool-cases (lock_eq l.body.latch (lock_of p s))) [
        | inl hit ↦
            let same : l.body.latch ≡ lock_of p s =
              ground (arith, bytes_eq→eq l.body.latch.bytes (lock_of p s).bytes) in
            let bodies : locked_body p (unlocked_by p s l).body ≡ l.body =
              ap (λ k. record l.body { latch = k }) (sym same) in
            let opened : IsSigned p key tag (unlocked (unlocked_by p s l)) = rw bodies h in
            rw hit opened
        | inr miss ↦ rw miss h
      ]

  All-opened_by :
      (key tag : Bytes) (s : Secret) (cs : List Cheque)
      → All (IsSigned p key tag) cs
      → All (IsSigned p key tag) (map (opened_by p s) cs)
  All-opened_by key tag s [] h = tt
  All-opened_by key tag s (c ∷ cs) h =
      (opened_by-IsSigned key tag s c h.0, All-opened_by key tag s cs h.1)

  receipt_squash-IsSigned :
      (key tag : Bytes) (r : Receipt) (q : Squash) {r' : Receipt}
      → IsReceiptSigned key tag r
      → IsSquashSigned p key tag q
      → Receipt.apply_squash r q ≡ ok r'
      → IsReceiptSigned key tag r'
  unfolding Receipt.apply_squash
  receipt_squash-IsSigned key tag r q v w h =
      let kept =
        All-filter (IsSigned p key tag) (λ c. not (settles q c)) r.cheques v.cheques_signed in
      ground (arith, kept)

  receipt_locked-IsSigned :
      (key tag : Bytes) (r : Receipt) (l : Locked) {r' : Receipt}
      → IsReceiptSigned key tag r
      → IsSigned p key tag (locked l)
      → Receipt.apply_locked r l ≡ ok r'
      → IsReceiptSigned key tag r'
  unfolding Receipt.apply_locked
  receipt_locked-IsSigned key tag r l v w h =
      let pushed = All-push (IsSigned p key tag) r.cheques (locked l) v.cheques_signed w in
      ground (arith, pushed)

  receipt_secret-IsSigned :
      (key tag : Bytes) (r : Receipt) (s : Secret) {r' : Receipt}
      → IsReceiptSigned key tag r
      → Receipt.apply_secret p r s ≡ ok r'
      → IsReceiptSigned key tag r'
  receipt_secret-IsSigned key tag r s v h =
      let opened = All-opened_by key tag s r.cheques v.cheques_signed in
      ground (arith, apply_secret_lem p s r, opened)

  held-IsSigned :
      (key tag : Bytes) (o : Option Receipt) (r : Receipt)
      → IsSignedOption key tag o
      → o ≡ some r
      → IsReceiptSigned key tag r
  held-IsSigned key tag o r v held = subst (IsSignedOption key tag) held v

  squash_receipt-IsSigned :
      (key tag : Bytes) (o : Option Receipt) (q : Squash) {r' : Receipt}
      → IsSignedOption key tag o
      → IsSquashSigned p key tag q
      → squash_receipt o q ≡ ok r'
      → IsReceiptSigned key tag r'
  squash_receipt-IsSigned key tag o q {r'} v w h = elim (squash_receipt-eq-ok o q h) [
    | inl (_, same) ↦
        let fresh : IsReceiptSigned key tag (Receipt.new q) = record {
          squash_signed = w;
          cheques_signed = tt;
        } in
        rw same fresh
    | inr (r, held, e) ↦ receipt_squash-IsSigned key tag r q (held-IsSigned key tag o r v held) w e
  ]

  -- A squash that the server accepts leaves the squash and every cheque of a channel signed by the
  -- key of the channel under its tag, if they were.
  apply_squash-IsChannelSigned :
      (ch : Channel) (q : Squash) {ch' : Channel}
      → IsChannelSigned ch
      → apply_squash p ch q ≡ ok ch'
      → IsChannelSigned ch'
  apply_squash-IsChannelSigned ch q v h =
      let (r', signed, e, same) = apply_squash-eq-ok p ch q h in
      rw same (squash_receipt-IsSigned ch.key ch.tag ch.receipt q v signed e)

  -- A cheque that the server accepts leaves the squash and every cheque of a channel signed by the
  -- key of the channel under its tag, if they were.
  apply_locked-IsChannelSigned :
      (ch : Channel) (l : Locked) {ch' : Channel}
      → IsChannelSigned ch
      → apply_locked p ch l ≡ ok ch'
      → IsChannelSigned ch'
  apply_locked-IsChannelSigned ch l v h =
      let (available, r, r', signed, spend, within, held, e, same) = apply_locked-eq-ok p ch l h in
      rw same (
        receipt_locked-IsSigned ch.key ch.tag r l (held-IsSigned ch.key ch.tag ch.receipt r v held)
          signed e)

  apply_secret-IsChannelSigned :
      (ch : Channel) (s : Secret) {ch' : Channel}
      → IsChannelSigned ch
      → apply_secret p ch s ≡ ok ch'
      → IsChannelSigned ch'
  apply_secret-IsChannelSigned ch s v h =
      let (r, r', held, e, same) = apply_secret-eq-ok p ch s h in
      rw same (
        receipt_secret-IsSigned ch.key ch.tag r s (held-IsSigned ch.key ch.tag ch.receipt r v held)
          e)

  -- Secrets that the server takes in turn leave the squash and every cheque of a channel signed by
  -- the key of the channel under its tag, if they were.
  apply_secrets-IsChannelSigned :
      (ch : Channel) (ss : List Secret) {ch' : Channel}
      → IsChannelSigned ch
      → apply_secrets p ch ss ≡ ok ch'
      → IsChannelSigned ch'
  unfolding apply_secrets
  apply_secrets-IsChannelSigned ch [] {ch'} v h = let same : ch' ≡ ch = cc in rw same v
  apply_secrets-IsChannelSigned ch (s ∷ ss) {ch'} v h =
      let (ch₁, e, f) = >>=-eq-ok (apply_secret p ch s) (λ ch₁. apply_secrets p ch₁ ss) h in
      let signed = apply_secret-IsChannelSigned ch s {ch' = ch₁} v e in
      apply_secrets-IsChannelSigned ch₁ ss signed f
