-- ===== src/Tx2/Kernel/Sub/Prepared.antt =====
-- packages/konduit/tx2/src/channel.rs, `prep_sub`, under the fold of packages/kernel/lib/konduit/steps/sub.ak: what a
-- receipt gives as evidence goes through.
use konduit.Base.{
  ℕ, ◌+◌, ◌<◌, ◌≡◌, ◌≢◌, ap, Bool, true, false, some, List, [], ◌∷◌, map, total, All, All-filter,
  All-map, filter, length, Bytes, any, arith, ltb, ◌==◌, Bool-cases, inl, inr,
}
use konduit.Data.Duration.{Duration, as_millis}
use konduit.Data.Primitives.{Primitives}
use konduit.Data.SquashBody
use konduit.Data.SquashBody.Squashing.{is_index_squashed_lem}
use konduit.Data.Cheque.{Unlocked, unlocked}
use konduit.Data.Signed.{Squash, IsSigned, IsSquashSigned, is_index_squashed}
use konduit.Data.Stage.{Stage, opened, closed, responded, Used, used_of}
use konduit.Tx2.Channel.{used_amount, is_active, active_unlockeds, owed_useds, prep_sub}
use konduit.Tx2.Kernel.Accepted.{InClock, as_millis_mono}
use konduit.Tx2.Kernel.Evidence.{Allowed, Allows}
use konduit.Tx2.Kernel.Sub.{account}
use konduit.Tx2.Kernel.Sub.Weave.{UsedsAscend, UnlockedsAscend, Unused, Weave, weave, All-woven}
use konduit.Tx2.Kernel.Sub.Fold.{IsGood, weave-Folds}

-- The history of a stage is in the order of the indexes, without repetition.
abbrev pub IsHistory : Stage → Type 0
IsHistory (opened subbed useds) = UsedsAscend useds
IsHistory (closed subbed useds elapse_at) = UsedsAscend useds
IsHistory (responded amount pendings) = Unit

-- A squash and unlocked cheques as a receipt holds them: signed for the channel, in the order of the
-- indexes, none of the cheques settled by the squash, the secrets of 32 bytes.
pub record IsEvidence (P : Primitives) (key tag : Bytes) (squash : Squash) (cheques : List Unlocked)
    : Type 0 where
  pub squash_signed : IsSquashSigned P key tag squash
  pub body_valid : SquashBody.IsValid squash.body
  pub cheques_signed : All (λ w. IsSigned P key tag (unlocked w)) cheques
  pub secrets : All (λ w. length w.body.latch.bytes ≡ 32) cheques
  pub in_clock : All (λ w. InClock w.body.timeout) cheques
  pub ascending : UnlockedsAscend cheques
  pub unsettled : All (λ w. is_index_squashed squash w.body.index ≡ false) cheques

UnlockedsAscend-filter :
    (p : Unlocked → Bool) (ws : List Unlocked) → UnlockedsAscend ws → UnlockedsAscend (filter p ws)
UnlockedsAscend-filter p [] h = tt
UnlockedsAscend-filter p (w ∷ ws) h = elim (Bool-cases (p w)) [
  | inl e ↦
      rw e (All-filter (λ v. w.body.index < v.body.index) p ws h.0, UnlockedsAscend-filter p ws h.1)
  | inr e ↦ rw e (UnlockedsAscend-filter p ws h.1)
]

pub absent :
    (useds : List Used) (i : ℕ)
    → any (λ (u : Used). u.index == i) useds ≡ false
    → All (λ (u : Used). u.index ≢ i) useds
absent [] i h = tt
absent (u ∷ useds) i h = (ground arith, absent useds i (ground arith))

pub Allowed-unsquashed :
    (squash : Squash) (i : ℕ)
    → SquashBody.IsValid squash.body
    → is_index_squashed squash i ≡ false
    → Allowed squash.body.index squash.body.excludes i
Allowed-unsquashed squash i v h = elim (Bool-cases (ltb squash.body.index i)) [
  | inl e ↦ inl (ground arith)
  | inr e ↦ inr (ground (arith, is_index_squashed_lem squash.body i v))
]

module _ (squash : Squash) (valid : SquashBody.IsValid squash.body) where
  owed_useds-Allows :
      (useds : List Used) → Allows squash.body.index squash.body.excludes (owed_useds useds squash)
  unfolding owed_useds
  owed_useds-Allows [] = tt
  owed_useds-Allows (u ∷ useds) = elim (Bool-cases (is_index_squashed squash u.index)) [
    | inl e ↦ rw e (owed_useds-Allows useds)
    | inr e ↦ rw e (Allowed-unsquashed squash u.index valid e, owed_useds-Allows useds)
  ]

  used_of-Allows :
      (ws : List Unlocked)
      → All (λ w. is_index_squashed squash w.body.index ≡ false) ws
      → Allows squash.body.index squash.body.excludes (map used_of ws)
  used_of-Allows ws h =
      All-map (λ w. is_index_squashed squash w.body.index ≡ false)
        (λ (u : Used). Allowed squash.body.index squash.body.excludes u.index) used_of
        (λ w e. Allowed-unsquashed squash w.body.index valid e) ws h

module _ (P : Primitives) (key tag : Bytes) (useds : List Used) (upper : Duration) where
  is_active-IsGood :
      (w : Unlocked)
      → IsSigned P key tag (unlocked w)
      → length w.body.latch.bytes ≡ 32
      → InClock w.body.timeout
      → is_active useds upper w.body.index w.body.timeout ≡ true
      → IsGood P (some (as_millis upper)) key tag w
  is_active-IsGood w signed long clock active =
      let soon : upper < w.body.timeout = ground (arith, active) in
      let before = as_millis_mono upper w.body.timeout (omega arith) clock in
      (ground (arith, signed, long), ground (arith, before))

  active-IsGood :
      (ws : List Unlocked)
      → All (λ w. IsSigned P key tag (unlocked w)) ws
      → All (λ w. length w.body.latch.bytes ≡ 32) ws
      → All (λ w. InClock w.body.timeout) ws
      → All (IsGood P (some (as_millis upper)) key tag) (active_unlockeds ws useds upper)
  unfolding active_unlockeds
  active-IsGood [] s l c = tt
  active-IsGood (w ∷ ws) s l c =
      elim (Bool-cases (is_active useds upper w.body.index w.body.timeout)) [
        | inl e ↦ rw e (is_active-IsGood w s.0 l.0 c.0 e, active-IsGood ws s.1 l.1 c.1)
        | inr e ↦ rw e (active-IsGood ws s.1 l.1 c.1)
      ]

  active-Unused : (ws : List Unlocked) → Unused useds (active_unlockeds ws useds upper)
  unfolding active_unlockeds
  active-Unused [] = tt
  active-Unused (w ∷ ws) = elim (Bool-cases (is_active useds upper w.body.index w.body.timeout)) [
    | inl e ↦ rw e (absent useds w.body.index (ground (arith, e)), active-Unused ws)
    | inr e ↦ rw e (active-Unused ws)
  ]

-- The history that a sub leaves is woven, from the evidence of a receipt.
pub prep_sub-Weave :
    (P : Primitives) (key tag : Bytes) (squash : Squash) (cheques : List Unlocked)
    (useds : List Used) (upper : Duration)
    → IsEvidence P key tag squash cheques
    → UsedsAscend useds
    → Weave useds (active_unlockeds cheques useds upper) (prep_sub squash cheques useds upper).1
unfolding prep_sub active_unlockeds
prep_sub-Weave P key tag squash cheques useds upper evidence history =
    weave squash useds (active_unlockeds cheques useds upper) history
      (UnlockedsAscend-filter (λ c. is_active useds upper c.body.index c.body.timeout) cheques
        evidence.ascending)
      (active-Unused P key tag useds upper cheques)

-- The fold of the script over that history ends in the amount of the squash and all that it holds.
pub prep_sub-account :
    (P : Primitives) (key tag : Bytes) (squash : Squash) (cheques : List Unlocked)
    (useds : List Used) (upper : Duration)
    → IsEvidence P key tag squash cheques
    → UsedsAscend useds
    → account P
        (some (as_millis upper))
        key
        tag
        useds
        (prep_sub squash cheques useds upper).1
        squash
        (active_unlockeds cheques useds upper)
      ≡ some (squash.body.amount + total used_amount (prep_sub squash cheques useds upper).1)
unfolding account prep_sub active_unlockeds
prep_sub-account P key tag squash cheques useds upper evidence history =
    let ws = active_unlockeds cheques useds upper in
    let unsettled =
      All-filter (λ w. is_index_squashed squash w.body.index ≡ false)
        (λ c. is_active useds upper c.body.index c.body.timeout) cheques evidence.unsettled in
    let (t, folded, sum) =
      weave-Folds P (some (as_millis upper)) key tag squash.body.amount squash.body.index
        squash.body.excludes evidence.body_valid.ascending
        (All-woven squash (λ u. Allowed squash.body.index squash.body.excludes u.index) useds ws
          (owed_useds-Allows squash evidence.body_valid useds)
          (used_of-Allows squash evidence.body_valid ws unsettled))
        (active-IsGood P key tag useds upper cheques evidence.cheques_signed evidence.secrets
          evidence.in_clock)
        (prep_sub-Weave P key tag squash cheques useds upper evidence history) in
    rw (evidence.squash_signed, folded) (ap (λ n. some n) sum)
