-- ===== src/Tx2/Kernel/Respond/Prepared.antt =====
-- packages/konduit/tx2/src/channel.rs, `prep_respond`, under the fold of
-- packages/kernel/lib/konduit/steps/respond.ak.
use konduit.Base.{
  ◌+◌, ◌<◌, ◌≡◌, refl, subst, ap, Bool, true, false, some, List, [], ◌∷◌, map, total, All,
  All-filter, filter, filter_map, length, Bytes, arith, Bool-cases, inl, inr,
}
use konduit.Data.Duration.{Duration, as_millis}
use konduit.Data.Primitives.{Primitives}
use konduit.Data.SquashBody
use konduit.Data.Cheque
use konduit.Data.Cheque.{Cheque, Locked, locked, unlocked, as_locked, as_unlocked}
use konduit.Data.Signed.{Squash, IsSigned, IsSquashSigned, is_index_squashed}
use konduit.Data.Stage.{Used, pending_of}
use konduit.Tx2.Channel.{is_active, active_cheques, owed_useds, used_amount, pending_amount}
use konduit.Tx2.Kernel.{pend_of}
use konduit.Tx2.Kernel.Accepted.{InClock, as_millis_mono}
use konduit.Tx2.Kernel.Evidence.{Allowed, Allows}
use konduit.Tx2.Kernel.Sub.Weave.{UsedsAscend}
use konduit.Tx2.Kernel.Sub.Prepared.{absent, Allowed-unsquashed}
use konduit.Tx2.Kernel.Respond.{account}
use konduit.Tx2.Kernel.Respond.Thread.{
  ChequesAscend, UnusedBy, IsCovered, thread, ghost, unlocked_amount,
}
use konduit.Tx2.Kernel.Respond.Fold.{
  IsGood, Folds-account, thread-Folds, locked_pend, pends_of, locked_amount,
}

-- The secret of an unlocked cheque has 32 bytes.
abbrev HasLatch : Cheque → Type 0
HasLatch (unlocked w) = length w.body.latch.bytes ≡ 32
HasLatch (locked l) = Unit

-- A squash and cheques as a receipt holds them: signed for the channel, in the order of the indexes, none
-- of the cheques settled by the squash.
pub record IsResponse (P : Primitives) (key tag : Bytes) (squash : Squash) (cheques : List Cheque)
    : Type 0 where
  pub squash_signed : IsSquashSigned P key tag squash
  pub body_valid : SquashBody.IsValid squash.body
  pub cheques_signed : All (IsSigned P key tag) cheques
  pub latches : All HasLatch cheques
  pub in_clock : All (λ c. InClock (Cheque.timeout c)) cheques
  pub ascending : ChequesAscend cheques
  pub unsettled : All (λ c. is_index_squashed squash (Cheque.index c) ≡ false) cheques

ChequesAscend-filter :
    (p : Cheque → Bool) (cs : List Cheque) → ChequesAscend cs → ChequesAscend (filter p cs)
ChequesAscend-filter p [] h = tt
ChequesAscend-filter p (c ∷ cs) h = elim (Bool-cases (p c)) [
  | inl e ↦
      rw e
        (All-filter (λ d. Cheque.index c < Cheque.index d) p cs h.0, ChequesAscend-filter p cs h.1)
  | inr e ↦ rw e (ChequesAscend-filter p cs h.1)
]

module _ (P : Primitives) (key tag : Bytes) (useds : List Used) (upper : Duration) where
  abbrev active : Cheque → Bool
  active c = is_active useds upper (Cheque.index c) (Cheque.timeout c)

  active-IsGood :
      (c : Cheque)
      → IsSigned P key tag c
      → HasLatch c
      → InClock (Cheque.timeout c)
      → active c ≡ true
      → IsGood P (some (as_millis upper)) key tag c
  active-IsGood (unlocked w) signed long clock h =
      let soon : upper < w.body.timeout = ground (arith, h) in
      let early = as_millis_mono upper w.body.timeout (omega arith) clock in
      (ground (arith, signed, long), ground (arith, early))
  active-IsGood (locked l) signed long clock h = signed

  active_cheques-IsGood :
      (cs : List Cheque)
      → All (IsSigned P key tag) cs
      → All HasLatch cs
      → All (λ c. InClock (Cheque.timeout c)) cs
      → All (IsGood P (some (as_millis upper)) key tag) (active_cheques cs useds upper)
  unfolding active_cheques
  active_cheques-IsGood [] s l k = tt
  active_cheques-IsGood (c ∷ cs) s l k = elim (Bool-cases (active c)) [
    | inl e ↦ rw e (active-IsGood c s.0 l.0 k.0 e, active_cheques-IsGood cs s.1 l.1 k.1)
    | inr e ↦ rw e (active_cheques-IsGood cs s.1 l.1 k.1)
  ]

  active_cheques-UnusedBy : (cs : List Cheque) → UnusedBy useds (active_cheques cs useds upper)
  unfolding active_cheques
  active_cheques-UnusedBy [] = tt
  active_cheques-UnusedBy (c ∷ cs) = elim (Bool-cases (active c)) [
    | inl e ↦ rw e (absent useds (Cheque.index c) (ground (arith, e)), active_cheques-UnusedBy cs)
    | inr e ↦ rw e (active_cheques-UnusedBy cs)
  ]

-- No item of the history is settled by the squash.
abbrev pub IsUnsquashed : Squash → List Used → Type 0
IsUnsquashed squash = All (λ (u : Used). is_index_squashed squash u.index ≡ false)

pub owed_useds-all :
    (squash : Squash) (useds : List Used)
    → IsUnsquashed squash useds
    → owed_useds useds squash ≡ useds
unfolding owed_useds
owed_useds-all squash [] h = refl
owed_useds-all squash (u ∷ useds) h = rw h.0 (ap (◌∷◌ u) (owed_useds-all squash useds h.1))

ghost-Allows :
    (squash : Squash) (cs : List Cheque)
    → SquashBody.IsValid squash.body
    → All (λ c. is_index_squashed squash (Cheque.index c) ≡ false) cs
    → Allows squash.body.index squash.body.excludes (map ghost cs)
ghost-Allows squash [] v h = tt
ghost-Allows squash (unlocked w ∷ cs) v h =
    (Allowed-unsquashed squash w.body.index v h.0, ghost-Allows squash cs v h.1)
ghost-Allows squash (locked l ∷ cs) v h =
    (Allowed-unsquashed squash l.body.index v h.0, ghost-Allows squash cs v h.1)

useds-Allows :
    (squash : Squash) (us : List Used)
    → SquashBody.IsValid squash.body
    → IsUnsquashed squash us
    → Allows squash.body.index squash.body.excludes us
useds-Allows squash [] v h = tt
useds-Allows squash (u ∷ us) v h =
    (Allowed-unsquashed squash u.index v h.0, useds-Allows squash us v h.1)

pub map-pend_of : (ls : List Locked) → map pend_of (map pending_of ls) ≡ map locked_pend ls
map-pend_of [] = refl
map-pend_of (l ∷ ls) = ap (◌∷◌ (locked_pend l)) (map-pend_of ls)

pub total-pending_of :
    (ls : List Locked) → total pending_amount (map pending_of ls) ≡ total locked_amount ls
total-pending_of [] = refl
total-pending_of (l ∷ ls) = omega (arith, total-pending_of ls)

-- The fold of the script ends in the amount of the squash, all of the history and the unlocked cheques.
pub active_cheques-account :
    (P : Primitives) (key tag : Bytes) (squash : Squash) (cheques : List Cheque) (useds : List Used)
    (upper : Duration)
    → IsResponse P key tag squash cheques
    → UsedsAscend useds
    → IsUnsquashed squash useds
    → IsCovered (active_cheques cheques useds upper) useds
    → let cs = active_cheques cheques useds upper in
      account P
        (some (as_millis upper))
        key
        tag
        useds
        squash
        cs
        (total locked_amount (filter_map as_locked cs))
        (pends_of cs)
      ≡ some (
          squash.body.amount
          + (total used_amount useds + total unlocked_amount (filter_map as_unlocked cs)))
unfolding active_cheques
active_cheques-account P key tag squash cheques useds upper response history unsquashed covered =
    let cs = active_cheques cheques useds upper in
    let p = λ (c : Cheque). is_active useds upper (Cheque.index c) (Cheque.timeout c) in
    let unsettled =
      All-filter (λ c. is_index_squashed squash (Cheque.index c) ≡ false) p cheques
        response.unsettled in
    let (outs, threaded, all_of, sum) =
      thread useds cs history (ChequesAscend-filter p cheques response.ascending)
        (active_cheques-UnusedBy P key tag useds upper cheques) covered in
    let folds =
      thread-Folds P (some (as_millis upper)) key tag squash.body.amount squash.body.index 0
        squash.body.excludes response.body_valid.ascending
        (all_of (λ u. Allowed squash.body.index squash.body.excludes u.index)
          (useds-Allows squash useds response.body_valid unsquashed)
          (ghost-Allows squash cs response.body_valid unsettled))
        (active_cheques-IsGood P key tag useds upper cheques response.cheques_signed
          response.latches response.in_clock)
        threaded in
    subst
      (λ n.
        account P (some (as_millis upper)) key tag useds squash cs
          (total locked_amount (filter_map as_locked cs)) (pends_of cs)
        ≡ some (squash.body.amount + n))
      sum
      (Folds-account P (some (as_millis upper)) key tag squash cs useds (pends_of cs) _ _
        response.squash_signed folds)
