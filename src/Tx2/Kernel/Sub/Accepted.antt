-- ===== src/Tx2/Kernel/Sub/Accepted.antt =====
-- packages/konduit/tx2/src/channel.rs, `want_sub`, against packages/kernel/lib/konduit/steps/sub.ak.
use konduit.Base.{
  ℕ, ◌+◌, ◌-◌, ◌<◌, ◌≤◌, ◌≡◌, ◌≢◌, refl, subst, min, false, List, [], ◌∷◌, map, ok, total,
  total-filter_le, arith, u64_mod, add64, add64-eq, sum64, sum64-eq, not, ◌==◌,
}
use konduit.Data.Primitives.{Primitives}
use konduit.Data.Duration.{Duration}
use konduit.Data.Cheque.{Unlocked}
use konduit.Data.Signed.{Squash, is_index_squashed}
use konduit.Data.Stage.{Stage, opened, Used, used_of}
use konduit.Tx2.Interval.{Interval}
use konduit.Tx2.Step.{Channel, Want, Will, WillCont, signer, is_adaptor}
use konduit.Tx2.Channel.{
  buffered_amount, min_ada_buffer, used_amount, is_active, active_unlockeds, owed_useds, prep_sub,
}
use konduit.Tx2.Channel.Useds.{prep_sub-useds}
use konduit.Tx2.Resolve.{resolve}
use konduit.Tx2.Resolve.Inversion.{resolve-Outcome}
use konduit.Tx2.Kernel.{datum}
use konduit.Tx2.Kernel.Accepted.{bound_of}
use konduit.Tx2.Kernel.Sub.{Sub}
use konduit.Tx2.Kernel.Sub.Weave.{Weave-UsedsAscend}
use konduit.Tx2.Kernel.Sub.Prepared.{IsHistory, IsEvidence, prep_sub-Weave, prep_sub-account}

abbrev pub unlocked_amount : Unlocked → ℕ
unlocked_amount w = w.body.amount

-- All that a channel could owe: the squash, the history and the cheques.
abbrev claimable : Stage → Squash → List Unlocked → ℕ
claimable (opened subbed useds) squash cheques =
    squash.body.amount + total used_amount useds + total unlocked_amount cheques
claimable _ squash cheques = 0

total-used_of : (ws : List Unlocked) → total used_amount (map used_of ws) ≡ total unlocked_amount ws
total-used_of [] = refl
total-used_of (w ∷ ws) = omega (arith, total-used_of ws)

-- What is owed after a sub is no more than what could be.
owed_le :
    (squash : Squash) (cheques : List Unlocked) (useds : List Used) (upper : Duration)
    → total used_amount (prep_sub squash cheques useds upper).1
      ≤ total used_amount useds + total unlocked_amount cheques
unfolding owed_useds active_unlockeds
owed_le squash cheques useds upper =
    let (_, sum) = prep_sub-useds squash cheques useds upper used_amount in
    omega (
      arith,
      sum,
      total-used_of (active_unlockeds cheques useds upper),
      total-filter_le used_amount (λ u. not (is_index_squashed squash u.index)) useds,
      total-filter_le unlocked_amount (λ c. is_active useds upper c.body.index c.body.timeout)
          cheques,
    )

gain-within :
    (owed amount subbed : ℕ)
    → (min (owed - subbed) amount == 0) ≡ false
    → (subbed + min (owed - subbed) amount ≤ owed) × (min (owed - subbed) amount ≤ amount)
gain-within owed amount subbed h =
    let some_gain : min (owed - subbed) amount ≢ 0 = ground arith in
    (omega (arith, some_gain), omega arith)

-- The script on chain accepts every sub that resolve makes from the evidence of a receipt, and the
-- history that it leaves is in order again. For a history in order, a stage of the channel that could
-- owe no more than fits in 64 bits, and an amount that fits with the buffer.
pub sub-accepted :
    (P : Primitives) (ch : Channel) (i : Interval) (squash : Squash) (cheques : List Unlocked)
    (w : Will)
    → IsHistory ch.stage
    → IsEvidence P ch.constants.add_vkey ch.constants.tag squash cheques
    → claimable ch.stage squash cheques < u64_mod
    → ch.amount + min_ada_buffer < u64_mod
    → resolve P ch (Want.sub squash cheques) i ≡ ok w
    → (out : Channel) × (unlockeds : List Unlocked) × (gain : ℕ) × (w
        ≡ Will.cont out (WillCont.sub squash unlockeds gain))
      × IsHistory out.stage
      × Sub P
          (bound_of i.upper)
          ch.constants
          (buffered_amount ch)
          (datum ch.stage)
          (buffered_amount out)
          (datum out.stage)
          squash
          unlockeds
          (signer w ch.constants)
unfolding buffered_amount signer is_adaptor prep_sub
sub-accepted P ch i squash cheques w history evidence fits room h =
    let (subbed, useds, upper, stage, u, guard, made) =
      resolve-Outcome P ch (Want.sub squash cheques) i w h in
    let key = ch.constants.add_vkey in
    let tag = ch.constants.tag in
    let in_order = subst IsHistory stage history in
    let fit = subst (λ s. claimable s squash cheques < u64_mod) stage fits in
    let outs = (prep_sub squash cheques useds upper).1 in
    let owes = owed_le squash cheques useds upper in
    let sum = sum64-eq used_amount outs (omega arith) in
    let owed = add64 squash.body.amount (sum64 used_amount outs) in
    let whole = add64-eq squash.body.amount (sum64 used_amount outs) (omega (arith, sum)) in
    let gain = min (owed - subbed) ch.amount in
    let (within, held) = gain-within owed ch.amount subbed guard in
    let subbed_out = add64-eq subbed gain (omega (arith, whole, sum)) in
    let value_in = add64-eq ch.amount min_ada_buffer room in
    let value_out = add64-eq (ch.amount - gain) min_ada_buffer (omega arith) in
    (
      _,
      _,
      _,
      made,
      Weave-UsedsAscend (prep_sub-Weave P key tag squash cheques useds upper evidence in_order),
      rw made (
          rw (stage, u)
            (
              omega (arith, subbed_out, value_in, value_out),
              _,
              prep_sub-account P key tag squash cheques useds upper evidence in_order,
              omega (arith, subbed_out, whole, sum),
              refl,
            )),
    )
