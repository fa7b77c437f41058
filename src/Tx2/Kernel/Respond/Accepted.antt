-- ===== src/Tx2/Kernel/Respond/Accepted.antt =====
-- packages/konduit/tx2/src/channel.rs, `want_respond`, against packages/kernel/lib/konduit/steps/respond.ak.
use konduit.Base.{
  ℕ, ◌+◌, ◌-◌, ◌<◌, ◌≤◌, ◌≡◌, refl, subst, sym, ◌∙◌, min, some, List, [], ◌∷◌, map, ok, total,
  total-filter_le, filter_map, arith, u64_mod, add64, add64-eq, sum64, sum64-eq,
}
use konduit.Data.Primitives.{Primitives}
use konduit.Data.Duration.{Duration, as_millis}
use konduit.Data.Cheque
use konduit.Data.Cheque.{Cheque, locked, unlocked, as_locked, as_unlocked}
use konduit.Data.Signed.{Squash}
use konduit.Data.Stage.{closed, Used, pending_of}
use konduit.Tx2.Interval.{Interval}
use konduit.Tx2.Step.{Channel, Want, Will, WillCont, signer, is_adaptor}
use konduit.Tx2.Channel.{
  buffered_amount, min_ada_buffer, used_amount, pending_amount, is_active, active_cheques,
  owed_useds, prep_respond,
}
use konduit.Tx2.Closing.{respond_from, pendings_amount}
use konduit.Tx2.Resolve.{resolve}
use konduit.Tx2.Resolve.Inversion.{resolve-Outcome}
use konduit.Tx2.Kernel.{datum}
use konduit.Tx2.Kernel.Sub.Weave.{UsedsAscend}
use konduit.Tx2.Kernel.Respond.{Respond}
use konduit.Tx2.Kernel.Respond.Thread.{IsCovered, unlocked_amount}
use konduit.Tx2.Kernel.Respond.Fold.{locked_amount}
use konduit.Tx2.Kernel.Respond.Prepared.{
  IsResponse, IsUnsquashed, owed_useds-all, map-pend_of, total-pending_of, active_cheques-account,
}

total-unlocked :
    (cs : List Cheque) → total unlocked_amount (filter_map as_unlocked cs) ≤ total Cheque.amount cs
total-unlocked [] = omega arith
total-unlocked (unlocked w ∷ cs) = omega (arith, total-unlocked cs)
total-unlocked (locked l ∷ cs) = omega (arith, total-unlocked cs)

total-locked :
    (cs : List Cheque) → total locked_amount (filter_map as_locked cs) ≤ total Cheque.amount cs
total-locked [] = omega arith
total-locked (unlocked w ∷ cs) = omega (arith, total-locked cs)
total-locked (locked l ∷ cs) = omega (arith, total-locked cs)

total-active_cheques :
    (cheques : List Cheque) (useds : List Used) (upper : Duration)
    → total Cheque.amount (active_cheques cheques useds upper) ≤ total Cheque.amount cheques
unfolding active_cheques
total-active_cheques cheques useds upper =
    total-filter_le Cheque.amount (λ c. is_active useds upper (Cheque.index c) (Cheque.timeout c))
      cheques

-- What the script demands of the amounts, and of the two data, for the step that is made.
respond_from-Respond :
    (P : Primitives) (ch : Channel) (squash : Squash) (cheques : List Cheque) (subbed : ℕ)
    (useds : List Used) (elapse_at upper : Duration)
    → UsedsAscend useds
    → IsUnsquashed squash useds
    → IsCovered (active_cheques cheques useds upper) useds
    → IsResponse P ch.constants.add_vkey ch.constants.tag squash cheques
    → subbed ≤ squash.body.amount + total used_amount useds
    → squash.body.amount + total used_amount useds + total Cheque.amount cheques < u64_mod
    → ch.amount + min_ada_buffer < u64_mod
    → (out : Channel) × (cs : List Cheque) × (gain : ℕ) × (respond_from ch squash subbed
          (prep_respond squash cheques useds upper)
        ≡ Will.cont out (WillCont.respond squash cs gain))
      × Respond P
          (some (as_millis upper))
          ch.constants
          (buffered_amount ch)
          (datum (closed subbed useds elapse_at))
          (buffered_amount out)
          (datum out.stage)
          squash
          cs
          ch.constants.sub_vkey
unfolding respond_from prep_respond buffered_amount
respond_from-Respond P ch squash cheques subbed useds elapse_at upper history unsquashed covered
      response owed_before fits room =
    let cs = active_cheques cheques useds upper in
    let ls = filter_map as_locked cs in
    let ws = filter_map as_unlocked cs in
    let few = total-active_cheques cheques useds upper in
    let unlocked_le = total-unlocked cs in
    let locked_le = total-locked cs in
    let sum_useds = sum64-eq used_amount useds (omega arith) in
    let sum_unlocked = sum64-eq unlocked_amount ws (omega arith) in
    let pending_total = total-pending_of ls in
    let sum_locked = sum64-eq pending_amount (map pending_of ls) (omega arith) in
    let all_useds = owed_useds-all squash useds unsquashed in
    let first = add64-eq (sum64 used_amount useds) (sum64 unlocked_amount ws) (omega arith) in
    let second =
      add64-eq squash.body.amount (add64 (sum64 used_amount useds) (sum64 unlocked_amount ws))
        (omega arith) in
    let value_in = add64-eq ch.amount min_ada_buffer room in
    let pendings : pendings_amount (map pending_of ls) ≡ total locked_amount ls =
      omega (arith, sum_locked, pending_total) in
    let account_eq =
      active_cheques-account P ch.constants.add_vkey ch.constants.tag squash cheques useds upper
        response history unsquashed covered in
    let owed =
      add64 squash.body.amount
        (add64 (sum64 used_amount (owed_useds useds squash)) (sum64 unlocked_amount ws)) in
    let whole : owed ≡ squash.body.amount + (total used_amount useds + total unlocked_amount ws) =
      rw all_useds (omega (arith, first, second, sum_useds, sum_unlocked)) in
    let gain = min (owed - subbed) ch.amount in
    let value_out = add64-eq (ch.amount - gain) min_ada_buffer (omega arith) in
    (
      _,
      _,
      _,
      refl,
      (
        squash.body.amount + (total used_amount useds + total unlocked_amount ws),
        rw (pendings, map-pend_of ls) account_eq,
        omega (arith, whole, value_in, value_out),
        refl,
      ),
    )

-- The script on chain accepts every respond that resolve makes from the evidence of a receipt, where no
-- item of the history is settled by the squash, every item comes before some cheque of the respond,
-- and what was subbed is owed by the squash and the history. For a history in order, an interval up to
-- an upper bound, and sums that fit in 64 bits.
pub respond-accepted :
    (P : Primitives) (ch : Channel) (i : Interval) (squash : Squash) (cheques : List Cheque)
    (w : Will) (subbed : ℕ) (useds : List Used) (elapse_at upper : Duration)
    → ch.stage ≡ closed subbed useds elapse_at
    → i.upper ≡ some upper
    → UsedsAscend useds
    → IsUnsquashed squash useds
    → IsCovered (active_cheques cheques useds upper) useds
    → IsResponse P ch.constants.add_vkey ch.constants.tag squash cheques
    → subbed ≤ squash.body.amount + total used_amount useds
    → squash.body.amount + total used_amount useds + total Cheque.amount cheques < u64_mod
    → ch.amount + min_ada_buffer < u64_mod
    → resolve P ch (Want.respond squash cheques) i ≡ ok w
    → (out : Channel) × (cs : List Cheque) × (gain : ℕ) × (w
        ≡ Will.cont out (WillCont.respond squash cs gain))
      × Respond P
          (some (as_millis upper))
          ch.constants
          (buffered_amount ch)
          (datum ch.stage)
          (buffered_amount out)
          (datum out.stage)
          squash
          cs
          (signer w ch.constants)
unfolding signer is_adaptor
respond-accepted P ch i squash cheques w subbed useds elapse_at upper stage bounded history
      unsquashed covered response owed_before fits room h =
    let (s, us, e, u, stage2, bounded2, _, made) =
      resolve-Outcome P ch (Want.respond squash cheques) i w h in
    let same_s : s ≡ subbed = cc in
    let same_us : us ≡ useds = cc in
    let same_u : u ≡ upper = cc in
    let made_here : w ≡ respond_from ch squash subbed (prep_respond squash cheques useds upper) =
      cc in
    let (out, cs, gain, step, accepted) =
      respond_from-Respond P ch squash cheques subbed useds elapse_at upper history unsquashed
        covered response owed_before fits room in
    let shape = made_here ∙ step in
    let on_record =
      subst
        (λ st.
          Respond P (some (as_millis upper)) ch.constants (buffered_amount ch) (datum st)
            (buffered_amount out) (datum out.stage) squash cs ch.constants.sub_vkey)
        (sym stage) accepted in
    (out, cs, gain, shape, rw shape on_record)
