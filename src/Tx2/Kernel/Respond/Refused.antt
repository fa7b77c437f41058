-- ===== src/Tx2/Kernel/Respond/Refused.antt =====
-- packages/konduit/tx2/src/channel.rs, `want_respond`, and packages/kernel/lib/konduit/steps/respond.ak: where the
-- script refuses what is made, and where it takes too much.
use konduit.Base.{
  map, filter_map, sum64, ℕ, ◌-◌, ◌<◌, ◌≤◌, ◌≡◌, refl, subst, sym, ap, true, false, Option, none,
  some, List, [], ◌∷◌, ok, Bytes, arith, ltb, add64, gt→leb, min,
}
use konduit.Base.Ascending.{contains}
use konduit.Data.Primitives.{Primitives}
use konduit.Data.Duration.{Duration, as_millis}
use konduit.Data.SquashBody
use konduit.Data.SquashBody.Squashing.{is_index_squashed_lem}
use konduit.Data.Cheque
use konduit.Data.Cheque.{Cheque, as_locked, locked, unlocked}
use konduit.Data.Signed.{Squash, is_index_squashed}
use konduit.Data.Stage.{Constants, closed, responded, pending_of, Used}
use konduit.Tx2.Interval.{Interval}
use konduit.Tx2.Step.{Channel, Want, Will, WillCont}
use konduit.Tx2.Channel.{
  active_cheques, prep_respond, buffered_amount, pending_amount, owed_useds, used_amount,
  min_ada_buffer,
}
use konduit.Tx2.Closing.{want_respond, respond_from, pendings_amount}
use konduit.Tx2.Resolve.{resolve}
use konduit.Tx2.Kernel.{Datum, Pend, datum, pend_of}
use konduit.Tx2.Kernel.Evidence.{drop_hard, next_index}
use konduit.Tx2.Kernel.Respond.Thread.{unlocked_amount}
use konduit.Tx2.Kernel.Respond.{Respond, State, state, reduce_useds, with_cheque, fold, account}

-- Beside any respond that the script accepts, it accepts those that leave less in the channel, down to
-- nothing, with the same evidence and the same pendings.
pub Respond-drains :
    (P : Primitives) (upper : Option ℕ) (constants : Constants) (value_in value_out less : ℕ)
    (stage_in stage_out : Datum) (squash : Squash) (cheques : List Cheque) (key : Bytes)
    → less ≤ value_out
    → Respond P upper constants value_in stage_in value_out stage_out squash cheques key
    → Respond P upper constants value_in stage_in less stage_out squash cheques key
Respond-drains P upper constants value_in value_out less (Datum.closed subbed useds at)
      (Datum.responded amount pends) squash cheques key h (owed, account_eq, within, signed) =
    (owed, account_eq, omega arith, signed)
Respond-drains P upper constants value_in value_out less (Datum.closed subbed useds at)
      (Datum.opened _ _) squash cheques key h accepted =
    absurd accepted
Respond-drains P upper constants value_in value_out less (Datum.closed subbed useds at)
      (Datum.closed _ _ _) squash cheques key h accepted =
    absurd accepted
Respond-drains P upper constants value_in value_out less (Datum.opened _ _) stage_out squash cheques
      key h accepted =
    absurd accepted
Respond-drains P upper constants value_in value_out less (Datum.responded _ _) stage_out squash
      cheques key h accepted =
    absurd accepted

drop_hard-none : (xs : List ℕ) (i : ℕ) → contains xs i ≡ false → drop_hard xs i ≡ none
unfolding drop_hard
drop_hard-none [] i h = refl
drop_hard-none (x ∷ xs) i h = ground (arith, drop_hard-none xs i)

next_index-squashed :
    (squash : Squash) (i : ℕ)
    → SquashBody.IsValid squash.body
    → is_index_squashed squash i ≡ true
    → next_index squash.body.index squash.body.excludes i ≡ none
unfolding next_index
next_index-squashed squash i v h =
    let member = is_index_squashed_lem squash.body i v in
    let out : contains squash.body.excludes i ≡ false = ground (arith, h, member) in
    let low : ltb squash.body.index i ≡ false = ground (arith, h, member) in
    rw (low, drop_hard-none squash.body.excludes i out) refl

reduce_useds-none :
    (u : Used) (useds : List Used) (ub owed index : ℕ) (exclude : List ℕ)
    → u.index ≤ ub
    → next_index index exclude u.index ≡ none
    → reduce_useds (u ∷ useds) ub owed index exclude ≡ none
unfolding reduce_useds
reduce_useds-none u useds ub owed index exclude h e = ground (arith, e)

module _ (P : Primitives) (upper : Option ℕ) (key tag : Bytes) where
  with_cheque-none :
      (c : Cheque) (s : State)
      → reduce_useds s.useds (Cheque.index c) s.owed s.index s.exclude ≡ none
      → with_cheque P upper key tag c s ≡ none
  with_cheque-none (unlocked w) s e = ground (arith, e)
  with_cheque-none (locked l) s e = ground (arith, e)

  -- A first item of the history that is settled ends the fold.
  account-squashed :
      (squash : Squash) (u : Used) (useds : List Used) (c : Cheque) (cs : List Cheque) (n : ℕ)
      (pends : List Pend)
      → SquashBody.IsValid squash.body
      → is_index_squashed squash u.index ≡ true
      → u.index ≤ Cheque.index c
      → account P upper key tag (u ∷ useds) squash (c ∷ cs) n pends ≡ none
  unfolding account fold
  account-squashed squash u useds c cs n pends v h le =
      let stuck =
        reduce_useds-none u useds (Cheque.index c) squash.body.amount squash.body.index
          squash.body.excludes le (next_index-squashed squash u.index v h) in
      let ended =
        with_cheque-none c
          (state squash.body.amount (u ∷ useds) squash.body.index squash.body.excludes 0 pends)
          stuck in
      ground (arith, ended)

  account-empty :
      (squash : Squash) (useds : List Used) (n owed : ℕ) (pends : List Pend)
      → account P upper key tag useds squash [] n pends ≡ some owed
      → owed ≡ squash.body.amount
  unfolding account fold
  account-empty squash useds n owed [] h = ground (arith, h)
  account-empty squash useds n owed (p ∷ pends) h = ground (arith, h)

-- What resolve makes of a wish to respond in time.
resolve-respond :
    (P : Primitives) (ch : Channel) (i : Interval) (squash : Squash) (cheques : List Cheque)
    (subbed : ℕ) (useds : List Used) (elapse_at upper : Duration)
    → ch.stage ≡ closed subbed useds elapse_at
    → i.upper ≡ some upper
    → upper < elapse_at
    → resolve P ch (Want.respond squash cheques) i
      ≡ ok (respond_from ch squash subbed (prep_respond squash cheques useds upper))
unfolding resolve want_respond
resolve-respond P ch i squash cheques subbed useds elapse_at upper stage bounded in_time =
    rw (stage, bounded, gt→leb elapse_at upper in_time) refl

-- Where the first item of the history is settled by the squash and a cheque comes after it, resolve
-- makes a respond in time, and the script on chain refuses it, whatever the amounts and the key.
pub squashed-refused :
    (P : Primitives) (ch : Channel) (i : Interval) (squash : Squash) (cheques : List Cheque)
    (subbed : ℕ) (u : Used) (useds : List Used) (elapse_at upper : Duration) (c : Cheque)
    (cs : List Cheque)
    → ch.stage ≡ closed subbed (u ∷ useds) elapse_at
    → i.upper ≡ some upper
    → upper < elapse_at
    → SquashBody.IsValid squash.body
    → is_index_squashed squash u.index ≡ true
    → active_cheques cheques (u ∷ useds) upper ≡ c ∷ cs
    → u.index ≤ Cheque.index c
    → (out : Channel) × (gain : ℕ) × (resolve P ch (Want.respond squash cheques) i
        ≡ ok (Will.cont out (WillCont.respond squash (c ∷ cs) gain)))
      × ((value_in value_out : ℕ) (key : Bytes)
          → ¬ Respond P
              (some (as_millis upper))
              ch.constants
              value_in
              (datum ch.stage)
              value_out
              (datum out.stage)
              squash
              (c ∷ cs)
              key)
unfolding respond_from prep_respond
squashed-refused P ch i squash cheques subbed u useds elapse_at upper c cs stage bounded in_time
      valid settled active le =
    let pendings = map pending_of (filter_map as_locked (c ∷ cs)) in
    let made =
      resolve-respond P ch i squash cheques subbed (u ∷ useds) elapse_at upper stage bounded
        in_time in
    (
      _,
      _,
      rw active at made,
      (λ value_in value_out key.
          subst
            (λ st.
              ¬ Respond P (some (as_millis upper)) ch.constants value_in (datum st) value_out
                (datum (responded (sum64 pending_amount pendings) pendings)) squash (c ∷ cs) key)
            (sym stage)
            (λ (owed, account_eq, _, _).
              let stuck =
                account-squashed P (some (as_millis upper)) ch.constants.add_vkey ch.constants.tag
                  squash u useds c cs (pendings_amount pendings) (map pend_of pendings) valid
                  settled le in
              cc)),
    )

-- Where no cheque is left, the script counts no item of the history: where all that is owed has been
-- subbed, and the squash alone owes less, resolve makes a respond in time that gains nothing, and the
-- script on chain refuses it, whatever the key.
pub uncovered-refused :
    (P : Primitives) (ch : Channel) (i : Interval) (squash : Squash) (cheques : List Cheque)
    (subbed : ℕ) (useds : List Used) (elapse_at upper : Duration)
    → ch.stage ≡ closed subbed useds elapse_at
    → i.upper ≡ some upper
    → upper < elapse_at
    → active_cheques cheques useds upper ≡ []
    → add64 squash.body.amount (prep_respond squash cheques useds upper).2 ≤ subbed
    → squash.body.amount < subbed
    → (out : Channel) × (resolve P ch (Want.respond squash cheques) i
        ≡ ok (Will.cont out (WillCont.respond squash [] 0)))
      × ((key : Bytes)
          → ¬ Respond P
              (some (as_millis upper))
              ch.constants
              (buffered_amount ch)
              (datum ch.stage)
              (buffered_amount out)
              (datum out.stage)
              squash
              []
              key)
unfolding respond_from buffered_amount prep_respond
uncovered-refused P ch i squash cheques subbed useds elapse_at upper stage bounded in_time none_left
      paid less =
    let made =
      resolve-respond P ch i squash cheques subbed useds elapse_at upper stage bounded in_time in
    let nothing : add64 squash.body.amount
          (add64 (sum64 used_amount (owed_useds useds squash)) (sum64 unlocked_amount []))
        ≤ subbed =
      rw none_left at paid in
    let whole : ch.amount - 0 ≡ ch.amount = omega arith in
    let same : add64 (ch.amount - 0) min_ada_buffer ≡ buffered_amount ch =
      ap (λ n. add64 n min_ada_buffer) whole in
    let no_gain : min
          (add64 squash.body.amount
              (add64 (sum64 used_amount (owed_useds useds squash)) (sum64 unlocked_amount []))
            - subbed)
          ch.amount
        ≡ 0 =
      omega (arith, nothing) in
    (
      _,
      rw (none_left, no_gain) at made,
      (λ key.
          subst
            (λ st.
              ¬ Respond P (some (as_millis upper)) ch.constants (buffered_amount ch) (datum st)
                (add64 (ch.amount - 0) min_ada_buffer)
                (datum (responded (sum64 pending_amount []) [])) squash [] key)
            (sym stage)
            (λ (owed, account_eq, within, _).
              let only =
                account-empty P (some (as_millis upper)) ch.constants.add_vkey ch.constants.tag
                  squash useds (pendings_amount []) owed [] account_eq in
              omega (arith, only, within, less, same))),
    )
