-- ===== src/Tx2/Closing.antt =====
-- packages/konduit/tx2/src/channel.rs: closing a channel, and the steps of a closed one.
use konduit.Base.{
  ℕ, ◌-◌, Option, none, some, List, Result, ok, err, ◌>>=◌, ◌>>◌, leb, add64, sum64, refuse_if,
  ok_or,
}
use konduit.Data.Duration
use konduit.Data.Duration.{Duration}
use konduit.Data.Cheque.{Cheque}
use konduit.Data.Signed.{Squash}
use konduit.Data.Stage.{Stage, opened, closed, responded, Pending}
use konduit.Tx2.Interval.{Interval}
use konduit.Tx2.Step.{Channel, Will, WillCont, WillEol, Error, pair, bound, label}
use konduit.Tx2.Channel.{prep_respond, stepped, gain_of, upper_of, lower_of, pending_amount}

abbrev pub close_at : Channel → Interval → Stage → Result Error Will
close_at ch interval (opened subbed useds) = do
  upper ← upper_of interval "close requires an interval upper bound"
  elapse_at ← Duration.add upper ch.constants.close_period
  ok (Will.cont (stepped ch ch.amount (closed subbed useds elapse_at)) WillCont.close)
close_at ch interval stage = err (pair (label stage) "Close")

unfoldable pub want_close : Channel → Interval → Result Error Will
want_close ch interval = close_at ch interval ch.stage

abbrev pub pendings_amount : List Pending → ℕ
pendings_amount pendings = sum64 pending_amount pendings

unfoldable pub respond_from : Channel → Squash → ℕ → List Cheque × List Pending × ℕ → Will
respond_from ch squash subbed (out_cheques, pendings, useds_amount) =
    let gain = gain_of ch (add64 squash.body.amount useds_amount) subbed in
    Will.cont (stepped ch (ch.amount - gain) (responded (pendings_amount pendings) pendings))
      (WillCont.respond squash out_cheques gain)

abbrev pub respond_at : Channel → Squash → List Cheque → Interval → Stage → Result Error Will
respond_at ch squash cheques interval (closed subbed useds elapse_at) = do
  upper ← upper_of interval "respond requires an interval upper bound"
  refuse_if (leb elapse_at upper) (bound "respond interval not strictly before elapse_at")
  ok (respond_from ch squash subbed (prep_respond squash cheques useds upper))
respond_at ch squash cheques interval stage = err (pair (label stage) "Respond")

unfoldable pub want_respond : Channel → Squash → List Cheque → Interval → Result Error Will
want_respond ch squash cheques interval = respond_at ch squash cheques interval ch.stage

abbrev pub elapse_at : Stage → Option Duration
elapse_at (closed subbed useds at) = some at
elapse_at _ = none

unfoldable pub want_elapse : Channel → Interval → Result Error Will
want_elapse ch interval = do
  at ← ok_or (elapse_at ch.stage) (pair (label ch.stage) "Elapse")
  lower ← lower_of interval "elapse requires an interval lower bound"
  refuse_if (leb lower at) (bound "elapse lower not strictly after elapse_at")
  ok (Will.eol (WillEol.elapse lower))
