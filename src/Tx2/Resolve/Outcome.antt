-- ===== src/Tx2/Resolve/Outcome.antt =====
-- packages/konduit/tx2/src/channel.rs: the steps that `resolve` makes, one case for each wish. Each
-- case names the stage and the bound that the step needs, its guard, and what the step is.
use konduit.Base.{
  ℕ, ◌+◌, ◌-◌, ◌≤◌, ◌<◌, ◌≡◌, false, Option, none, some, List, map, All, ◌==◌, all, add64, sum64,
}
use konduit.Data.Duration.{Duration, max_duration}
use konduit.Data.Primitives.{Primitives}
use konduit.Data.Cheque.{Cheque, Secret, Unlocked}
use konduit.Data.Signed.{Squash}
use konduit.Data.Stage.{opened, closed, responded, Used, Pending, is_continue}
use konduit.Tx2.Interval.{Interval}
use konduit.Tx2.Step.{Channel, Want, Will, WillCont, WillEol}
use konduit.Tx2.Channel.{prep_sub, prep_respond, stepped, gain_of, used_amount}
use konduit.Tx2.Closing.{respond_from}
use konduit.Tx2.Pendings.{unlock_with, unlock_unpend, expire_with, expire_unpend}

abbrev sub_gain : Channel → Squash → ℕ → List Used → ℕ
sub_gain ch squash subbed useds =
    gain_of ch (add64 squash.body.amount (sum64 used_amount useds)) subbed

abbrev pub Added : Channel → ℕ → Will → Type 0
Added ch amount w =
    (subbed : ℕ) × (useds : List Used) × (ch.stage ≡ opened subbed useds)
    × ((amount == 0) ≡ false)
    × (w ≡ Will.cont (stepped ch (add64 ch.amount amount) ch.stage) (WillCont.add amount))

abbrev pub Subbed : Channel → Interval → Squash → List Unlocked → Will → Type 0
Subbed ch i squash cheques w =
    (subbed : ℕ) × (useds : List Used) × (upper : Duration) × (ch.stage ≡ opened subbed useds)
    × (i.upper ≡ some upper)
    × ((sub_gain ch squash subbed (prep_sub squash cheques useds upper).1 == 0) ≡ false)
    × (w ≡ (
        let (unlockeds, used) = prep_sub squash cheques useds upper in
        let gain = sub_gain ch squash subbed used in
        Will.cont (stepped ch (ch.amount - gain) (opened (add64 subbed gain) used))
          (WillCont.sub squash unlockeds gain)))

abbrev pub Closed : Channel → Interval → Will → Type 0
Closed ch i w =
    (subbed : ℕ) × (useds : List Used) × (upper : Duration) × (ch.stage ≡ opened subbed useds)
    × (i.upper ≡ some upper)
    × (upper + ch.constants.close_period ≤ max_duration)
    × (w
        ≡ Will.cont (stepped ch ch.amount (closed subbed useds (upper + ch.constants.close_period)))
            WillCont.close)

abbrev pub Responded : Channel → Interval → Squash → List Cheque → Will → Type 0
Responded ch i squash cheques w =
    (subbed : ℕ) × (useds : List Used) × (elapse_at : Duration) × (upper : Duration) × (ch.stage
      ≡ closed subbed useds elapse_at)
    × (i.upper ≡ some upper)
    × (upper < elapse_at)
    × (w ≡ respond_from ch squash subbed (prep_respond squash cheques useds upper))

abbrev pub Elapsed : Channel → Interval → Will → Type 0
Elapsed ch i w =
    (subbed : ℕ) × (useds : List Used) × (elapse_at : Duration) × (lower : Duration) × (ch.stage
      ≡ closed subbed useds elapse_at)
    × (i.lower ≡ some lower)
    × (elapse_at < lower)
    × (w ≡ Will.eol (WillEol.elapse lower))

abbrev pub TimedOut : Option Duration → Pending → Type 0
TimedOut none p = ⊥
TimedOut (some lower) p = p.timeout < lower

abbrev pub Ended : Channel → Interval → Will → Type 0
Ended ch i w =
    (amount : ℕ) × (pendings : List Pending) × (ch.stage ≡ responded amount pendings)
    × All (TimedOut i.lower) pendings
    × (w ≡ Will.eol WillEol.end)

abbrev pub Unlocks : Primitives → Channel → Interval → List Secret → Will → Type 0
Unlocks P ch i secrets w =
    (amount : ℕ) × (pendings : List Pending) × (upper : Duration) × (ch.stage
      ≡ responded amount pendings)
    × (i.upper ≡ some upper)
    × (w ≡ unlock_with ch pendings (map (unlock_unpend P secrets upper) pendings))

abbrev pub Expired : Channel → Interval → Will → Type 0
Expired ch i w =
    (amount : ℕ) × (pendings : List Pending) × (lower : Duration) × (ch.stage
      ≡ responded amount pendings)
    × (i.lower ≡ some lower)
    × (all is_continue (map (expire_unpend lower) pendings) ≡ false)
    × (w ≡ expire_with ch pendings (map (expire_unpend lower) pendings))

abbrev pub Outcome : Primitives → Channel → Want → Interval → Will → Type 0
Outcome P ch (Want.add amount) i w = Added ch amount w
Outcome P ch (Want.sub squash cheques) i w = Subbed ch i squash cheques w
Outcome P ch Want.close i w = Closed ch i w
Outcome P ch (Want.respond squash cheques) i w = Responded ch i squash cheques w
Outcome P ch Want.end i w = Ended ch i w
Outcome P ch Want.elapse i w = Elapsed ch i w
Outcome P ch (Want.unlock secrets) i w = Unlocks P ch i secrets w
Outcome P ch Want.expire i w = Expired ch i w
