-- ===== src/Tx2/Tests.antt =====
-- Runs of packages/konduit/tx2/src/channel.rs on concrete channels.
use konduit.Base.{
  ℕ, ◌+◌, ◌*◌, ◌≤◌, ◌<◌, ◌≡◌, refl, ◌↔◌, Bool, true, false, Option, none, some, List, [], ◌∷◌, map,
  any, all, Result, ok, err, arith, All, total, Bytes,
}
use konduit.Data.Duration.{Duration, as_millis, from_millis}
use konduit.Data.Stage.{
  Stage, opened, closed, responded, Constants, Used, Pending, Unpend, continue, expire, unlock,
}
use konduit.Receipt.Tests.{plain, lock7, lock8, secret7}
use konduit.Tx2.Interval.{Interval}
use konduit.Tx2.Step.{Channel, ada, Want, Will, WillCont, WillEol, signer}
use konduit.Tx2.Channel.{
  can, min_ada_buffer, buffered_amount, prep_sub, owed_useds, active_unlockeds,
}
use konduit.Tx2.Resolve.{resolve}
use konduit.Tx2.Kernel.{Expire, Unlock, datum}
use konduit.Tx2.Kernel.Accepted.{expire-accepted}
use konduit.Tx2.Kernel.Refused.{unlock-refused}

abbrev pub constants : Constants
constants = record { tag = []; add_vkey = 1 ∷ []; sub_vkey = 2 ∷ []; close_period = from_millis 50 }

abbrev pub channel_of : ℕ → Stage → Channel
channel_of amount stage = record {
  delegation = none;
  constants = constants;
  amount = amount;
  stage = stage;
  currency = ada;
}

abbrev pub window : Interval
window = record { lower = some (from_millis 100); upper = some (from_millis 120) }

abbrev pub spent : Used
spent = record { index = 1; amount = 3 }

abbrev pub open_channel : Channel
open_channel = channel_of 20 (opened 3 (spent ∷ []))

abbrev pub added : Channel
added = channel_of 25 (opened 3 (spent ∷ []))

open-add : resolve plain open_channel (Want.add 5) window ≡ ok (Will.cont added (WillCont.add 5))
unfolding resolve konduit.Tx2.Channel.want_add konduit.Base.Words.add64
open-add = refl

abbrev closing : Channel
closing = channel_of 20 (closed 3 (spent ∷ []) (from_millis 170))

open-close : resolve plain open_channel Want.close window ≡ ok (Will.cont closing WillCont.close)
unfolding resolve konduit.Tx2.Closing.want_close konduit.Data.Duration.add
open-close = refl

abbrev closed_channel : Channel
closed_channel = channel_of 20 (closed 3 [] (from_millis 90))

closed-elapse :
    resolve plain closed_channel Want.elapse window
    ≡ ok (Will.eol (WillEol.elapse (from_millis 100)))
unfolding resolve konduit.Tx2.Closing.want_elapse
closed-elapse = refl

abbrev pub old : Pending
old = record { amount = 4; timeout = from_millis 80; lock = lock7 }

abbrev pub young : Pending
young = record { amount = 6; timeout = from_millis 300; lock = lock8 }

abbrev passed : Channel
passed = channel_of 20 (responded 4 (old ∷ []))

passed-end : resolve plain passed Want.end window ≡ ok (Will.eol WillEol.end)
unfolding resolve konduit.Tx2.Pendings.want_end
passed-end = refl

abbrev waiting : Channel
waiting = channel_of 20 (responded 10 (old ∷ young ∷ []))

abbrev expired : Channel
expired = channel_of 6 (responded 6 (young ∷ []))

abbrev expired_unpends : List Unpend
expired_unpends = expire ∷ continue ∷ []

waiting-expire :
    resolve plain waiting Want.expire window
    ≡ ok (Will.cont expired (WillCont.expire expired_unpends))
unfolding resolve konduit.Tx2.Pendings.want_expire konduit.Tx2.Pendings.expire_with
    konduit.Base.Words.sum64 konduit.Base.Words.add64
waiting-expire = refl

expire-accepted_example :
    (out : Channel) × (us : List Unpend) × (Will.cont expired (WillCont.expire expired_unpends)
      ≡ Will.cont out (WillCont.expire us))
    × Expire min_ada_buffer
        (some (as_millis (from_millis 100)))
        constants
        (datum waiting.stage)
        (buffered_amount out)
        (datum out.stage)
        us
        (signer (Will.cont expired (WillCont.expire expired_unpends)) constants)
expire-accepted_example =
    expire-accepted plain waiting window (from_millis 100) _ refl (omega arith) refl (omega arith)
      waiting-expire

-- The secret of the pending that has timed out is taken all the same.
abbrev unlocked_channel : Channel
unlocked_channel = channel_of 16 (responded 6 (young ∷ []))

abbrev unlocked_unpends : List Unpend
unlocked_unpends = unlock (7 ∷ []) ∷ continue ∷ []

waiting-unlock :
    resolve plain waiting (Want.unlock (secret7 ∷ [])) window
    ≡ ok (Will.cont unlocked_channel (WillCont.unlock unlocked_unpends 4))
unfolding resolve konduit.Tx2.Pendings.want_unlock konduit.Tx2.Pendings.unlock_with
    konduit.Base.Words.sum64 konduit.Tx2.Pendings.lookup konduit.Base.Words.add64
waiting-unlock = refl

unlock-refused_example :
    ¬ Unlock plain
      (some 120)
      constants
      2000020
      (datum waiting.stage)
      2000016
      (datum unlocked_channel.stage)
      unlocked_unpends
      (2 ∷ [])
unlock-refused_example =
    unlock-refused plain waiting window (secret7 ∷ []) 120 unlocked_channel unlocked_unpends 4
      2000020 2000016 (2 ∷ []) refl (omega arith) waiting-unlock refl

abbrev later : Interval
later = record { lower = some (from_millis 110); upper = none }
