-- ===== src/Tx1/Tests.antt =====
-- Runs of packages/konduit/tx/src/channel.rs on concrete channels.
use konduit.Base.{ℕ, ◌<◌, ◌≡◌, refl, Option, none, some, List, [], ◌∷◌, Result, ok, arith, Bytes}
use konduit.Data.Duration.{from_millis}
use konduit.Data.Redeemer.{Cont, Step}
use konduit.Data.Stage.{Stage, closed, responded, pending_of, Unpend, continue}
use konduit.Receipt.Tests.{plain, mixed, cheque_of, lock7}
use konduit.Tx2.Step.{ada, Want, from_claim}
use konduit.Tx2.Resolve.{resolve}
use konduit.Tx2.Kernel.{Unlock, datum}
use konduit.Tx2.Tests.{constants, old, young}
use konduit.Tx1.Variables.{Variables, StepTo, variables, from_upper}
use konduit.Tx1.Channel
use konduit.Tx1.Channel.{Channel, Stepped, stepped, any_sub, unlock_with_secrets}
use konduit.Tx1.Agrees.{first_outcome, second_outcome, second, before, any_sub-agrees}
use konduit.Tx1.Agrees.Consumer.{after, after_any, consumer-agrees}
use konduit.Tx1.Refused.{unlock_with_secrets-refused}

abbrev holding : Stage → Channel
holding stage = record { constants = constants; variables = variables 20 stage }

abbrev closed_one : Channel
closed_one = holding (closed 1 [] 90)

-- The one locked cheque becomes a pending, and the other is paid beyond what was subbed before.
closed-respond :
    first_outcome (any_sub plain closed_one mixed 50)
    ≡ ok (
      Step.cont (Cont.respond mixed.squash mixed.cheques),
      some (15, responded 5 (pending_of (cheque_of 1 5 100 lock7) ∷ [])),
    )
unfolding any_sub Channel.respond konduit.Receipt.Prep.prep_respond
    konduit.Receipt.Prep.respond_loop konduit.Base.Words.sub64 konduit.Tx2.Channel.owed_useds
    konduit.Base.Words.sum64 konduit.Base.Words.add64
closed-respond = refl

any_sub-agrees_example :
    first_outcome (any_sub plain closed_one mixed 50)
    ≡ second_outcome (
        resolve plain
          (second none ada closed_one)
          (from_claim (closed 1 [] 90) mixed.squash mixed.cheques)
          (before 50))
any_sub-agrees_example =
    any_sub-agrees plain none ada closed_one mixed 50 (omega arith) (omega arith)

abbrev waiting : Channel
waiting = holding (responded 10 (old ∷ young ∷ []))

waiting-expire :
    first_outcome (Channel.expire waiting (from_millis 100))
    ≡ ok (
      Step.cont (Cont.expire (Unpend.expire ∷ continue ∷ [])),
      some (6, responded 6 (young ∷ [])),
    )
unfolding Channel.expire konduit.Base.Words.sum64 konduit.Base.Words.add64
waiting-expire = refl

consumer-agrees_example :
    let ch2 = second none ada waiting in
    let time = from_millis 100 in
    (first_outcome (Channel.add waiting 5)
      ≡ second_outcome (resolve plain ch2 (Want.add 5) (after_any none)))
    × (first_outcome (Channel.close waiting time)
        ≡ second_outcome (resolve plain ch2 Want.close (before time)))
    × (first_outcome (Channel.elapse waiting time)
        ≡ second_outcome (resolve plain ch2 Want.elapse (after time)))
    × (first_outcome (Channel.expire waiting time)
        ≡ second_outcome (resolve plain ch2 Want.expire (after time)))
    × (first_outcome (Channel.end waiting (some time))
        ≡ second_outcome (resolve plain ch2 Want.end (after_any (some time))))
consumer-agrees_example =
    consumer-agrees plain none ada waiting 5 (from_millis 100) (some (from_millis 100))

-- Without a secret nothing is paid, and the two pendings are gone from the next stage.
abbrev gone : Variables
gone = variables 20 (responded 0 [])

abbrev both_continue : List Unpend
both_continue = continue ∷ continue ∷ []

abbrev unlocking : Stepped
unlocking =
    stepped waiting (StepTo.cont (Cont.unlock both_continue) gone) (from_upper (from_millis 120))

waiting-unlock : unlock_with_secrets plain waiting [] (from_millis 120) ≡ ok unlocking
unfolding unlock_with_secrets konduit.Base.Words.sum64 konduit.Tx2.Pendings.lookup
    konduit.Base.Words.add64
waiting-unlock = refl

unlock_with_secrets-refused_example :
    ¬ Unlock plain
      (some 120)
      constants
      2000020
      (datum waiting.variables.stage)
      2000020
      (datum gone.stage)
      both_continue
      (2 ∷ [])
unlock_with_secrets-refused_example =
    unlock_with_secrets-refused plain constants 20 10 old (young ∷ []) [] 120 unlocking
      both_continue gone 2000020 2000020 (2 ∷ []) (omega arith) waiting-unlock refl
