-- ===== src/Tx2/Kernel/Tests.antt =====
-- Runs of packages/konduit/tx2/src/channel.rs against packages/kernel/lib/konduit/steps/sub.ak and respond.ak, on
-- concrete channels.
use konduit.Base.{
  ℕ, false, ◌≤◌, ◌<◌, ◌≡◌, refl, Option, none, some, List, [], ◌∷◌, ok, true, add64, arith, Bytes,
}
use konduit.Data.Duration.{as_millis, from_millis}
use konduit.Data.SquashBody
use konduit.Data.Cheque.{Cheque, Locked, Unlocked, Secret, locked, unlocked}
use konduit.Data.Signed.{Squash, is_index_squashed}
use konduit.Data.Stage.{opened, closed, responded, Used, Pending}
use konduit.Receipt.Tests.{plain, lock7, cheque_of, open_of, squash_of}
use konduit.Tx2.Step.{Channel, Want, Will, WillCont, signer}
use konduit.Tx2.Channel.{buffered_amount, active_cheques, prep_respond}
use konduit.Tx2.Resolve.{resolve}
use konduit.Tx2.Tests.{constants, channel_of, window, spent}
use konduit.Tx2.Kernel.{Datum, datum}
use konduit.Tx2.Kernel.Sub.{Sub}
use konduit.Tx2.Kernel.Sub.Prepared.{IsHistory, IsEvidence}
use konduit.Tx2.Kernel.Sub.Accepted.{sub-accepted}
use konduit.Tx2.Kernel.Respond.{Respond}
use konduit.Tx2.Kernel.Respond.Prepared.{IsResponse}
use konduit.Tx2.Kernel.Respond.Accepted.{respond-accepted}
use konduit.Tx2.Kernel.Respond.Refused.{Respond-drains, squashed-refused, uncovered-refused}

abbrev zeros : Bytes
zeros =
    0 ∷ 0 ∷ 0 ∷ 0 ∷ 0 ∷ 0 ∷ 0 ∷ 0 ∷ 0 ∷ 0 ∷ 0 ∷ 0 ∷ 0 ∷ 0 ∷ 0 ∷ 0 ∷ 0 ∷ 0 ∷ 0 ∷ 0 ∷ 0 ∷ 0 ∷ 0 ∷ 0
    ∷ 0 ∷ 0 ∷ 0 ∷ 0 ∷ 0 ∷ 0 ∷ 0 ∷ 0 ∷ []

abbrev secret : Secret
secret = record { bytes = zeros }

abbrev paid : Unlocked
paid = open_of 2 6 200000000 secret

abbrev waiting : Locked
waiting = cheque_of 3 4 300000000 lock7

abbrev fresh : Squash
fresh = squash_of 0 0 []

fresh-IsValid : SquashBody.IsValid fresh.body
fresh-IsValid = record { ascending = tt; below = tt; bounded = omega arith }

paid-unsettled : is_index_squashed fresh 2 ≡ false
unfolding SquashBody.is_index_squashed
paid-unsettled = refl

abbrev open_channel : Channel
open_channel = channel_of 20 (opened 3 (spent ∷ []))

abbrev second : Used
second = record { index = 2; amount = 6 }

abbrev subbed_channel : Channel
subbed_channel = channel_of 14 (opened 9 (spent ∷ second ∷ []))

open-sub :
    resolve plain open_channel (Want.sub fresh (paid ∷ [])) window
    ≡ ok (Will.cont subbed_channel (WillCont.sub fresh (paid ∷ []) 6))
unfolding resolve konduit.Tx2.Channel.want_sub konduit.Tx2.Channel.sub_from konduit.Base.Words.add64
    konduit.Base.Words.sum64 konduit.Tx2.Channel.prep_sub konduit.Tx2.Channel.sort_useds
    konduit.Tx2.Channel.owed_useds SquashBody.is_index_squashed konduit.Tx2.Channel.active_unlockeds
open-sub = refl

paid-IsEvidence : IsEvidence plain (1 ∷ []) [] fresh (paid ∷ [])
unfolding konduit.Data.Signed.squash_verifies konduit.Data.Signed.cheque_verifies
paid-IsEvidence = record {
  squash_signed = refl;
  body_valid = fresh-IsValid;
  cheques_signed = (refl, tt);
  secrets = (refl, tt);
  in_clock = (omega arith, tt);
  ascending = (tt, tt);
  unsettled = (paid-unsettled, tt);
}

sub-accepted_example :
    (out : Channel) × (unlockeds : List Unlocked) × (gain : ℕ) × (Will.cont subbed_channel
        (WillCont.sub fresh (paid ∷ []) 6)
      ≡ Will.cont out (WillCont.sub fresh unlockeds gain))
    × IsHistory out.stage
    × Sub plain
        (some (as_millis (from_millis 120)))
        constants
        (buffered_amount open_channel)
        (datum open_channel.stage)
        (buffered_amount out)
        (datum out.stage)
        fresh
        unlockeds
        (signer (Will.cont subbed_channel (WillCont.sub fresh (paid ∷ []) 6)) constants)
sub-accepted_example =
    sub-accepted plain open_channel window fresh (paid ∷ []) _ (tt, tt) paid-IsEvidence
      (omega arith) (omega arith) open-sub

abbrev closed_channel : Channel
closed_channel = channel_of 20 (closed 3 (spent ∷ []) (from_millis 170))

abbrev both : List Cheque
both = unlocked paid ∷ locked waiting ∷ []

abbrev awaited : Pending
awaited = record { amount = 4; timeout = from_millis 300; lock = lock7 }

abbrev responded_channel : Channel
responded_channel = channel_of 14 (responded 4 (awaited ∷ []))

both-active : active_cheques both (spent ∷ []) (from_millis 120) ≡ both
unfolding active_cheques
both-active = refl

closed-respond :
    resolve plain closed_channel (Want.respond fresh both) window
    ≡ ok (Will.cont responded_channel (WillCont.respond fresh both 6))
unfolding resolve konduit.Tx2.Closing.want_respond konduit.Tx2.Closing.respond_from
    konduit.Base.Words.add64 konduit.Base.Words.sum64 prep_respond konduit.Tx2.Channel.owed_useds
    active_cheques SquashBody.is_index_squashed
closed-respond = refl

both-IsResponse : IsResponse plain (1 ∷ []) [] fresh both
unfolding konduit.Data.Signed.squash_verifies konduit.Data.Signed.cheque_verifies
    konduit.Data.SquashBody.is_index_squashed
both-IsResponse = record {
  squash_signed = refl;
  body_valid = fresh-IsValid;
  cheques_signed = (refl, (refl, tt));
  latches = (refl, (tt, tt));
  in_clock = (omega arith, (omega arith, tt));
  ascending = ((omega arith, tt), (tt, tt));
  unsettled = (refl, (refl, tt));
}

spent-unsquashed : is_index_squashed fresh 1 ≡ false
unfolding konduit.Data.SquashBody.is_index_squashed
spent-unsquashed = refl

respond-accepted_example :
    (out : Channel) × (cs : List Cheque) × (gain : ℕ) × (Will.cont responded_channel
        (WillCont.respond fresh both 6)
      ≡ Will.cont out (WillCont.respond fresh cs gain))
    × Respond plain
        (some (as_millis (from_millis 120)))
        constants
        (buffered_amount closed_channel)
        (datum closed_channel.stage)
        (buffered_amount out)
        (datum out.stage)
        fresh
        cs
        (signer (Will.cont responded_channel (WillCont.respond fresh both 6)) constants)
unfolding active_cheques
respond-accepted_example =
    respond-accepted plain closed_channel window fresh both _ 3 (spent ∷ []) (from_millis 170)
      (from_millis 120) refl refl (tt, tt) (spent-unsquashed, tt) (refl, tt) both-IsResponse
      (omega arith) (omega arith) (omega arith) closed-respond

closed-Respond :
    Respond plain
      (some 120)
      constants
      2000020
      (datum closed_channel.stage)
      2000014
      (datum responded_channel.stage)
      fresh
      both
      (2 ∷ [])
unfolding konduit.Tx2.Kernel.Respond.account konduit.Data.Signed.squash_verifies
    konduit.Tx2.Kernel.Respond.fold konduit.Data.Signed.cheque_verifies
    konduit.Tx2.Kernel.Respond.reduce_useds konduit.Tx2.Kernel.Evidence.next_index as_millis
closed-Respond = (9, refl, omega arith, refl)

Respond-drains_example :
    Respond plain
      (some 120)
      constants
      2000020
      (datum closed_channel.stage)
      0
      (datum responded_channel.stage)
      fresh
      both
      (2 ∷ [])
Respond-drains_example =
    Respond-drains plain (some 120) constants 2000020 2000014 0 (datum closed_channel.stage)
      (datum responded_channel.stage) fresh both (2 ∷ []) (omega arith) closed-Respond

-- The squash settles the item of the history, whose amount was subbed.
abbrev later : Squash
later = squash_of 3 2 []

later-IsValid : SquashBody.IsValid later.body
later-IsValid = record { ascending = tt; below = tt; bounded = omega arith }

later-settles : is_index_squashed later 1 ≡ true
unfolding konduit.Data.SquashBody.is_index_squashed konduit.Data.Indexes.has
later-settles = refl

last-active :
    active_cheques (locked waiting ∷ []) (spent ∷ []) (from_millis 120) ≡ locked waiting ∷ []
unfolding active_cheques
last-active = refl

squashed-refused_example :
    (out : Channel) × (gain : ℕ) × (resolve plain closed_channel
        (Want.respond later (locked waiting ∷ []))
        window
      ≡ ok (Will.cont out (WillCont.respond later (locked waiting ∷ []) gain)))
    × ((value_in value_out : ℕ) (key : Bytes)
        → ¬ Respond plain
            (some (as_millis (from_millis 120)))
            constants
            value_in
            (datum closed_channel.stage)
            value_out
            (datum out.stage)
            later
            (locked waiting ∷ [])
            key)
squashed-refused_example =
    squashed-refused plain closed_channel window later (locked waiting ∷ []) 3 spent []
      (from_millis 170) (from_millis 120) (locked waiting) [] refl refl (omega arith) later-IsValid
      later-settles last-active (omega arith)

abbrev exhausted : Channel
exhausted = channel_of 20 (closed 5 (spent ∷ []) (from_millis 170))

nothing_more : add64 0 (prep_respond fresh [] (spent ∷ []) (from_millis 120)).2 ≤ 5
unfolding konduit.Base.Words.add64 prep_respond konduit.Base.Words.sum64
    konduit.Tx2.Channel.owed_useds SquashBody.is_index_squashed active_cheques
nothing_more = omega arith

uncovered-refused_example :
    (out : Channel) × (resolve plain exhausted (Want.respond fresh []) window
      ≡ ok (Will.cont out (WillCont.respond fresh [] 0)))
    × ((key : Bytes)
        → ¬ Respond plain
            (some (as_millis (from_millis 120)))
            constants
            (buffered_amount exhausted)
            (datum exhausted.stage)
            (buffered_amount out)
            (datum out.stage)
            fresh
            []
            key)
unfolding active_cheques
uncovered-refused_example =
    uncovered-refused plain exhausted window fresh [] 5 (spent ∷ []) (from_millis 170)
      (from_millis 120) refl refl (omega arith) refl nothing_more (omega arith)
