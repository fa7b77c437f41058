-- ===== src/Tx1/Agrees/Consumer.antt =====
-- packages/konduit/tx/src/channel.rs next to packages/konduit/tx2/src/channel.rs: the steps of the consumer,
-- which need no receipt.
use konduit.Base.{
  ℕ, ◌+◌, ◌≡◌, refl, ltb, true, false, Option, none, some, List, [], ◌∷◌, map, Bytes, ok, err, ◌==◌,
  leb, all, any, Bool-cases, inl, inr,
}
use konduit.Data.Duration
use konduit.Data.Duration.{Duration, max_duration}
use konduit.Data.Primitives.{Primitives}
use konduit.Data.Stage.{Constants, Stage, opened, closed, responded, Pending, is_continue}
use konduit.Tx2.Interval.{Interval}
use konduit.Tx2.Step.{Currency, Want, to_step}
use konduit.Tx2.Channel.{want_add}
use konduit.Tx2.Closing.{want_close, want_elapse}
use konduit.Tx2.Pendings.{want_expire, want_end, expire_unpend, expire_with}
use konduit.Tx2.Resolve.{resolve}
use konduit.Tx1.Variables.{StepError, early}
use konduit.Tx1.Channel
use konduit.Tx1.Channel.{Channel, timed_out}
use konduit.Tx1.Agrees.{first_outcome, second_outcome, first, second, before}

-- The loop of `end` refuses exactly if some pending has not timed out.
timed_out-any :
    (lower : Duration) (ps : List Pending)
    → (any (λ (q : Pending). leb lower q.timeout) ps ≡ true
        → (e : StepError) × (timed_out lower ps ≡ err e))
      × (any (λ (q : Pending). leb lower q.timeout) ps ≡ false → timed_out lower ps ≡ ok tt)
unfolding timed_out
timed_out-any lower [] = ((λ h. cc), (λ h. refl))
timed_out-any lower (p ∷ ps) = elim (Bool-cases (leb lower p.timeout)) [
  | inl late ↦ ((λ h. rw late (early lower p.timeout, refl)), (λ h. cc (rw late at h)))
  | inr past ↦ (
    (λ h. rw past ((timed_out-any lower ps).0 (rw past at h))),
    (λ h. rw past ((timed_out-any lower ps).1 (rw past at h))),
  )
]

abbrev pub after : Duration → Interval
after lower = record { lower = some lower; upper = none }

abbrev pub after_any : Option Duration → Interval
after_any lower = record { lower = lower; upper = none }

module _ (P : Primitives) (delegation : Option Bytes) (currency : Currency) (constants : Constants)
    (held : ℕ) where
  abbrev at : Stage → Channel
  at stage = first delegation currency constants held stage

  add_lem :
      (stage : Stage) (amount : ℕ) (i : Interval)
      → first_outcome (Channel.add (at stage) amount)
        ≡ second_outcome (resolve P (second delegation currency (at stage)) (Want.add amount) i)
  unfolding Channel.add resolve want_add to_step
  add_lem (opened subbed useds) amount i = elim (Bool-cases (amount == 0)) [
    | inl e ↦ rw e refl
    | inr e ↦ rw e refl
  ]
  add_lem (closed subbed useds elapse_at) amount i = refl
  add_lem (responded owed pendings) amount i = refl

  close_lem :
      (stage : Stage) (upper : Duration)
      → first_outcome (Channel.close (at stage) upper)
        ≡ second_outcome
            (resolve P (second delegation currency (at stage)) Want.close (before upper))
  unfolding Channel.close resolve want_close to_step Duration.add
  close_lem (opened subbed useds) upper =
      elim (Bool-cases (ltb max_duration (upper + constants.close_period))) [
        | inl e ↦ rw e refl
        | inr e ↦ rw e refl
      ]
  close_lem (closed subbed useds elapse_at) upper = refl
  close_lem (responded owed pendings) upper = refl

  elapse_lem :
      (stage : Stage) (lower : Duration)
      → first_outcome (Channel.elapse (at stage) lower)
        ≡ second_outcome
            (resolve P (second delegation currency (at stage)) Want.elapse (after lower))
  unfolding Channel.elapse resolve want_elapse to_step
  elapse_lem (opened subbed useds) lower = refl
  elapse_lem (closed subbed useds elapse_at) lower = elim (Bool-cases (leb lower elapse_at)) [
    | inl e ↦ rw e refl
    | inr e ↦ rw e refl
  ]
  elapse_lem (responded owed pendings) lower = refl

  expire_lem :
      (stage : Stage) (lower : Duration)
      → first_outcome (Channel.expire (at stage) lower)
        ≡ second_outcome
            (resolve P (second delegation currency (at stage)) Want.expire (after lower))
  unfolding Channel.expire resolve want_expire expire_with to_step
  expire_lem (opened subbed useds) lower = refl
  expire_lem (closed subbed useds elapse_at) lower = refl
  expire_lem (responded owed pendings) lower =
      elim (Bool-cases (all is_continue (map (expire_unpend lower) pendings))) [
        | inl e ↦ rw e refl
        | inr e ↦ rw e refl
      ]

  end_lem :
      (stage : Stage) (bound : Option Duration)
      → first_outcome (Channel.end (at stage) bound)
        ≡ second_outcome
            (resolve P (second delegation currency (at stage)) Want.end (after_any bound))
  unfolding Channel.end resolve want_end to_step
  end_lem (opened subbed useds) bound = refl
  end_lem (closed subbed useds elapse_at) bound = refl
  end_lem (responded owed []) bound = refl
  end_lem (responded owed (p ∷ ps)) none = refl
  end_lem (responded owed (p ∷ ps)) (some lower) =
      elim (Bool-cases (any (λ (q : Pending). leb lower q.timeout) (p ∷ ps))) [
        | inl e ↦ (let (c, refused) = (timed_out-any lower (p ∷ ps)).0 e in rw (e, refused) refl)
        | inr e ↦ rw (e, (timed_out-any lower (p ∷ ps)).1 e) refl
      ]

-- The first version adds, closes, elapses, expires and ends as the second one does, and refuses where it
-- refuses: the redeemer, the amount that is left and the next stage are the same. At any stage.
pub consumer-agrees :
    (P : Primitives) (delegation : Option Bytes) (currency : Currency) (ch : Channel) (amount : ℕ)
    (time : Duration) (bound : Option Duration)
    → let ch2 = second delegation currency ch in
      (first_outcome (Channel.add ch amount)
        ≡ second_outcome (resolve P ch2 (Want.add amount) (after_any none)))
      × (first_outcome (Channel.close ch time)
          ≡ second_outcome (resolve P ch2 Want.close (before time)))
      × (first_outcome (Channel.elapse ch time)
          ≡ second_outcome (resolve P ch2 Want.elapse (after time)))
      × (first_outcome (Channel.expire ch time)
          ≡ second_outcome (resolve P ch2 Want.expire (after time)))
      × (first_outcome (Channel.end ch bound)
          ≡ second_outcome (resolve P ch2 Want.end (after_any bound)))
consumer-agrees P delegation currency ch amount time bound =
    let held = ch.variables.amount in
    let stage = ch.variables.stage in
    (
      add_lem P delegation currency ch.constants held stage amount (after_any none),
      close_lem P delegation currency ch.constants held stage time,
      elapse_lem P delegation currency ch.constants held stage time,
      expire_lem P delegation currency ch.constants held stage time,
      end_lem P delegation currency ch.constants held stage bound,
    )
