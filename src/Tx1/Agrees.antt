-- ===== src/Tx1/Agrees.antt =====
-- packages/konduit/tx/src/channel.rs next to packages/konduit/tx2/src/channel.rs: the steps of the first
-- version against those of the second.
pub mod Consumer
use konduit.Base.{
  ℕ, ◌-◌, ◌<◌, ◌≤◌, ◌≡◌, refl, ap, min, Bool, true, false, Option, none, some, List, [], ◌∷◌, map,
  Bytes, Result, ok, err, panic, ◌>>=◌, ◌>>◌, refuse_if, if◌then◌else◌, ◌==◌, leb, sum64, add64,
  u64_mod, arith, Bool-cases, inl, inr,
}
use konduit.Data.Duration
use konduit.Data.Duration.{Duration}
use konduit.Data.Primitives.{Primitives}
use konduit.Data.Redeemer.{Cont, Step}
use konduit.Data.Stage.{Constants, Stage, opened, closed, responded, Used}
use konduit.Receipt.{Receipt, unlockeds}
use konduit.Receipt.Prep
use konduit.Receipt.Prep.{prep_respond-agrees}
use konduit.Tx2.Interval.{Interval}
use konduit.Tx2.Step as Second
use konduit.Tx2.Step.{Currency, Want, Will, WillCont, Error, from_claim, to_step}
use konduit.Base.Words.{sub64, sub64-eq}
use konduit.Base.Tests.{gt→leb}
use konduit.Tx2.Channel as Channel2
use konduit.Tx2.Channel.{want_sub, sub_from, prep_sub, used_amount}
use konduit.Tx2.Closing.{want_respond, respond_from}
use konduit.Tx2.Resolve.{resolve}
use konduit.Data.Cheque.{Unlocked}
use konduit.Tx1.Variables
use konduit.Tx1.Variables.{no_step, StepTo, from_upper, Variables, step_of, variables_of, variables}
use konduit.Tx1.Channel
use konduit.Tx1.Channel.{Channel, Stepped, SteppedElseChannel, stepped, or_channel, any_sub}

-- What a step is on chain: the redeemer, with the amount and the stage of the channel if it goes on.
-- That there is an error is told, and not which.
abbrev pub Outcome : Type 0
Outcome = Result (Unit {0}) (Step × Option (ℕ × Stage))

abbrev held : Option Variables → Option (ℕ × Stage)
held none = none
held (some v) = some (v.amount, v.stage)

abbrev pub first_outcome : SteppedElseChannel → Outcome
first_outcome (ok s) = ok (step_of s.step_to, held (variables_of s.step_to))
first_outcome (err e) = err tt
first_outcome panic = panic

abbrev willed : Will → Option (ℕ × Stage)
willed (Will.cont ch step) = some (ch.amount, ch.stage)
willed (Will.eol step) = none

abbrev pub second_outcome : Result Error Will → Outcome
second_outcome (ok will) = ok (to_step will, willed will)
second_outcome (err e) = err tt
second_outcome panic = panic

sub64-min : (a b : ℕ) → a < u64_mod → sub64 a (min b a) ≡ a - min b a
sub64-min a b h = sub64-eq a (min b a) h (omega arith)

-- The second version refuses to respond once the channel may elapse; and a channel that has responded
-- is left out.
abbrev pub Claims : Duration → Stage → Type 0
Claims upper (opened subbed useds) = Unit
Claims upper (closed subbed useds elapse_at) = upper < elapse_at
Claims upper (responded amount pendings) = ⊥

module _ (delegation : Option Bytes) (currency : Currency) where
  -- The channel of the second version.
  abbrev pub second : Channel → Second.Channel
  second ch = record {
    delegation = delegation;
    constants = ch.constants;
    amount = ch.variables.amount;
    stage = ch.variables.stage;
    currency = currency;
  }

  abbrev pub first : Constants → ℕ → Stage → Channel
  first constants amount stage = record {
    constants = constants;
    variables = variables amount stage;
  }

abbrev pub before : Duration → Interval
before upper = record { lower = none; upper = some upper }

module _ (P : Primitives) (delegation : Option Bytes) (currency : Currency) where
  -- With what is gained given, both take it in the same way.
  gain-agrees :
      (constants : Constants) (amount subbed : ℕ) (useds : List Used) (r : Receipt)
      (upper : Duration) (taken : List Unlocked × List Used) (g : ℕ)
      → sub64 amount g ≡ amount - g
      → let ch = first delegation currency constants amount (opened subbed useds) in
        first_outcome (
          or_channel ch (
            refuse_if (g == 0) no_step
            >> (Variables.sub ch.variables g taken.1 >>= λ v.
                ok (stepped ch (StepTo.cont (Cont.sub r.squash taken.0) v) (from_upper upper)))))
        ≡ second_outcome (
            if g == 0
            then err Error.no_step
            else ok (
                Will.cont
                  (Channel2.stepped
                    (second delegation currency ch)
                    (amount - g)
                    (opened (add64 subbed g) taken.1))
                  (WillCont.sub r.squash taken.0 g)))
  unfolding to_step
  gain-agrees constants amount subbed useds r upper taken g e = elim (Bool-cases (g == 0)) [
    | inl zero ↦ rw zero refl
    | inr more ↦ rw (more, e) refl
  ]

  claim-agrees :
      (constants : Constants) (amount : ℕ) (stage : Stage) (r : Receipt) (upper : Duration)
      → amount < u64_mod
      → Claims upper stage
      → first_outcome (any_sub P (first delegation currency constants amount stage) r upper)
        ≡ second_outcome (
            resolve P
              (second delegation currency (first delegation currency constants amount stage))
              (from_claim stage r.squash r.cheques)
              (before upper))
  unfolding any_sub Channel.sub Channel.respond resolve want_sub want_respond from_claim to_step
      sub_from respond_from Prep.prep_sub prep_sub Channel2.sort_useds Channel2.active_unlockeds
  claim-agrees constants amount (opened subbed useds) r upper h k =
      gain-agrees constants amount subbed useds r upper
        (prep_sub r.squash (unlockeds r) useds upper) _ (sub64-min _ _ h)
  claim-agrees constants amount (closed subbed useds at) r upper h k =
      rw (gt→leb at upper k, prep_respond-agrees r useds upper, sub64-min _ _ h) refl
  claim-agrees constants amount (responded owed pendings) r upper h k = absurd k

-- A step that the first version makes from a receipt, or its refusal, is what the second version makes
-- of the squash and the cheques of that receipt: the redeemer, the amount that is left and the next
-- stage are the same. For an open channel, or a closed one before it may elapse, with an amount of 64 bits.
pub any_sub-agrees :
    (P : Primitives) (delegation : Option Bytes) (currency : Currency) (ch : Channel) (r : Receipt)
    (upper : Duration)
    → ch.variables.amount < u64_mod
    → Claims upper ch.variables.stage
    → first_outcome (any_sub P ch r upper)
      ≡ second_outcome (
          resolve P
            (second delegation currency ch)
            (from_claim ch.variables.stage r.squash r.cheques)
            (before upper))
any_sub-agrees P delegation currency ch r upper =
    claim-agrees P delegation currency ch.constants ch.variables.amount ch.variables.stage r upper
