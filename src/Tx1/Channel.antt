-- ===== src/Tx1/Channel.antt =====
-- packages/konduit/tx/src/{channel,stepped}.rs: the steps of a channel, each with the bounds of the
-- transaction that takes it. An error carries the channel, as it was. The closures over pendings and
-- the map of secrets are those of packages/konduit/tx2/src/channel.rs.
use konduit.Base.{
  ℕ, ◌-◌, min, Option, none, some, List, [], ◌∷◌, map, Result, ok, err, ◌>>=◌, ◌>>◌, map_err, ok_or,
  refuse_if, ◌==◌, leb, all, if◌then◌else◌, add64, sum64,
}
use konduit.Data.Duration.{Duration}
use konduit.Data.Primitives.{Primitives}
use konduit.Data.Cheque.{Secret, Unlocked, Cheque}
use konduit.Data.Redeemer.{Cont, Eol}
use konduit.Data.Stage.{
  Constants, Stage, opened, closed, responded, Used, Pending, Unpend, is_continue,
}
use konduit.Receipt.{Receipt}
use konduit.Receipt.Prep.{prep_sub, prep_respond, secrets}
use konduit.Tx2.Step.{label}
use konduit.Tx2.Channel.{min_ada_buffer, used_amount}
use konduit.Tx2.Pendings.{remaining, resolved, expire_unpend, unlock_unpend}
use konduit.Tx1.Variables
use konduit.Tx1.Variables.{
  Variables, Bounds, unbounded, from_lower, from_upper, StepTo, variables_of, StepError, no_step,
  no_lower, early, pair, amounts,
}

pub record Channel : Type 0 where
  pub constants : Constants
  pub variables : Variables

pub record Stepped : Type 0 where
  pub channel : Channel
  pub step_to : StepTo
  pub bounds : Bounds

abbrev pub stepped : Channel → StepTo → Bounds → Stepped
stepped ch step_to bounds = record { channel = ch; step_to = step_to; bounds = bounds }

abbrev pub SteppedElseChannel : Type 0
SteppedElseChannel = Result (Channel × StepError) Stepped

-- `Err((Box::new(self), err))`, for any error of the step.
abbrev pub or_channel : Channel → Result StepError Stepped → SteppedElseChannel
or_channel ch r = map_err (λ e. (ch, e)) r

abbrev buffered_amount : Channel → ℕ
buffered_amount ch = add64 ch.variables.amount min_ada_buffer

-- `Stepped::cont_data`
abbrev cont_data : Stepped → Option Channel
cont_data s = elim (variables_of s.step_to) [
  | none ↦ none
  | some v ↦ some (record { constants = s.channel.constants; variables = v })
]

unfoldable pub add : Channel → ℕ → SteppedElseChannel
add ch amount =
    or_channel ch
      do v ← Variables.add ch.variables amount; ok (stepped ch (StepTo.cont Cont.add v) unbounded)

-- What is gained of what is owed beyond what was subbed before.
abbrev gain_of : Channel → ℕ → ℕ → ℕ
gain_of ch absolute_owed subbed = min (absolute_owed - subbed) ch.variables.amount

abbrev sub_with :
    Channel → Receipt → Duration → ℕ → List Unlocked × List Used → Result StepError Stepped
sub_with ch r upper subbed (unlockeds, useds) =
    let gain = gain_of ch (add64 r.squash.body.amount (sum64 used_amount useds)) subbed in
    do
      refuse_if (gain == 0) no_step
      v ← Variables.sub ch.variables gain useds
      ok (stepped ch (StepTo.cont (Cont.sub r.squash unlockeds) v) (from_upper upper))

abbrev sub_at : Channel → Receipt → Duration → Stage → Result StepError Stepped
sub_at ch r upper (opened subbed useds) = sub_with ch r upper subbed (prep_sub r useds upper)
sub_at ch r upper stage = err (pair (label stage) "Sub")

unfoldable pub sub : Channel → Receipt → Duration → SteppedElseChannel
sub ch r upper = or_channel ch (sub_at ch r upper ch.variables.stage)

unfoldable pub close : Channel → Duration → SteppedElseChannel
close ch upper = or_channel ch do
  v ← Variables.close ch.variables upper ch.constants.close_period
  ok (stepped ch (StepTo.cont Cont.close v) (from_upper upper))

unfoldable pub elapse : Channel → Duration → SteppedElseChannel
elapse ch lower = or_channel ch do
  Variables.elapse ch.variables lower
  ok (stepped ch (StepTo.eol Eol.elapse) (from_lower lower))

abbrev respond_with :
    Channel → Receipt → Duration → ℕ → List Cheque × List Pending × ℕ → Result StepError Stepped
respond_with ch r upper subbed (cheques, pendings, useds_amount) =
    let gain = gain_of ch (add64 r.squash.body.amount useds_amount) subbed in
    do
      v ← Variables.respond ch.variables gain pendings
      ok (stepped ch (StepTo.cont (Cont.respond r.squash cheques) v) (from_upper upper))

abbrev respond_at : Channel → Receipt → Duration → Stage → Result StepError Stepped
respond_at ch r upper (closed subbed useds at) =
    respond_with ch r upper subbed (prep_respond r useds upper)
respond_at ch r upper stage = err (pair (label stage) "Respond")

unfoldable pub respond : Channel → Receipt → Duration → SteppedElseChannel
respond ch r upper = or_channel ch (respond_at ch r upper ch.variables.stage)

-- The pendings that are kept are those that do not continue.
abbrev unlock_with : Channel → Duration → List Pending → List Unpend → Result StepError Stepped
unlock_with ch upper pendings unpends =
    let kept = resolved pendings unpends in
    do
      v ← Variables.unlock ch.variables (amounts kept) kept
      ok (stepped ch (StepTo.cont (Cont.unlock unpends) v) (from_upper upper))

abbrev expire_with : Channel → Duration → List Pending → List Unpend → Result StepError Stepped
expire_with ch lower pendings unpends = do
  refuse_if (all is_continue unpends) no_step
  v ← Variables.expire ch.variables (remaining pendings unpends)
  ok (stepped ch (StepTo.cont (Cont.expire unpends) v) (from_lower lower))

abbrev expire_at : Channel → Duration → Stage → Result StepError Stepped
expire_at ch lower (responded amount pendings) =
    expire_with ch lower pendings (map (expire_unpend lower) pendings)
expire_at ch lower stage = err (pair (label stage) "Expire")

unfoldable pub expire : Channel → Duration → SteppedElseChannel
expire ch lower = or_channel ch (expire_at ch lower ch.variables.stage)

-- The loop of `end` over the pendings, which stops at the first that has not timed out.
unfoldable pub timed_out : Duration → List Pending → Result StepError (Unit {0})
timed_out lower [] = ok tt
timed_out lower (p ∷ ps) =
    let rest = timed_out lower ps in
    if leb lower p.timeout then err (early lower p.timeout) else rest

abbrev end_at : Channel → Option Duration → Stage → Result StepError Stepped
end_at ch bound (responded amount []) = ok (stepped ch (StepTo.eol Eol.end) unbounded)
end_at ch bound (responded amount (p ∷ ps)) = do
  lower ← ok_or bound no_lower
  timed_out lower (p ∷ ps)
  ok (stepped ch (StepTo.eol Eol.end) (from_lower lower))
end_at ch bound stage = err (pair (label stage) "End")

unfoldable pub end : Channel → Option Duration → SteppedElseChannel
end ch bound = or_channel ch (end_at ch bound ch.variables.stage)

module _ (P : Primitives) where
  abbrev unlock_at : Channel → List Secret → Duration → Stage → Result StepError Stepped
  unlock_at ch known upper (responded amount pendings) =
      unlock_with ch upper pendings (map (unlock_unpend P known upper) pendings)
  unlock_at ch known upper stage = err (pair (label stage) "Unlock")

  unfoldable pub unlock_with_secrets : Channel → List Secret → Duration → SteppedElseChannel
  unlock_with_secrets ch known upper = or_channel ch (unlock_at ch known upper ch.variables.stage)

  unfoldable pub unlock : Channel → Receipt → Duration → SteppedElseChannel
  unlock ch r upper = unlock_with_secrets ch (secrets r) upper

  abbrev pub any_sub_at : Channel → Receipt → Duration → Stage → SteppedElseChannel
  any_sub_at ch r upper (opened subbed useds) = sub ch r upper
  any_sub_at ch r upper (closed subbed useds at) = respond ch r upper
  any_sub_at ch r upper (responded amount pendings) = unlock ch r upper

  unfoldable pub any_sub : Channel → Receipt → Duration → SteppedElseChannel
  any_sub ch r upper = any_sub_at ch r upper ch.variables.stage
