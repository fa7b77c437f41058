-- ===== src/Tx2/Channel.antt =====
-- packages/konduit/tx2/src/channel.rs: what its steps take from the useds and the cheques.
pub mod Useds
use Prim.Native.String.{String}
use konduit.Base.{
  ℕ, ◌+◌, ◌-◌, min, Bool, true, false, not, ◌&&◌, ◌||◌, Option, none, some, List, [], ◌∷◌, ◌++◌,
  map, Result, ok, err, panic, ◌>>=◌, ltb, leb, ◌==◌, if◌then◌else◌, filter, filter_map, any, all,
  is_empty, add64, sum64, Bytes,
}
use konduit.Data.Duration
use konduit.Data.Duration.{Duration}
use konduit.Data.Primitives.{Primitives}
use konduit.Data.Cheque
use konduit.Data.Cheque.{
  Lock, Secret, Locked, Unlocked, Cheque, unlocked, locked, lock_eq, lock_of, as_unlocked,
  as_locked,
}
use konduit.Data.Signed.{Squash, is_index_squashed}
use konduit.Data.Stage.{
  Constants, Stage, opened, closed, responded, Used, used_of, Pending, pending_of, Unpend, continue,
  expire, is_continue, unpend_of,
}
use konduit.Tx2.Interval.{Interval}
use konduit.Tx2.Step.{
  Channel, Currency, ada, Can, Want, Will, WillCont, WillEol, Error, pair, no_step, bound, label,
}

abbrev pub min_ada_buffer : ℕ
min_ada_buffer = 2000000

-- From the lovelace of an output.
debuffer_amount : ℕ → ℕ
debuffer_amount lovelace = lovelace - min_ada_buffer

unfoldable pub buffered_amount : Channel → ℕ
buffered_amount ch = add64 ch.amount min_ada_buffer

abbrev pub used_amount : Used → ℕ
used_amount u = u.amount

abbrev pub pending_amount : Pending → ℕ
pending_amount p = p.amount

-- Not expired at the upper bound, and not in the history of used items.
abbrev pub is_active : List Used → Duration → ℕ → Duration → Bool
is_active useds upper index timeout = ltb upper timeout && not (any (λ u. u.index == index) useds)

unfoldable pub active_unlockeds : List Unlocked → List Used → Duration → List Unlocked
active_unlockeds cheques useds upper =
    filter (λ c. is_active useds upper c.body.index c.body.timeout) cheques

unfoldable pub active_cheques : List Cheque → List Used → Duration → List Cheque
active_cheques cheques useds upper =
    filter (λ c. is_active useds upper (Cheque.index c) (Cheque.timeout c)) cheques

unfoldable pub owed_useds : List Used → Squash → List Used
owed_useds useds squash = filter (λ u. not (is_index_squashed squash u.index)) useds

-- `sort_by_key` on the index, which is stable.
unfoldable pub insert_used : Used → List Used → List Used
insert_used u [] = u ∷ []
insert_used u (v ∷ vs) = if leb u.index v.index then u ∷ v ∷ vs else v ∷ insert_used u vs

unfoldable pub sort_useds : List Used → List Used
unfolding insert_used
sort_useds [] = []
sort_useds (u ∷ us) = insert_used u (sort_useds us)

unfoldable pub prep_sub : Squash → List Unlocked → List Used → Duration → List Unlocked × List Used
prep_sub squash cheques useds upper =
    let unlockeds = active_unlockeds cheques useds upper in
    (unlockeds, sort_useds (owed_useds useds squash ++ map used_of unlockeds))

unfoldable pub prep_respond :
    Squash → List Cheque → List Used → Duration → List Cheque × List Pending × ℕ
prep_respond squash cheques useds upper =
    let out_cheques = active_cheques cheques useds upper in
    let pendings = map pending_of (filter_map as_locked out_cheques) in
    let unlocked_amount =
      sum64 (λ (u : Unlocked). u.body.amount) (filter_map as_unlocked out_cheques) in
    (out_cheques, pendings, add64 (sum64 used_amount (owed_useds useds squash)) unlocked_amount)

abbrev new_open : Option Bytes → Constants → ℕ → Channel
new_open delegation constants amount = record {
  delegation = delegation;
  constants = constants;
  amount = amount;
  stage = opened 0 [];
  currency = ada;
}

abbrev pub stepped : Channel → ℕ → Stage → Channel
stepped ch amount stage = record ch { amount = amount; stage = stage }

unfoldable pub can : Channel → List Can
can ch = elim ch.stage [
  | opened _ _ ↦ Can.add ∷ Can.sub ch.amount ∷ Can.close ∷ []
  | closed _ _ elapse_at ↦ Can.respond elapse_at ch.amount ∷ Can.elapse elapse_at ∷ []
  | responded _ _ ↦ Can.unlock ∷ Can.expire ∷ Can.end ∷ []
]

abbrev pub upper_of : Interval → String → Result Error Duration
upper_of i reason = elim i.upper [ none ↦ err (bound reason) | some upper ↦ ok upper ]

abbrev pub lower_of : Interval → String → Result Error Duration
lower_of i reason = elim i.lower [ none ↦ err (bound reason) | some lower ↦ ok lower ]

abbrev pub add_at : Channel → ℕ → Stage → Result Error Will
add_at ch amount (opened subbed useds) =
    if amount == 0
    then err no_step
    else ok (
        Will.cont (stepped ch (add64 ch.amount amount) (opened subbed useds)) (WillCont.add amount))
add_at ch amount stage = err (pair (label stage) "Add")

unfoldable pub want_add : Channel → ℕ → Result Error Will
want_add ch amount = add_at ch amount ch.stage

-- What the channel gains, of what is owed beyond what was subbed before.
abbrev pub gain_of : Channel → ℕ → ℕ → ℕ
gain_of ch absolute_owed subbed = min (absolute_owed - subbed) ch.amount

unfoldable pub sub_from : Channel → Squash → ℕ → List Unlocked × List Used → Result Error Will
sub_from ch squash subbed (unlockeds, useds) =
    let gain = gain_of ch (add64 squash.body.amount (sum64 used_amount useds)) subbed in
    if gain == 0
    then err no_step
    else ok (
        Will.cont (stepped ch (ch.amount - gain) (opened (add64 subbed gain) useds))
          (WillCont.sub squash unlockeds gain))

abbrev pub sub_at : Channel → Squash → List Unlocked → Interval → Stage → Result Error Will
sub_at ch squash cheques interval (opened subbed useds) = do
  upper ← upper_of interval "sub requires an interval upper bound"
  sub_from ch squash subbed (prep_sub squash cheques useds upper)
sub_at ch squash cheques interval stage = err (pair (label stage) "Sub")

unfoldable pub want_sub : Channel → Squash → List Unlocked → Interval → Result Error Will
want_sub ch squash cheques interval = sub_at ch squash cheques interval ch.stage
