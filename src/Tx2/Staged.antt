-- ===== src/Tx2/Staged.antt =====
-- packages/konduit/tx2/src/staged_tx.rs: the steps chosen for several channels, and the transaction
-- that takes them. `&mut self` becomes a new state. Slots and the network stay with the builder.
pub mod Shape
pub mod Funding
pub mod Intents
pub mod Tests
use konduit.Base.{
  ℕ, suc, ◌+◌, ◌-◌, ◌%◌, compare, Ordering, Bool, true, false, not, ◌&&◌, Option, none, some, List,
  [], ◌∷◌, ◌++◌, Bytes, Result, ok, err, panic, ◌>>=◌, ok_or, map_err, map, filter, filter_map,
  is_empty, add64, u64_mod, if◌then◌else◌, bytes_eq, ◌==◌,
}
use konduit.Base.Maps.{Map, get, remove}
use konduit.Base.Maps.Entries.{insert, bytes_ltb}
use konduit.Data.Primitives.{Primitives}
use konduit.Data.Redeemer.{Redeemer}
use konduit.Sdk.Value.{Value, new, with_lovelace, add as add_value}
use konduit.Tx2.Interval.{Interval}
use konduit.Tx2.Step.{
  Error as StepError, Channel, Want, Will, WillCont, WillEol, Step, to_step, signer,
}
use konduit.Tx2.Channel.{buffered_amount}
use konduit.Tx2.Resolve.{resolve}
use konduit.Tx2.Fuel.{Input, Utxo, SelectError, saturating_sub_value, select}

pub data Error : Type 0 where
  missing_input : Error
  step : StepError → Error

pub data BuildError : Type 0 where
  missing_reference missing_utxo balancing : BuildError
  fuel : SelectError → BuildError

-- `opens` is a set, as the list of its channels in their order.
pub record StagedTx : Type 0 where
  pub interval : Interval
  pub channels : Map Channel
  pub wills : Map Will
  pub opens : List Channel

abbrev stage_new : Interval → Map Channel → StagedTx
stage_new interval channels = record {
  interval = interval;
  channels = channels;
  wills = [];
  opens = [];
}

unfoldable pub want : Primitives → StagedTx → Input → Want → Result Error StagedTx
want P st input wish = do
  channel ← ok_or (get st.channels input) missing_input
  will ← map_err Error.step (resolve P channel wish st.interval)
  ok (record st { wills = insert st.wills input will })

unfoldable pub drop_intent : StagedTx → Input → StagedTx
drop_intent st input = record st { wills = remove st.wills input }

abbrev drop_all_intents : StagedTx → StagedTx
drop_all_intents st = record st { wills = [] }

-- `BTreeSet::insert`, by the derived order of channels, and whether the channel is new
add_open_in : (Channel → Channel → Ordering) → List Channel → Channel → List Channel × Bool
add_open_in cmp [] c = (c ∷ [], true)
add_open_in cmp (d ∷ ds) c =
    let (rest, fresh) = add_open_in cmp ds c in
    elim (cmp c d) [
      | Ordering.lt ↦ (c ∷ d ∷ ds, true)
      | Ordering.eq ↦ (d ∷ ds, false)
      | Ordering.gt ↦ (d ∷ rest, fresh)
    ]

add_open : (Channel → Channel → Ordering) → StagedTx → Channel → StagedTx × Bool
unfolding add_open_in
add_open cmp st channel =
    let (opens, fresh) = add_open_in cmp st.opens channel in (record st { opens = opens }, fresh)

abbrev retain : StagedTx → (Channel → Bool) → StagedTx
retain st pred = record st { opens = filter pred st.opens }

abbrev drop_all_opens : StagedTx → StagedTx
drop_all_opens st = record st { opens = [] }

-- The amount that a step leaves in its channel.
abbrev pub cont_amount : Will → ℕ
cont_amount (Will.cont output _) = output.amount
cont_amount (Will.eol _) = 0

-- The wills whose input is on record, with the channel of the input.
unfoldable pub willed : Map Channel → Map Will → List (Channel × Will)
willed channels [] = []
willed channels ((input, will) ∷ rest) = elim (get channels input) [
  | none ↦ willed channels rest
  | some channel ↦ (channel, will) ∷ willed channels rest
]

-- The differences and their sum are of `i64`: here they are taken modulo 2 ^ 64.
unfoldable pub gain_from : ℕ → List (Channel × Will) → ℕ
gain_from acc [] = acc
gain_from acc ((channel, will) ∷ rest) =
    gain_from ((acc + (channel.amount + (u64_mod - cont_amount will % u64_mod))) % u64_mod) rest

unfoldable pub gain : StagedTx → ℕ
gain st = gain_from 0 (willed st.channels st.wills)

-- `sort` and `dedup`
abbrev insert_key : Bytes → List Bytes → List Bytes
insert_key k [] = k ∷ []
insert_key k (j ∷ js) =
    if bytes_eq k j then j ∷ js else if bytes_ltb k j then k ∷ j ∷ js else j ∷ insert_key k js

abbrev sort_dedup : List Bytes → List Bytes
sort_dedup [] = []
sort_dedup (k ∷ ks) = insert_key k (sort_dedup ks)

pub signers : StagedTx → List Bytes
signers st =
    sort_dedup
      (map (λ (cw : Channel × Will). signer cw.1 cw.0.constants) (willed st.channels st.wills))

-- The channels that the transaction pays to.
abbrev pub continued : Will → Option Channel
continued (Will.cont output _) = some output
continued (Will.eol _) = none

abbrev pub will_of : Input × Will → Will
will_of e = e.1

unfoldable pub outputs : StagedTx → List Channel
outputs st = filter_map continued (map will_of st.wills) ++ st.opens

unfoldable pub steps : StagedTx → List Step
steps st = map to_step (map will_of st.wills)

unfoldable pub redeemer : StagedTx → ℕ → Redeemer
redeemer st index = if index == 0 then Redeemer.main (steps st) else Redeemer.defer

-- `keys().enumerate()`, from an index
unfoldable pub inputs_from : StagedTx → ℕ → Map Will → List (Input × Redeemer)
inputs_from st index [] = []
inputs_from st index ((input, will) ∷ rest) =
    (input, redeemer st index) ∷ inputs_from st (suc index) rest

unfoldable pub inputs : StagedTx → List (Input × Redeemer)
inputs st = inputs_from st 0 st.wills

abbrev pub fee_buffer : ℕ
fee_buffer = 4000000

-- The values that the willed inputs hold, added up.
unfoldable pub spent_from : Map Value → Value → Map Will → Result BuildError Value
spent_from utxos acc [] = ok acc
spent_from utxos acc ((input, will) ∷ rest) = do
  output ← ok_or (get utxos input) missing_utxo
  spent_from utxos (add_value acc output) rest

-- `channel_output` pays the buffered amount, in lovelace.
unfoldable pub produced_from : Value → List Channel → Value
produced_from acc [] = acc
produced_from acc (channel ∷ rest) =
    produced_from (add_value acc (new (buffered_amount channel))) rest

unfoldable pub target_of : Value → Value → Value
target_of produced spent =
    let target = saturating_sub_value produced spent in
    with_lovelace target (add64 target.lovelace fee_buffer)

-- What the builder of the SDK is given.
pub record Plan : Type 0 where
  pub inputs : List (Input × Option Redeemer)
  pub collaterals : List Input
  pub outputs : List Channel
  pub signatories : List Bytes
  pub interval : Interval

abbrev pub plan_with : StagedTx → List Input → Plan
plan_with st fuel_inputs = record {
  inputs =
      map (λ (e : Input × Redeemer). (e.0, some e.1)) (inputs st)
      ++ map (λ (i : Input). (i, none)) fuel_inputs;
  collaterals = fuel_inputs;
  outputs = outputs st;
  signatories = signers st;
  interval = st.interval;
}

-- The fuel makes up for what the outputs and the fees need beyond what is spent.
unfoldable pub plan_funds : StagedTx → Map Value → List Utxo → Result BuildError Plan
plan_funds st utxos wallet = do
  spent ← spent_from utxos (new 0) st.wills
  fuel_inputs ← map_err fuel (select wallet (target_of (produced_from (new 0) (outputs st)) spent))
  ok (plan_with st fuel_inputs)

unfoldable pub plan : StagedTx → Map Value → Bool → List Utxo → Result BuildError Plan
plan st utxos referenced wallet =
    if not (is_empty st.wills) && not referenced
    then err missing_reference
    else plan_funds st utxos wallet

-- `build`, over the `Transaction::build` of the SDK. Only a transaction that is built clears the wills
-- and the opens.
build :
    {Tx : Type 0}
    → (Plan → Option Tx)
    → StagedTx
    → Map Value
    → Bool
    → List Utxo
    → Result BuildError (Tx × StagedTx)
build assemble st utxos referenced wallet = do
  made ← plan st utxos referenced wallet
  tx ← ok_or (assemble made) balancing
  ok (tx, record st { wills = []; opens = [] })
