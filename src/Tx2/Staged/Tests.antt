-- ===== src/Tx2/Staged/Tests.antt =====
-- Runs of packages/konduit/tx2/src/{fuel,staged_tx}.rs, and of the values of the SDK.
use konduit.Base.{
  ℕ, ◌-◌, ◌%◌, ◌≡◌, ◌≢◌, refl, Bool, false, Option, none, some, List, [], ◌∷◌, Bytes, Result, ok,
  err, panic, u64_mod, arith,
}
use konduit.Base.Maps.{Map}
use konduit.Sdk.Value.{Value, IsValue, new, quantity, add}
use konduit.Receipt.Tests.{plain}
use konduit.Tx2.Step.{Want, Will, WillCont}
use konduit.Tx2.Tests.{window, open_channel, added}
use konduit.Tx2.Fuel.{Utxo, Input, select, saturating_sub_value}
use konduit.Tx2.Fuel.Select.{
  select-Covers, select_complete, select-total, Covers, Splits, AreValues, inputs_of,
}
use konduit.Tx2.Staged.{StagedTx, Plan, want, gain, inputs, steps, willed}

-- A policy and an asset name, and a value with some of it.
abbrev policy : Bytes
policy = 1 ∷ 2 ∷ []

abbrev coin : Bytes
coin = 9 ∷ []

abbrev with_coin : ℕ → ℕ → Value
with_coin lovelace q = record { lovelace = lovelace; assets = (policy, (coin, q) ∷ []) ∷ [] }

with_coin-IsValue : (l : ℕ) → IsValue (with_coin l 7)
with_coin-IsValue l = record {
  keys = (tt, tt);
  names = ((tt, tt), tt);
  nonnull = ((refl, (omega arith, tt)), tt);
}

new-IsValue : (l : ℕ) → IsValue (new l)
new-IsValue l = record { keys = tt; names = tt; nonnull = tt }

-- The wallet: the second output has the coin.
abbrev wallet : List Utxo
wallet = (1 ∷ [], new 10000000) ∷ (2 ∷ [], with_coin 2000000 7) ∷ []

wallet-AreValues : AreValues wallet
wallet-AreValues = (new-IsValue 10000000, (with_coin-IsValue 2000000, tt))

-- The output with the coin goes first, though the other holds more lovelace.
wallet-select : select wallet (with_coin 3000000 7) ≡ ok ((2 ∷ []) ∷ (1 ∷ []) ∷ [])
unfolding select konduit.Tx2.Fuel.select_loop konduit.Tx2.Fuel.best_index konduit.Tx2.Fuel.best_from
    konduit.Tx2.Fuel.swap_remove konduit.Tx2.Fuel.split_last konduit.Tx2.Fuel.coverage
    konduit.Tx2.Fuel.asset_hits konduit.Tx2.Fuel.hits_of saturating_sub_value
    konduit.Tx2.Fuel.less_policy konduit.Tx2.Fuel.less_quantity konduit.Sdk.Value.with_assets
    konduit.Sdk.Value.attach konduit.Sdk.Value.attach_one konduit.Sdk.Value.nonzero
    konduit.Base.Maps.get konduit.Base.Maps.write konduit.Base.Maps.remove
    konduit.Base.Maps.Entries.insert konduit.Base.Maps.Loops.each
wallet-select = refl

-- Two assets, ten of each wanted: an output with one of each is taken before the two with ten.
abbrev two_coins : ℕ → ℕ → Value
two_coins q r = record { lovelace = 0; assets = (policy, (8 ∷ [], q) ∷ (9 ∷ [], r) ∷ []) ∷ [] }

abbrev only : ℕ → Value
only c = record { lovelace = 0; assets = (policy, (c ∷ [], 10) ∷ []) ∷ [] }

three-select :
    select ((1 ∷ [], two_coins 1 1) ∷ (2 ∷ [], only 8) ∷ (3 ∷ [], only 9) ∷ []) (two_coins 10 10)
    ≡ ok ((1 ∷ []) ∷ (2 ∷ []) ∷ (3 ∷ []) ∷ [])
unfolding select konduit.Tx2.Fuel.select_loop konduit.Tx2.Fuel.best_index konduit.Tx2.Fuel.best_from
    konduit.Tx2.Fuel.swap_remove konduit.Tx2.Fuel.split_last konduit.Tx2.Fuel.coverage
    konduit.Tx2.Fuel.asset_hits konduit.Tx2.Fuel.hits_of saturating_sub_value
    konduit.Tx2.Fuel.less_policy konduit.Tx2.Fuel.less_quantity konduit.Sdk.Value.with_assets
    konduit.Sdk.Value.attach konduit.Sdk.Value.attach_one konduit.Sdk.Value.nonzero
    konduit.Base.Maps.get konduit.Base.Maps.write konduit.Base.Maps.remove
    konduit.Base.Maps.Entries.insert konduit.Base.Maps.Loops.each
three-select = refl

select-Covers_example :
    (picked left : List Utxo) × (((2 ∷ []) ∷ (1 ∷ []) ∷ []) ≡ inputs_of picked)
    × Splits wallet picked left
    × Covers picked (with_coin 3000000 7)
select-Covers_example =
    select-Covers wallet (with_coin 3000000 7) ((2 ∷ []) ∷ (1 ∷ []) ∷ [])
      (with_coin-IsValue 3000000) wallet-AreValues wallet-select

wallet-Covers : Covers wallet (with_coin 3000000 7)
unfolding konduit.Base.Maps.get
wallet-Covers = record { lovelace = omega arith; assets = λ p n. omega arith }

select_complete_example : (inputs : List Input) × (select wallet (with_coin 3000000 7) ≡ ok inputs)
select_complete_example =
    select_complete wallet (with_coin 3000000 7) (with_coin-IsValue 3000000) wallet-AreValues
      wallet-Covers

select-total_example : select wallet (with_coin 90000000 7) ≢ panic
select-total_example = select-total wallet (with_coin 90000000 7)

-- One channel on record, of which an input stands under its own key.
abbrev key : Input
key = 4 ∷ []

abbrev before : StagedTx
before = record { interval = window; channels = (key, open_channel) ∷ []; wills = []; opens = [] }

abbrev after : StagedTx
after = record before { wills = (key, Will.cont added (WillCont.add 5)) ∷ [] }

before-want : want plain before key (Want.add 5) ≡ ok after
unfolding want konduit.Tx2.Resolve.resolve konduit.Tx2.Channel.want_add konduit.Base.Words.add64
    konduit.Base.Maps.get konduit.Base.Maps.Entries.insert
before-want = refl

-- The values of the inputs of the channels.
abbrev utxos : Map Value
utxos = (key, new 2000020) ∷ []
