-- ===== src/Tx2/Staged/Funding.antt =====
-- What the transaction of a staged set spends covers what it pays: packages/konduit/tx2/src/staged_tx.rs.
use konduit.Base.{ℕ, List, Bytes, filter_map}
use konduit.Base.Maps.{Map, get}
use konduit.Sdk.Value.{Value, add as add_value}
use konduit.Tx2.Step.{Channel, Will}

-- The values of the willed inputs that are on record.
abbrev pub spent_values : Map Value → Map Will → List Value
spent_values utxos wills = filter_map (λ (e : Bytes × Will). get utxos e.0) wills

abbrev pub lovelace_in : Value → ℕ
lovelace_in v = v.lovelace
