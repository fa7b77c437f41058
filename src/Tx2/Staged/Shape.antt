-- ===== src/Tx2/Staged/Shape.antt =====
-- packages/konduit/tx2/src/staged_tx.rs: the inputs and the outputs of the transaction of a staged set.
use konduit.Base.{
  ℕ, ◌≡◌, refl, ap, suc, Option, none, some, List, [], ◌∷◌, ◌++◌, map, Bytes, filter_map, arith,
}
use konduit.Base.Maps.{Map}
use konduit.Data.Redeemer.{Redeemer}
use konduit.Tx2.Step.{Channel, Will, to_step}
use konduit.Tx2.Fuel.{Utxo}
use konduit.Tx2.Fuel.Select.{inputs_of}
use konduit.Tx2.Staged.{
  StagedTx, plan_with, outputs, continued, will_of, inputs, inputs_from, steps, redeemer,
}

-- The channels that a transaction pays to: what each will continues, in the order of the wills.
abbrev pub kept : Map Will → List Channel
kept [] = []
kept ((input, Will.cont output step) ∷ rest) = output ∷ kept rest
kept ((input, Will.eol step) ∷ rest) = kept rest

-- An input of a channel that leaves its step to the first one.
abbrev pub deferred : Bytes × Will → Bytes × Option Redeemer
deferred e = (e.0, some Redeemer.defer)

-- The inputs of the channels: the first has the steps of all.
abbrev pub scripted : Map Will → List (Bytes × Option Redeemer)
scripted [] = []
scripted ((input, will) ∷ rest) =
    (input, some (Redeemer.main (map (λ e. to_step e.1) ((input, will) ∷ rest))))
    ∷ map deferred rest

-- An input of the wallet runs no script.
abbrev pub unscripted : Utxo → Bytes × Option Redeemer
unscripted u = (u.0, none)

pub outputs-kept : (st : StagedTx) → outputs st ≡ kept st.wills ++ st.opens
unfolding outputs mathlib.Core.List.filter_map
outputs-kept st = go st.wills
  where
    go :
        (wills : Map Will)
        → filter_map continued (map will_of wills) ++ st.opens ≡ kept wills ++ st.opens
    go [] = refl
    go ((input, Will.cont output step) ∷ rest) = ap (λ cs. output ∷ cs) (go rest)
    go ((input, Will.eol step) ∷ rest) = go rest

abbrev with_redeemer : Bytes × Redeemer → Bytes × Option Redeemer
with_redeemer e = (e.0, some e.1)

redeemer-deferred : (st : StagedTx) (n : ℕ) → redeemer st (suc n) ≡ Redeemer.defer
unfolding redeemer
redeemer-deferred st n = ground arith

inputs_from-deferred :
    (st : StagedTx) (n : ℕ) (wills : Map Will)
    → map with_redeemer (inputs_from st (suc n) wills) ≡ map deferred wills
unfolding inputs_from
inputs_from-deferred st n [] = refl
inputs_from-deferred st n ((input, will) ∷ rest) =
    rw (redeemer-deferred st n)
      (ap (λ es. deferred (input, will) ∷ es) (inputs_from-deferred st (suc n) rest))

steps_map : (wills : Map Will) → map to_step (map will_of wills) ≡ map (λ e. to_step e.1) wills
steps_map [] = refl
steps_map (e ∷ rest) = ap (λ ss. to_step e.1 ∷ ss) (steps_map rest)

inputs-scripted : (st : StagedTx) → map with_redeemer (inputs st) ≡ scripted st.wills
unfolding inputs inputs_from redeemer steps
inputs-scripted st = go st.wills refl
  where
    go :
        (wills : Map Will)
        → st.wills ≡ wills
        → map with_redeemer (inputs_from st 0 wills) ≡ scripted wills
    go [] e = refl
    go ((input, will) ∷ rest) e =
        rw (e, steps_map ((input, will) ∷ rest), inputs_from-deferred st 0 rest) refl

fuel-unscripted :
    (picked : List Utxo) → map (λ (i : Bytes). (i, none)) (inputs_of picked) ≡ map unscripted picked
fuel-unscripted [] = refl
fuel-unscripted (u ∷ us) = ap (λ es. unscripted u ∷ es) (fuel-unscripted us)

pub plan_with-inputs :
    (st : StagedTx) (picked : List Utxo) (fuel_inputs : List Bytes)
    → fuel_inputs ≡ inputs_of picked
    → (plan_with st fuel_inputs).inputs ≡ scripted st.wills ++ map unscripted picked
plan_with-inputs st picked fuel_inputs e = rw (e, inputs-scripted st, fuel-unscripted picked) refl
