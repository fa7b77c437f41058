-- ===== src/Tx2/Staged/Intents.antt =====
-- The steps chosen, what they gain and the redeemers that carry them:
-- packages/konduit/tx2/src/staged_tx.rs.
use konduit.Base.{
  ℕ, suc, ◌+◌, ◌%◌, ◌-◌, ◌≡◌, refl, sym, ◌∙◌, ap, subst, Bool-cases, inl, inr, some, List, [], ◌∷◌,
  bytes_eq, bytes_eq→eq, ok, ◌>>=◌, total, map, u64_mod, arith, >>=-eq-ok, ok_or-eq-ok,
  map_err-eq-ok, ok_or, map_err,
}
use konduit.Base.Maps.{Map, get, remove}
use konduit.Base.Maps.Entries.{insert, bytes_ltb}
use konduit.Data.Primitives.{Primitives}
use konduit.Data.Redeemer.{Redeemer}
use konduit.Tx2.Interval.{Interval}
use konduit.Tx2.Step.{Channel, Want, Will}
use konduit.Tx2.Resolve.{resolve}
use konduit.Tx2.Fuel.{Input}
use konduit.Tx2.Staged.{
  StagedTx, missing_input, step, want, drop_intent, gain, gain_from, willed, cont_amount, steps,
  redeemer, inputs, inputs_from,
}

-- A will that resolve makes of the channel on record, for some want.
abbrev IsResolvedAt : Primitives → Interval → Map Channel → Input → Will → Type 0
IsResolvedAt P i channels input will =
    (channel : Channel) × (wish : Want) × (get channels input ≡ some channel)
    × (resolve P channel wish i ≡ ok will)

abbrev AllResolved : Primitives → Interval → Map Channel → Map Will → Type 0
AllResolved P i channels [] = Unit
AllResolved P i channels ((input, will) ∷ rest) =
    IsResolvedAt P i channels input will × AllResolved P i channels rest

abbrev pub IsResolved : Primitives → StagedTx → Type 0
IsResolved P st = AllResolved P st.interval st.channels st.wills

module _ (P : Primitives) (i : Interval) (channels : Map Channel) where
  AllResolved-insert :
      (wills : Map Will) (input : Input) (will : Will)
      → IsResolvedAt P i channels input will
      → AllResolved P i channels wills
      → AllResolved P i channels (insert wills input will)
  unfolding insert
  AllResolved-insert [] input will r rs = (r, tt)
  AllResolved-insert ((j, w) ∷ wills) input will r (s, ss) = elim (Bool-cases (bytes_eq j input)) [
    | inl e ↦
        let same = sym (bytes_eq→eq j input e) in
        rw e (subst (λ k. IsResolvedAt P i channels k will) same r, ss)
    | inr e ↦ elim (Bool-cases (bytes_ltb input j)) [
      | inl l ↦ rw (e, l) (r, (s, ss))
      | inr l ↦ rw (e, l) (s, AllResolved-insert wills input will r ss)
    ]
  ]

  AllResolved-remove :
      (wills : Map Will) (input : Input)
      → AllResolved P i channels wills
      → AllResolved P i channels (remove wills input)
  unfolding remove
  AllResolved-remove [] input rs = tt
  AllResolved-remove ((j, w) ∷ wills) input (s, ss) = elim (Bool-cases (bytes_eq j input)) [
    | inl e ↦ rw e ss
    | inr e ↦ rw e (s, AllResolved-remove wills input ss)
  ]

-- Each step that is staged is one that resolve makes of the channel on record, at the interval of
-- the stage, and a further want keeps it so.
want-IsResolved :
    (P : Primitives) (st st' : StagedTx) (input : Input) (wish : Want)
    → IsResolved P st
    → want P st input wish ≡ ok st'
    → IsResolved P st'
unfolding want
want-IsResolved P st st' input wish rs h =
    let (channel, found, more) =
      >>=-eq-ok (ok_or (get st.channels input) missing_input)
        (λ channel. map_err step (resolve P channel wish st.interval) >>= λ will.
          ok (record st { wills = insert st.wills input will }))
        h in
    let (will, made, same) =
      >>=-eq-ok (map_err step (resolve P channel wish st.interval))
        (λ will. ok (record st { wills = insert st.wills input will })) more in
    let is : record st { wills = insert st.wills input will } ≡ st' = cc same in
    subst (IsResolved P) is (
      AllResolved-insert P st.interval st.channels st.wills input will
        (channel, wish, ok_or-eq-ok _ _ found, map_err-eq-ok step _ made) rs)

drop_intent-IsResolved :
    (P : Primitives) (st : StagedTx) (input : Input)
    → IsResolved P st
    → IsResolved P (drop_intent st input)
unfolding drop_intent
drop_intent-IsResolved P st input = AllResolved-remove P st.interval st.channels st.wills input

-- What the channels hold before their steps, and after.
abbrev pub amount_before : Channel × Will → ℕ
amount_before (channel, will) = channel.amount

abbrev pub amount_after : Channel × Will → ℕ
amount_after (channel, will) = cont_amount will

gain_from-sum :
    (acc : ℕ) (cs : List (Channel × Will))
    → (gain_from acc cs + total amount_after cs) % u64_mod
      ≡ (acc + total amount_before cs) % u64_mod
unfolding gain_from
gain_from-sum acc [] = refl
gain_from-sum acc ((channel, will) ∷ cs) =
    let next = (acc + (channel.amount + (u64_mod - cont_amount will % u64_mod))) % u64_mod in
    omega (arith, gain_from-sum next cs)

-- The gain of a staged set is what its channels hold before their steps less what they hold after,
-- modulo 2 ^ 64.
gain_lem :
    (st : StagedTx)
    → (gain st + total amount_after (willed st.channels st.wills)) % u64_mod
      ≡ total amount_before (willed st.channels st.wills) % u64_mod
unfolding gain
gain_lem st = omega (arith, gain_from-sum 0 (willed st.channels st.wills))

-- The redeemers after the first.
inputs_from-defer :
    (st : StagedTx) (k : ℕ) (wills : Map Will)
    → inputs_from st (suc k) wills ≡ map (λ (e : Input × Will). (e.0, Redeemer.defer)) wills
unfolding inputs_from redeemer
inputs_from-defer st k [] = refl
inputs_from-defer st k ((input, will) ∷ wills) =
    let later : redeemer st (suc k) ≡ Redeemer.defer = ground arith in
    cc (later, inputs_from-defer st (suc k) wills)

first_input :
    (st : StagedTx) (input : Input) (will : Will) (rest : Map Will)
    → inputs_from st 0 ((input, will) ∷ rest)
      ≡ (input, Redeemer.main (steps st)) ∷ map (λ (e : Input × Will). (e.0, Redeemer.defer)) rest
unfolding inputs_from redeemer
first_input st input will rest =
    ap (λ l. (input, Redeemer.main (steps st)) ∷ l) (inputs_from-defer st 0 rest)

-- The first input carries the steps of all the inputs, in their order, and every other input defers
-- to it.
inputs_lem :
    (st : StagedTx) (input : Input) (will : Will) (rest : Map Will)
    → st.wills ≡ (input, will) ∷ rest
    → inputs st
      ≡ (input, Redeemer.main (steps st)) ∷ map (λ (e : Input × Will). (e.0, Redeemer.defer)) rest
unfolding inputs
inputs_lem st input will rest e = ap (inputs_from st 0) e ∙ first_input st input will rest
