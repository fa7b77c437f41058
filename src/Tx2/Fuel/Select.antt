-- ===== src/Tx2/Fuel/Select.antt =====
-- `select` of packages/konduit/tx2/src/fuel.rs ends, covers what it is asked for, and fails only if the
-- wallet does not cover it.
use konduit.Base.{
  ℕ, zero, suc, ◌+◌, ◌<◌, ◌≤◌, ◌≡◌, ◌≢◌, ◌⊎◌, refl, sym, ◌∙◌, ap, inl, inr, false, true, Bool-cases,
  List, [], ◌∷◌, ◌++◌, map, Bytes, Result, ok, err, panic, length, total, All, arith,
}
use mathlib.Core.List.{append_assoc, append-nil}
use konduit.Sdk.Value.{Value, IsValue, quantity, empty_value}
use konduit.Tx2.Fuel.{
  Input, Utxo, coverage, best_index, SelectError, not_covered, saturating_sub_value, select_loop,
  select,
}
use konduit.Tx2.Fuel.Wallet.{Taken, swap_remove-Taken, best_index-within}
use konduit.Tx2.Fuel.Rest.{
  quantity-saturating_sub_value, saturating_sub_value-IsValue, lovelace-saturating_sub_value,
  quantity-empty, empty-quantity,
}

abbrev pub lovelace_of : Utxo → ℕ
lovelace_of u = u.1.lovelace

abbrev quantity_of : Bytes → Bytes → Utxo → ℕ
quantity_of p n u = quantity u.1 p n

-- The outputs hold together at least the value, in lovelace and in every asset.
pub record Covers (us : List Utxo) (v : Value) : Type 0 where
  pub lovelace : v.lovelace ≤ total lovelace_of us
  pub assets : (p n : Bytes) → quantity v p n ≤ total (quantity_of p n) us

-- The outputs are those that are picked and those that are left, each once.
abbrev pub Splits : List Utxo → List Utxo → List Utxo → Type 0
Splits us picked left = (f : Utxo → ℕ) → total f us ≡ total f picked + total f left

abbrev pub inputs_of : List Utxo → List Input
inputs_of us = map (λ (u : Utxo). u.0) us

abbrev pub AreValues : List Utxo → Type 0
AreValues us = All (λ (u : Utxo). IsValue u.1) us

abbrev Picks : List Utxo → Value → List Input → Result SelectError (List Input) → Type 0
Picks us v before result =
    (picked left : List Utxo) × (result ≡ ok (before ++ inputs_of picked))
    × Splits us picked left
    × Covers picked v

abbrev Fails : List Utxo → Value → Result SelectError (List Input) → Type 0
Fails us v result = (left : Value) × (result ≡ err (not_covered left)) × (Covers us v → ⊥)

-- A round that is not the last takes one output and goes on with the rest.
round :
    (n : ℕ) (v : Value) (u0 : Utxo) (us : List Utxo) (before : List Input)
    → empty_value v ≡ false
    → (u : Utxo) × (rest : List Utxo) × Taken (u0 ∷ us) u rest
      × (select_loop (suc n) v (u0 ∷ us) before
          ≡ select_loop n (saturating_sub_value v u.1) rest (before ++ (u.0 ∷ [])))
unfolding select_loop
round n v u0 us before more =
    let (i, best, within) = best_index-within (λ u. coverage u.1 v) u0 us in
    let (u, rest, taken, same) = swap_remove-Taken (u0 ∷ us) i within in
    (u, rest, same, rw (select_loop, more, best, taken))

-- The loop never runs out of its fuel, and what it takes is always there.
select_loop-total :
    (n : ℕ) (v : Value) (us : List Utxo) (before : List Input)
    → length us < n
    → select_loop n v us before ≢ panic
unfolding select_loop best_index
select_loop-total zero v us before h = absurd (omega arith)
select_loop-total (suc n) v [] before h = elim (Bool-cases (empty_value v)) [
  | inl e ↦ λ p. cc (rw (select_loop, e) at p)
  | inr e ↦ λ p. cc (rw (select_loop, best_index, e) at p)
]
select_loop-total (suc n) v (u0 ∷ us) before h = elim (Bool-cases (empty_value v)) [
  | inl e ↦ λ p. cc (rw (select_loop, e) at p)
  | inr e ↦
      let (u, rest, taken, step) = round n v u0 us before e in
      λ p. select_loop-total n _ rest _ (omega (arith, taken.count)) (sym step ∙ p)
]

-- Taking one output off what is needed and off what there is.
after_round :
    (v : Value) (u : Utxo) (us rest : List Utxo)
    → IsValue v
    → IsValue u.1
    → Taken us u rest
    → Covers us v
    → Covers rest (saturating_sub_value v u.1)
after_round v u us rest hv hu taken c = record {
  lovelace =
      omega (arith, lovelace-saturating_sub_value v u.1, taken.totals lovelace_of, c.lovelace);
  assets = λ p n. omega (
    arith,
    quantity-saturating_sub_value v u.1 hv hu p n,
    taken.totals (quantity_of p n),
    c.assets p n,
  );
}

before_round :
    (v : Value) (u : Utxo) (picked : List Utxo)
    → IsValue v
    → IsValue u.1
    → Covers picked (saturating_sub_value v u.1)
    → Covers (u ∷ picked) v
before_round v u picked hv hu c = record {
  lovelace = omega (arith, lovelace-saturating_sub_value v u.1, c.lovelace);
  assets = λ p n. omega (arith, quantity-saturating_sub_value v u.1 hv hu p n, c.assets p n);
}

Covers-empty : (v : Value) → empty_value v ≡ true → Covers [] v
Covers-empty v e = record {
  lovelace = omega (arith, (quantity-empty v [] [] e).0);
  assets = λ p n. omega (arith, (quantity-empty v p n e).1);
}

select_loop_lem :
    (n : ℕ) (v : Value) (us : List Utxo) (before : List Input)
    → length us < n
    → IsValue v
    → AreValues us
    → Picks us v before (select_loop n v us before) ⊎ Fails us v (select_loop n v us before)
unfolding select_loop best_index
select_loop_lem zero v us before h hv hs = absurd (omega arith)
select_loop_lem (suc n) v [] before h hv hs = elim (Bool-cases (empty_value v)) [
  | inl e ↦ inl ([], [], simp (select_loop, e, append-nil), (λ f. refl), Covers-empty v e)
  | inr e ↦ inr (
    v,
    rw (select_loop, e),
    (λ c.
        let all =
          empty-quantity v hv (omega (arith, c.lovelace)) (λ p n. omega (arith, c.assets p n)) in
        cc (all, e)),
  )
]
select_loop_lem (suc n) v (u0 ∷ us) before h hv hs = elim (Bool-cases (empty_value v)) [
  | inl e ↦
      inl ([], u0 ∷ us, simp (select_loop, e, append-nil), (λ f. omega arith), Covers-empty v e)
  | inr e ↦
      let (u, rest, taken, step) = round n v u0 us before e in
      let (hu, hrest) = taken.alls (λ u. IsValue u.1) hs in
      elim (select_loop_lem n (saturating_sub_value v u.1) rest (before ++ (u.0 ∷ []))
        (omega (arith, taken.count)) (saturating_sub_value-IsValue v u.1 hv hu) hrest) [
          | inl (picked, left, made, splits, covers) ↦ inl (
            u ∷ picked,
            left,
            step ∙ made ∙ ap ok (append_assoc before (u.0 ∷ []) (inputs_of picked)),
            (λ f. omega (arith, taken.totals f, splits f)),
            before_round v u picked hv hu covers,
          )
          | inr (left, made, short) ↦
              inr (left, step ∙ made, (λ c. short (after_round v u (u0 ∷ us) rest hv hu taken c)))
        ]
]

-- The inputs that are selected are those of outputs of the wallet, each taken once, and these
-- outputs hold at least the amount in lovelace and in every asset. For an amount and a wallet of
-- values without null entries.
pub select-Covers :
    (utxos : List Utxo) (amount : Value) (inputs : List Input)
    → IsValue amount
    → AreValues utxos
    → select utxos amount ≡ ok inputs
    → (picked left : List Utxo) × (inputs ≡ inputs_of picked)
      × Splits utxos picked left
      × Covers picked amount
unfolding select
select-Covers utxos amount inputs hv hs h =
    elim (select_loop_lem (suc (length utxos)) amount utxos [] (omega arith) hv hs) [
      | inl (picked, left, made, splits, covers) ↦ (picked, left, cc (h, made), splits, covers)
      | inr (left, made, short) ↦ cc (h, made)
    ]

-- A wallet that holds at least the amount in lovelace and in every asset is selected from, whatever
-- the greedy choices. For an amount and a wallet of values without null entries.
pub select_complete :
    (utxos : List Utxo) (amount : Value)
    → IsValue amount
    → AreValues utxos
    → Covers utxos amount
    → (inputs : List Input) × (select utxos amount ≡ ok inputs)
unfolding select
select_complete utxos amount hv hs c =
    elim (select_loop_lem (suc (length utxos)) amount utxos [] (omega arith) hv hs) [
      | inl (picked, left, made, splits, covers) ↦ (inputs_of picked, made)
      | inr (left, made, short) ↦ absurd (short c)
    ]

-- The selection ends within one round for each output of the wallet and one more, and what it takes
-- is always there, for any wallet and any amount.
pub select-total : (utxos : List Utxo) (amount : Value) → select utxos amount ≢ panic
unfolding select
select-total utxos amount = select_loop-total (suc (length utxos)) amount utxos [] (omega arith)
