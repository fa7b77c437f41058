-- ===== src/Tx2/Fuel.antt =====
-- packages/konduit/tx2/src/fuel.rs: which outputs of a wallet are spent to cover a value. Of an output
-- only its value is read. The running `total` of the source is never read, and is left out.
pub mod Subtract
pub mod Policies
pub mod Wallet
pub mod Rest
pub mod Select
use konduit.Base.{
  ℕ, zero, suc, ◌+◌, ◌-◌, min, Bool, true, false, ◌&&◌, ◌||◌, Option, none, some, List, [], ◌∷◌,
  ◌++◌, Bytes, Result, ok, err, panic, map, length, ltb, leb, ◌==◌, if◌then◌else◌, is_empty,
}
use konduit.Base.Maps.{Map, get, write, remove}
use konduit.Base.Maps.Loops.{each}
use konduit.Sdk.Value.{Value, Names, Assets, new, empty_value, with_assets}

-- One quantity of `saturating_sub_value`: it is written, and its entry removed if nothing is left.
unfoldable pub less_quantity : Names → Bytes → ℕ → Names
less_quantity m name q = elim (get m name) [
  | none ↦ m
  | some x ↦
      let written = write m name (x - q) in if (x - q) == 0 then remove written name else written
]

unfoldable pub less_policy : Assets → Bytes → Names → Assets
less_policy a policy names = elim (get a policy) [
  | none ↦ a
  | some m ↦
      let left = each less_quantity m names in
      let written = write a policy left in if is_empty left then remove written policy else written
]

unfoldable pub saturating_sub_value : Value → Value → Value
saturating_sub_value a b =
    with_assets (new (a.lovelace - b.lovelace)) (each less_policy a.assets b.assets)

-- The hash of a transaction and an index, as one string.
abbrev pub Input : Type 0
Input = Bytes

abbrev pub Utxo : Type 0
Utxo = Input × Value

-- The assets that are needed and that the candidate has.
unfoldable pub hits_of : Names → Names → ℕ
hits_of candidate [] = 0
hits_of candidate ((name, q) ∷ needed) =
    let rest = hits_of candidate needed in
    let has : Bool = elim (get candidate name) [ none ↦ false | some c ↦ ltb 0 c ] in
    if ltb 0 q && has then suc rest else rest

unfoldable pub asset_hits : Assets → Assets → ℕ
asset_hits candidate [] = 0
asset_hits candidate ((policy, needed) ∷ rest) =
    elim (get candidate policy) [ none ↦ 0 | some names ↦ hits_of names needed ]
    + asset_hits candidate rest

unfoldable pub coverage : Value → Value → ℕ × ℕ
coverage candidate remaining =
    (asset_hits candidate.assets remaining.assets, min candidate.lovelace remaining.lovelace)

-- The order of pairs.
abbrev pub key_le : ℕ × ℕ → ℕ × ℕ → Bool
key_le (a, b) (c, d) = ltb a c || ((a == c) && leb b d)

-- `max_by_key` over `enumerate`: the position of the last greatest item. `at` counts the items, and the
-- best so far stands with its key.
unfoldable pub best_from : (Utxo → ℕ × ℕ) → ℕ → ℕ → ℕ × ℕ → List Utxo → ℕ
best_from key at best top [] = best
best_from key at best top (u ∷ us) =
    let later = best_from key (suc at) at (key u) us in
    let earlier = best_from key (suc at) best top us in
    if key_le top (key u) then later else earlier

unfoldable pub best_index : (Utxo → ℕ × ℕ) → List Utxo → Option ℕ
best_index key [] = none
best_index key (u ∷ us) = some (best_from key 1 0 (key u) us)

-- `Vec::swap_remove`: the last item takes the place of the one that is taken.
unfoldable pub split_last : Utxo → List Utxo → List Utxo × Utxo
split_last u [] = ([], u)
split_last u (v ∷ us) = let (front, l) = split_last v us in (u ∷ front, l)

abbrev pub replace_at : List Utxo → ℕ → Utxo → List Utxo
replace_at [] i v = []
replace_at (u ∷ us) zero v = v ∷ us
replace_at (u ∷ us) (suc i) v = u ∷ replace_at us i v

abbrev pub item_at : List Utxo → ℕ → Option Utxo
item_at [] i = none
item_at (u ∷ us) zero = some u
item_at (u ∷ us) (suc i) = item_at us i

unfoldable pub swap_remove : List Utxo → ℕ → Option (Utxo × List Utxo)
swap_remove [] i = none
swap_remove (v ∷ vs) i = elim (item_at (v ∷ vs) i) [
  | none ↦ none
  | some u ↦
      let (front, l) = split_last v vs in
      some (u, if i == length front then front else replace_at front i l)
]

pub data SelectError : Type 0 where
  not_covered : Value → SelectError

-- The `while` loop of `select`. Each round takes one of the outputs, so that one round more than there
-- are outputs is enough fuel.
unfoldable pub select_loop : ℕ → Value → List Utxo → List Input → Result SelectError (List Input)
select_loop zero remaining available selected = panic
select_loop (suc n) remaining available selected =
    let next : Result SelectError (List Input) =
      elim (best_index (λ u. coverage u.1 remaining) available) [
        | none ↦ err (not_covered remaining)
        | some i ↦ elim (swap_remove available i) [
          | none ↦ panic
          | some (u, rest) ↦
              select_loop n (saturating_sub_value remaining u.1) rest (selected ++ (u.0 ∷ []))
        ]
      ] in
    if empty_value remaining then ok selected else next

unfoldable pub select : List Utxo → Value → Result SelectError (List Input)
select utxos amount = select_loop (suc (length utxos)) amount utxos []
