-- ===== src/Sdk/Value.antt =====
-- packages/cardano/sdk/src/cardano/value.rs, at quantities of 64 bits: an amount of lovelace, and for
-- each policy and asset name a quantity. `&mut self` becomes a new value.
pub mod Attach
pub mod Sums
use konduit.Base.{
  ℕ, ◌-◌, ◌<◌, ◌≡◌, Bool, true, false, not, ◌&&◌, Option, none, some, List, [], ◌∷◌, Bytes, Result,
  ok, err, ◌>>=◌, ◌==◌, ltb, if◌then◌else◌, is_empty, filter, map, add64, All,
}
use konduit.Base.Maps.{Map, get, write, remove, HasKeys}
use konduit.Base.Maps.Entries.{insert, AllValues}
use konduit.Base.Maps.Loops.{each}

-- The quantities by asset name, and the assets by policy.
abbrev pub Names : Type 0
Names = Map ℕ

abbrev pub Assets : Type 0
Assets = Map Names

pub record Value : Type 0 where
  pub lovelace : ℕ
  pub assets : Assets

abbrev pub new : ℕ → Value
new lovelace = record { lovelace = lovelace; assets = [] }

abbrev pub with_lovelace : Value → ℕ → Value
with_lovelace v lovelace = record v { lovelace = lovelace }

abbrev pub empty_value : Value → Bool
empty_value v = (v.lovelace == 0) && is_empty v.assets

-- `BTreeMap::append`
pub append : Names → Names → Names
append = each insert

unfoldable pub nonzero : Names → Names
nonzero [] = []
nonzero ((k, q) ∷ m) = if q == 0 then nonzero m else (k, q) ∷ nonzero m

-- The loop of `with_assets`, for a map of assets.
unfoldable pub attach_one : Assets → Bytes → Names → Assets
attach_one into policy inner = elim (get into policy) [
  | none ↦ insert into policy (nonzero inner)
  | some entry ↦ write into policy (append entry (nonzero inner))
]

unfoldable pub attach : Assets → Assets → Assets
attach = each attach_one

unfoldable pub with_assets : Value → Assets → Value
with_assets v assets = record v { assets = attach v.assets assets }

-- `prune_null_values`
unfoldable pub prune_null_values : Assets → Assets
prune_null_values [] = []
prune_null_values ((policy, names) ∷ rest) =
    let pruned = prune_null_values rest in
    if is_empty (nonzero names) then pruned else (policy, nonzero names) ∷ pruned

-- What `add` does for one quantity, for those of one policy, and for all. A sum wraps.
unfoldable pub add_quantity : Names → Bytes → ℕ → Names
add_quantity m name q = elim (get m name) [
  | none ↦ insert m name q
  | some x ↦ write m name (add64 x q)
]

unfoldable pub add_names : Names → Names → Names
add_names = each add_quantity

unfoldable pub add_policy : Assets → Bytes → Names → Assets
add_policy a policy names = elim (get a policy) [
  | none ↦ insert a policy names
  | some entry ↦ write a policy (add_names entry names)
]

unfoldable pub add_assets : Assets → Assets → Assets
add_assets = each add_policy

unfoldable pub add : Value → Value → Value
add a b = record {
  lovelace = add64 a.lovelace b.lovelace;
  assets = prune_null_values (add_assets a.assets b.assets);
}

-- The messages of `checked_sub`.
pub data ValueError : Type 0 where
  lovelace unknown_policy unknown_asset insufficient : ValueError

sub_quantity : Names → Bytes → ℕ → Result ValueError Names
sub_quantity m name q = elim (get m name) [
  | none ↦ err unknown_asset
  | some x ↦ if ltb x q then err insufficient else ok (write m name (x - q))
]

sub_names : Names → Names → Result ValueError Names
sub_names m [] = ok m
sub_names m ((name, q) ∷ rest) = sub_quantity m name q >>= λ left. sub_names left rest

sub_policy : Assets → Bytes → Names → Result ValueError Assets
sub_policy a policy names = elim (get a policy) [
  | none ↦ err unknown_policy
  | some entry ↦ sub_names entry names >>= λ left. ok (write a policy left)
]

sub_assets : Assets → Assets → Result ValueError Assets
sub_assets a [] = ok a
sub_assets a ((policy, names) ∷ rest) = sub_policy a policy names >>= λ left. sub_assets left rest

checked_sub : Value → Value → Result ValueError Value
checked_sub a b =
    let rest = do
      assets ← sub_assets a.assets b.assets
      ok (record { lovelace = a.lovelace - b.lovelace; assets = prune_null_values assets })
    in if ltb a.lovelace b.lovelace then err ValueError.lovelace else rest

-- How much of an asset a value holds.
abbrev pub held : Names → Bytes → ℕ
held m name = elim (get m name) [ none ↦ 0 | some q ↦ q ]

abbrev pub held_in : Assets → Bytes → Bytes → ℕ
held_in a policy name = elim (get a policy) [ none ↦ 0 | some m ↦ held m name ]

abbrev pub quantity : Value → Bytes → Bytes → ℕ
quantity v policy name = held_in v.assets policy name

-- No policy without assets, and no asset without a quantity.
abbrev pub IsNonNull : Names → Type 0
IsNonNull m = (is_empty m ≡ false) × AllValues (λ q. 0 < q) m

pub record IsValue (v : Value) : Type 0 where
  pub keys : HasKeys v.assets
  pub names : AllValues HasKeys v.assets
  pub nonnull : AllValues IsNonNull v.assets
