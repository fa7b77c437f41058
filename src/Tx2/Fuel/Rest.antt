-- ===== src/Tx2/Fuel/Rest.antt =====
-- `saturating_sub_value` of packages/konduit/tx2/src/fuel.rs, on whole values.
use konduit.Base.{ℕ, ◌-◌, ◌≡◌, ◌∙◌, ◌&&◌, refl, true, [], ◌∷◌, Bytes, is_empty, ◌==◌, arith}
use konduit.Base.Maps.{get, get_first, HasKeys}
use konduit.Base.Maps.Entries.{AllValues}
use konduit.Base.Maps.Loops.{each}
use konduit.Sdk.Value.{
  Value, Names, Assets, IsValue, IsNonNull, quantity, held_in, held, with_assets, empty_value,
}
use konduit.Sdk.Value.Attach.{attach-HasKeys, attach-AllValues, held_in-attach}
use konduit.Tx2.Fuel.{saturating_sub_value, less_policy}
use konduit.Tx2.Fuel.Policies.{less-Keyed, held_in-less, less-NonNull}

module _ (a b : Value) (va : IsValue a) (vb : IsValue b) where
  keyed :
      HasKeys (each less_policy a.assets b.assets)
      × AllValues HasKeys (each less_policy a.assets b.assets)
  keyed = less-Keyed a.assets b.assets (va.keys, va.names) (vb.keys, vb.names)

  nonnull : AllValues IsNonNull (each less_policy a.assets b.assets)
  nonnull = less-NonNull a.assets b.assets va.nonnull vb.names

  -- What is left of each asset is the difference, or nothing.
  pub quantity-saturating_sub_value :
      (p n : Bytes) → quantity (saturating_sub_value a b) p n ≡ quantity a p n - quantity b p n
  unfolding saturating_sub_value with_assets
  quantity-saturating_sub_value p n =
      held_in-attach _ keyed.0 nonnull p n
      ∙ held_in-less a.assets b.assets (va.keys, va.names) (vb.keys, vb.names) p n

  pub saturating_sub_value-IsValue : IsValue (saturating_sub_value a b)
  unfolding saturating_sub_value with_assets
  saturating_sub_value-IsValue = record {
    keys = attach-HasKeys _ keyed.0 nonnull;
    names = attach-AllValues _ keyed.0 nonnull HasKeys keyed.1;
    nonnull = attach-AllValues _ keyed.0 nonnull IsNonNull nonnull;
  }

pub lovelace-saturating_sub_value :
    (a b : Value) → (saturating_sub_value a b).lovelace ≡ a.lovelace - b.lovelace
unfolding saturating_sub_value with_assets
lovelace-saturating_sub_value a b = refl

-- A value that is empty holds nothing, and a value that holds nothing is empty.
pub quantity-empty :
    (v : Value) (p n : Bytes) → empty_value v ≡ true → (v.lovelace ≡ 0) × (quantity v p n ≡ 0)
unfolding get
quantity-empty v p n h = at v.lovelace v.assets h
  where
    at : (l : ℕ) (a : Assets) → (l == 0) && is_empty a ≡ true → (l ≡ 0) × (held_in a p n ≡ 0)
    at l [] h = (ground arith, refl)
    at l (x ∷ a) h = ground arith

held_in-first :
    (p n : Bytes) (x : ℕ) (m : Names) (a : Assets) → held_in ((p, (n, x) ∷ m) ∷ a) p n ≡ x
held_in-first p n x m a = rw (held_in, get_first a p ((n, x) ∷ m)) (rw (held, get_first m n x))

assets-empty :
    (a : Assets) → AllValues IsNonNull a → ((p n : Bytes) → held_in a p n ≡ 0) → is_empty a ≡ true
assets-empty [] h q = refl
assets-empty ((p, []) ∷ a) (h, hs) q = cc h.0
assets-empty ((p, (n, x) ∷ m) ∷ a) (h, hs) q =
    absurd (omega (arith, held_in-first p n x m a, q p n, h.1.0))

pub empty-quantity :
    (v : Value)
    → IsValue v
    → v.lovelace ≡ 0
    → ((p n : Bytes) → quantity v p n ≡ 0)
    → empty_value v ≡ true
empty-quantity v valid l q = ground (arith, assets-empty v.assets valid.nonnull q)
