-- ===== src/Base/Maps.antt =====
-- `BTreeMap` with byte strings as keys, as the list of its entries in the order of the keys.
pub mod Entries
pub mod Loops
use Prim.Native.Nat.{ℕ, suc, compare, Ordering}
use mathlib.Core.Path.{◌≡◌, refl, sym, ◌∙◌, subst}
use mathlib.Core.Logic.{inl, inr}
use mathlib.Core.Bool.{Bool, true, false, not}
use mathlib.Core.Option.{Option, none, some}
use mathlib.Core.List.{List, [], ◌∷◌, map}
use native.Mathlib.Omega.{arith}
use konduit.Base.Tests.{if◌then◌else◌, ltb, Bool-cases}
use konduit.Base.Lists.{Bytes, bytes_eq, bytes_eq_self, bytes_eq→eq, filter, All}

abbrev pub Map {ℓ} : Type ℓ → Type ℓ
Map A = List (Bytes × A)

module _ {ℓ} {A : Type ℓ} where
  unfoldable pub get : Map A → Bytes → Option A
  get [] k = none
  get ((j, x) ∷ m) k = if bytes_eq j k then some x else get m k

  pub get_first : (m : Map A) (k : Bytes) (x : A) → get ((k, x) ∷ m) k ≡ some x
  unfolding get
  get_first m k x = simp (bytes_eq_self k)

  pub get_here :
      (m : Map A) (j k : Bytes) (x : A) → bytes_eq j k ≡ true → get ((j, x) ∷ m) k ≡ some x
  unfolding get
  get_here m j k x h = simp h

  pub get_later :
      (m : Map A) (j k : Bytes) (x : A) → bytes_eq j k ≡ false → get ((j, x) ∷ m) k ≡ get m k
  unfolding get
  get_later m j k x h = simp h

  -- A write through `get_mut`: the entry of the key, if there is one.
  unfoldable pub write : Map A → Bytes → A → Map A
  write [] k x = []
  write ((j, y) ∷ m) k x = if bytes_eq j k then (j, x) ∷ m else (j, y) ∷ write m k x

  unfoldable pub remove : Map A → Bytes → Map A
  remove [] k = []
  remove ((j, y) ∷ m) k = if bytes_eq j k then m else (j, y) ∷ remove m k

  -- No entry has the key.
  abbrev pub Lacks : Bytes → Map A → Type 0
  Lacks k [] = Unit
  Lacks k ((j, y) ∷ m) = (bytes_eq j k ≡ false) × Lacks k m

  -- Each key has one entry.
  abbrev pub HasKeys : Map A → Type 0
  HasKeys [] = Unit
  HasKeys ((j, y) ∷ m) = Lacks j m × HasKeys m

  pub get-Lacks : (m : Map A) (k : Bytes) → Lacks k m → get m k ≡ none
  unfolding get
  get-Lacks [] k h = refl
  get-Lacks ((j, y) ∷ m) k (h, hs) = rw h (get-Lacks m k hs)

  pub get-write_same :
      (m : Map A) (k : Bytes) (x y : A) → get m k ≡ some y → get (write m k x) k ≡ some x
  unfolding get write
  get-write_same [] k x y h = cc
  get-write_same ((j, z) ∷ m) k x y h = elim (Bool-cases (bytes_eq j k)) [
    | inl e ↦ simp e
    | inr e ↦ simp e (get-write_same m k x y (rw e at h))
  ]

  pub get-write_other :
      (m : Map A) (k i : Bytes) (x : A) → bytes_eq k i ≡ false → get (write m k x) i ≡ get m i
  unfolding get write
  get-write_other [] k i x h = refl
  get-write_other ((j, z) ∷ m) k i x h = elim (Bool-cases (bytes_eq j k)) [
    | inl e ↦ let same = bytes_eq→eq j k e in rw e (simp (same, h))
    | inr e ↦ rw e (ground (arith, get-write_other m k i x h))
  ]

  pub get-remove_same : (m : Map A) (k : Bytes) → HasKeys m → get (remove m k) k ≡ none
  unfolding get remove
  get-remove_same [] k h = refl
  get-remove_same ((j, z) ∷ m) k (h, hs) = elim (Bool-cases (bytes_eq j k)) [
    | inl e ↦ let same = bytes_eq→eq j k e in rw e (get-Lacks m k (subst (λ i. Lacks i m) same h))
    | inr e ↦ simp e (get-remove_same m k hs)
  ]

  pub get-remove_other :
      (m : Map A) (k i : Bytes) → bytes_eq k i ≡ false → get (remove m k) i ≡ get m i
  unfolding get remove
  get-remove_other [] k i h = refl
  get-remove_other ((j, z) ∷ m) k i h = elim (Bool-cases (bytes_eq j k)) [
    | inl e ↦ let same = bytes_eq→eq j k e in rw e (simp (same, h))
    | inr e ↦ rw e (ground (arith, get-remove_other m k i h))
  ]

  Lacks-write : (m : Map A) (k i : Bytes) (x : A) → Lacks i m → Lacks i (write m k x)
  unfolding write
  Lacks-write [] k i x h = tt
  Lacks-write ((j, z) ∷ m) k i x (h, hs) = elim (Bool-cases (bytes_eq j k)) [
    | inl e ↦ rw e (h, hs)
    | inr e ↦ rw e (h, Lacks-write m k i x hs)
  ]

  pub HasKeys-write : (m : Map A) (k : Bytes) (x : A) → HasKeys m → HasKeys (write m k x)
  unfolding write
  HasKeys-write [] k x h = tt
  HasKeys-write ((j, z) ∷ m) k x (h, hs) = elim (Bool-cases (bytes_eq j k)) [
    | inl e ↦ rw e (h, hs)
    | inr e ↦ rw e (Lacks-write m k j x h, HasKeys-write m k x hs)
  ]

  Lacks-remove : (m : Map A) (k i : Bytes) → Lacks i m → Lacks i (remove m k)
  unfolding remove
  Lacks-remove [] k i h = tt
  Lacks-remove ((j, z) ∷ m) k i (h, hs) = elim (Bool-cases (bytes_eq j k)) [
    | inl e ↦ rw e hs
    | inr e ↦ rw e (h, Lacks-remove m k i hs)
  ]

  pub HasKeys-remove : (m : Map A) (k : Bytes) → HasKeys m → HasKeys (remove m k)
  unfolding remove
  HasKeys-remove [] k h = tt
  HasKeys-remove ((j, z) ∷ m) k (h, hs) = elim (Bool-cases (bytes_eq j k)) [
    | inl e ↦ rw e hs
    | inr e ↦ rw e (Lacks-remove m k j h, HasKeys-remove m k hs)
  ]

  -- What is written and removed again is removed.
  pub remove-write : (m : Map A) (k : Bytes) (x : A) → remove (write m k x) k ≡ remove m k
  unfolding remove write
  remove-write [] k x = refl
  remove-write ((j, y) ∷ m) k x = elim (Bool-cases (bytes_eq j k)) [
    | inl e ↦ simp e
    | inr e ↦ simp (e, remove-write m k x)
  ]

  pub none-Lacks : (m : Map A) (k : Bytes) → get m k ≡ none → Lacks k m
  unfolding get
  none-Lacks [] k h = tt
  none-Lacks ((j, y) ∷ m) k h = elim (Bool-cases (bytes_eq j k)) [
    | inl e ↦ cc (rw e at h)
    | inr e ↦ (e, none-Lacks m k (rw e at h))
  ]
