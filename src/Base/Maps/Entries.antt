-- ===== src/Base/Maps/Entries.antt =====
-- Insertion into a map, and properties that all its entries have.
use Prim.Native.Nat.{compare, Ordering}
use mathlib.Core.Path.{◌≡◌, subst}
use mathlib.Core.Logic.{inl, inr}
use mathlib.Core.Bool.{Bool, true, false}
use mathlib.Core.Option.{some}
use mathlib.Core.List.{[], ◌∷◌}
use native.Mathlib.Omega.{arith}
use konduit.Base.Tests.{if◌then◌else◌, Bool-cases}
use konduit.Base.Lists.{Bytes, bytes_eq, bytes_eq_self, bytes_eq→eq}
use konduit.Base.Maps.{Map, get, write, remove, Lacks, HasKeys}

-- The order of byte strings.
abbrev pub bytes_ltb : Bytes → Bytes → Bool
bytes_ltb xs [] = false
bytes_ltb [] (y ∷ ys) = true
bytes_ltb (x ∷ xs) (y ∷ ys) = elim (compare x y) [
  | Ordering.lt ↦ true
  | Ordering.eq ↦ bytes_ltb xs ys
  | Ordering.gt ↦ false
]

pub bytes_eq_flip : (j k : Bytes) → bytes_eq j k ≡ false → bytes_eq k j ≡ false
bytes_eq_flip j k h = elim (Bool-cases (bytes_eq k j)) [
  | inl e ↦ let same = bytes_eq→eq k j e in cc (h, same, bytes_eq_self j)
  | inr e ↦ e
]

module _ {ℓ} {A : Type ℓ} where
  -- `BTreeMap::insert`: in place of the entry of the key, or in the order of the keys.
  unfoldable pub insert : Map A → Bytes → A → Map A
  insert [] k x = (k, x) ∷ []
  insert ((j, y) ∷ m) k x =
      if bytes_eq j k
      then (j, x) ∷ m
      else if bytes_ltb k j
      then (k, x) ∷ (j, y) ∷ m
      else (j, y) ∷ insert m k x

  pub get-insert_same : (m : Map A) (k : Bytes) (x : A) → get (insert m k x) k ≡ some x
  unfolding get insert
  get-insert_same [] k x = simp (bytes_eq_self k)
  get-insert_same ((j, y) ∷ m) k x = ground (arith, bytes_eq_self k, get-insert_same m k x)

  pub get-insert_other :
      (m : Map A) (k i : Bytes) (x : A) → bytes_eq k i ≡ false → get (insert m k x) i ≡ get m i
  unfolding get insert
  get-insert_other [] k i x h = simp h
  get-insert_other ((j, y) ∷ m) k i x h = elim (Bool-cases (bytes_eq j k)) [
    | inl e ↦ let same = bytes_eq→eq j k e in rw e (simp (same, h))
    | inr e ↦ rw e (ground (arith, h, get-insert_other m k i x h))
  ]

  pub Lacks-insert :
      (m : Map A) (k i : Bytes) (x : A) → bytes_eq k i ≡ false → Lacks i m → Lacks i (insert m k x)
  unfolding insert
  Lacks-insert [] k i x h l = (h, tt)
  Lacks-insert ((j, y) ∷ m) k i x h (l, ls) = ground (arith, Lacks-insert m k i x h ls)

  -- What all entries have, the values of what is written, inserted or left have.
  abbrev pub AllValues {κ} : (A → Type κ) → Map A → Type κ
  AllValues P [] = Unit
  AllValues P ((j, y) ∷ m) = P y × AllValues P m

  pub get-AllValues {κ} :
      (P : A → Type κ) (m : Map A) (k : Bytes) {x : A} → AllValues P m → get m k ≡ some x → P x
  unfolding get
  get-AllValues P [] k h e = cc
  get-AllValues P ((j, y) ∷ m) k {x} (h, hs) e = elim (Bool-cases (bytes_eq j k)) [
    | inl same ↦ let is : y ≡ x = cc (rw same at e) in subst P is h
    | inr other ↦ get-AllValues P m k hs (rw other at e)
  ]

  pub AllValues-write {κ} :
      (P : A → Type κ) (m : Map A) (k : Bytes) (x : A)
      → P x
      → AllValues P m
      → AllValues P (write m k x)
  unfolding write
  AllValues-write P [] k x p h = tt
  AllValues-write P ((j, y) ∷ m) k x p (h, hs) = elim (Bool-cases (bytes_eq j k)) [
    | inl e ↦ rw e (p, hs)
    | inr e ↦ rw e (h, AllValues-write P m k x p hs)
  ]

  pub AllValues-remove {κ} :
      (P : A → Type κ) (m : Map A) (k : Bytes) → AllValues P m → AllValues P (remove m k)
  unfolding remove
  AllValues-remove P [] k h = tt
  AllValues-remove P ((j, y) ∷ m) k (h, hs) = elim (Bool-cases (bytes_eq j k)) [
    | inl e ↦ rw e hs
    | inr e ↦ rw e (h, AllValues-remove P m k hs)
  ]

  pub AllValues-insert {κ} :
      (P : A → Type κ) (m : Map A) (k : Bytes) (x : A)
      → P x
      → AllValues P m
      → AllValues P (insert m k x)
  unfolding insert
  AllValues-insert P [] k x p h = (p, tt)
  AllValues-insert P ((j, y) ∷ m) k x p (h, hs) = elim (Bool-cases (bytes_eq j k)) [
    | inl e ↦ rw e (p, hs)
    | inr e ↦ elim (Bool-cases (bytes_ltb k j)) [
      | inl l ↦ rw (e, l) (p, (h, hs))
      | inr l ↦ rw (e, l) (h, AllValues-insert P m k x p hs)
    ]
  ]

  pub HasKeys-insert :
      (m : Map A) (k : Bytes) (x : A) → Lacks k m → HasKeys m → HasKeys (insert m k x)
  unfolding insert
  HasKeys-insert [] k x l h = (tt, tt)
  HasKeys-insert ((j, y) ∷ m) k x (l, ls) (h, hs) = elim (Bool-cases (bytes_ltb k j)) [
    | inl e ↦ rw (l, e) ((l, ls), (h, hs))
    | inr e ↦ rw (l, e) (Lacks-insert m k j x (bytes_eq_flip j k l) h, HasKeys-insert m k x ls hs)
  ]

pub AllValues-Unit : {A : Type 0} (m : Map A) → AllValues (λ x. Unit {0}) m
AllValues-Unit [] = tt
AllValues-Unit (e ∷ m) = (tt, AllValues-Unit m)
