-- ===== src/Data/SquashBody/Creation.antt =====
-- What `Indexes::new` and `SquashBody::new` accept.
use konduit.Base.{
  ℕ, ◌≤◌, ◌<◌, ◌≡◌, ◌≢◌, refl, subst, true, inl, inr, Bool-cases, Option-cases, none, some, List,
  [], ◌∷◌, ok, leb, last, arith,
}
use konduit.Base.Lists
use konduit.Base.Ascending.{IsAscending, Below, Below-last}
use konduit.Data.Indexes
use konduit.Data.Indexes.{Indexes, IndexesError, max_exclude_length, windows_ascend}
use konduit.Data.SquashBody.{SquashBody, IsValid, new, verify_new}

windows_ascend→IsAscending : (xs : List ℕ) → windows_ascend xs ≡ true → IsAscending xs
unfolding windows_ascend
windows_ascend→IsAscending [] h = tt
windows_ascend→IsAscending (x ∷ []) h = tt
windows_ascend→IsAscending (x ∷ y ∷ ys) h = elim (Bool-cases (leb y x)) [
  | inl le ↦ cc
  | inr lt ↦ (ground arith, windows_ascend→IsAscending (y ∷ ys) (ground arith))
]

IsAscending→windows_ascend : (xs : List ℕ) → IsAscending xs → windows_ascend xs ≡ true
unfolding windows_ascend
IsAscending→windows_ascend [] h = refl
IsAscending→windows_ascend (x ∷ []) h = refl
IsAscending→windows_ascend (x ∷ y ∷ ys) (h, hs) =
    ground (arith, IsAscending→windows_ascend (y ∷ ys) hs)

-- The items are taken as they are, if they are few and increasing.
pub new-eq-ok :
    (items xs : List ℕ)
    → Indexes.new items ≡ ok xs
    → (items ≡ xs) × IsAscending items × (Lists.length items ≤ max_exclude_length)
unfolding Indexes.new
new-eq-ok items xs h = elim (Bool-cases (windows_ascend items)) [
  | inl up ↦ (ground arith, windows_ascend→IsAscending items up, ground arith)
  | inr down ↦ ground arith
]

pub indexes-new_ok :
    (xs : List ℕ) → IsAscending xs → Lists.length xs ≤ max_exclude_length → Indexes.new xs ≡ ok xs
unfolding Indexes.new
indexes-new_ok xs up few = ground (arith, IsAscending→windows_ascend xs up)

last-none : (n : ℕ) (xs : List ℕ) → last xs ≡ none → Below n xs
last-none n [] e = tt
last-none n (x ∷ []) e = cc
last-none n (x ∷ y ∷ ys) e = absurd (not_none y ys e)
  where
    not_none : (y : ℕ) (ys : List ℕ) → last (y ∷ ys) ≢ none
    not_none y [] = cc
    not_none y (z ∷ zs) = not_none z zs

last-Below : (n m : ℕ) (xs : List ℕ) → Below n xs → last xs ≡ some m → m < n
last-Below n m [] b e = cc
last-Below n m (x ∷ []) b e = ground arith
last-Below n m (x ∷ y ∷ ys) b e = last-Below n m (y ∷ ys) b.1 e

verify_new→Below : (n : ℕ) (xs : List ℕ) → IsAscending xs → verify_new n xs ≡ true → Below n xs
unfolding verify_new
verify_new→Below n xs up h = elim (Option-cases (last xs)) [
  | inl e ↦ last-none n xs e
  | inr (m, e) ↦ Below-last n m xs up e (ground (arith, rw (verify_new, e) at h))
]

Below→verify_new : (n : ℕ) (xs : List ℕ) → Below n xs → verify_new n xs ≡ true
unfolding verify_new
Below→verify_new n xs b = elim (Option-cases (last xs)) [
  | inl e ↦ rw (verify_new, e)
  | inr (m, e) ↦ let low = last-Below n m xs b e in rw (verify_new, e) (ground arith)
]

-- The excluded indexes of a body that `new` accepts lie below its own.
pub new-IsValid :
    (amount index : ℕ) (excludes : Indexes) {b : SquashBody}
    → IsAscending excludes
    → Lists.length excludes ≤ max_exclude_length
    → new amount index excludes ≡ ok b
    → IsValid b
unfolding new
new-IsValid amount index excludes {b} up few h = elim (Bool-cases (verify_new index excludes)) [
  | inl v ↦
      let made : record { amount = amount; index = index; excludes = excludes } ≡ b =
        cc (rw v at h) in
      subst IsValid made
        (record { ascending = up; below = verify_new→Below index excludes up v; bounded = few })
  | inr v ↦ cc (rw v at h)
]

pub new_ok : (b : SquashBody) → IsValid b → new b.amount b.index b.excludes ≡ ok b
unfolding new
new_ok b valid = rw (Below→verify_new b.index b.excludes valid.below)
