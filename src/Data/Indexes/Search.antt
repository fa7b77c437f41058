-- ===== src/Data/Indexes/Search.antt =====
-- `has`, `insert` and `remove` of indexes.rs against membership.
use konduit.Base.{ℕ, ◌≤◌, ◌≡◌, refl, not, ◌&&◌, List, [], ◌∷◌, ok, err, arith, ◌==◌, if◌then◌else◌}
use konduit.Base.Lists
use konduit.Base.Ascending.{
  Above, Below, IsAscending, contains, contains-Above, Above-mono, Above-IsAscending,
}
use konduit.Data.Indexes.{Indexes, IndexesError, binary_search, remove, has}

-- The first occurrence of an item is taken out.
abbrev pub erase : ℕ → List ℕ → List ℕ
erase item [] = []
erase item (x ∷ xs) = if x == item then xs else x ∷ erase item xs

has-Above : (n : ℕ) (xs : Indexes) (i : ℕ) → Above n xs → has xs i ≡ contains xs i
unfolding has binary_search
has-Above n [] i a = refl
has-Above n (x ∷ xs) i a = ground (arith, has-Above x xs i a.1, contains-Above x i xs a.1)

-- On an increasing list `has` is membership.
pub has-contains : (xs : Indexes) (i : ℕ) → IsAscending xs → has xs i ≡ contains xs i
unfolding has binary_search
has-contains [] i a = refl
has-contains (x ∷ xs) i a = ground (arith, has-Above x xs i a, contains-Above x i xs a)

remove-Above :
    (n : ℕ) (xs : Indexes) (i : ℕ)
    → Above n xs
    → remove xs i ≡ (if contains xs i then ok (erase i xs) else err IndexesError.no_index)
unfolding remove binary_search
remove-Above n [] i a = refl
remove-Above n (x ∷ xs) i a = ground (arith, remove-Above x xs i a.1, contains-Above x i xs a.1)

-- `remove` takes a member out and refuses anything else.
pub remove_lem :
    (xs : Indexes) (i : ℕ)
    → IsAscending xs
    → remove xs i ≡ (if contains xs i then ok (erase i xs) else err IndexesError.no_index)
unfolding remove binary_search
remove_lem [] i a = refl
remove_lem (x ∷ xs) i a = ground (arith, remove-Above x xs i a, contains-Above x i xs a)

erase-Above : (n i : ℕ) (xs : List ℕ) → Above n xs → Above n (erase i xs)
erase-Above n i [] a = tt
erase-Above n i (x ∷ xs) a = ground (arith, erase-Above x i xs a.1, Above-mono {m = n} {n = x} xs)

pub erase-IsAscending : (i : ℕ) (xs : List ℕ) → IsAscending xs → IsAscending (erase i xs)
erase-IsAscending i [] a = tt
erase-IsAscending i (x ∷ xs) a = ground (arith, erase-Above x i xs a, Above-IsAscending x xs a)

pub erase-Below : (n i : ℕ) (xs : List ℕ) → Below n xs → Below n (erase i xs)
erase-Below n i [] b = tt
erase-Below n i (x ∷ xs) b = ground (arith, erase-Below n i xs b.1)

pub length-erase-le : (i : ℕ) (xs : List ℕ) → Lists.length (erase i xs) ≤ Lists.length xs
length-erase-le i [] = omega arith
length-erase-le i (x ∷ xs) = ground (arith, length-erase-le i xs)

contains-erase-Above :
    (n i j : ℕ) (xs : List ℕ) → Above n xs → contains (erase i xs) j ≡ contains xs j && not (i == j)
contains-erase-Above n i j [] a = refl
contains-erase-Above n i j (x ∷ xs) a =
    ground (arith, contains-erase-Above x i j xs a.1, contains-Above x j xs a.1)

pub contains-erase :
    (i j : ℕ) (xs : List ℕ)
    → IsAscending xs
    → contains (erase i xs) j ≡ contains xs j && not (i == j)
contains-erase i j [] a = refl
contains-erase i j (x ∷ xs) a =
    ground (arith, contains-erase-Above x i j xs a, contains-Above x j xs a)
