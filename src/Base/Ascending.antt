-- ===== src/Base/Ascending.antt =====
-- Strictly increasing lists of numbers, and membership in them as a test.
use Prim.Native.Nat.{ℕ, ◌≤◌, ◌<◌}
use mathlib.Core.Path.{◌≡◌, refl}
use mathlib.Core.Bool.{Bool, false, ◌||◌}
use mathlib.Core.List.{List, [], ◌∷◌, ◌++◌}
use mathlib.Core.Option.{some}
use native.Mathlib.Omega.{arith}
use konduit.Base.Tests.{◌==◌}
use konduit.Base.Lists.{last}

-- Strictly increasing, with the first item above a number.
abbrev pub Above : ℕ → List ℕ → Type 0
Above n [] = Unit
Above n (x ∷ xs) = (n < x) × Above x xs

abbrev pub IsAscending : List ℕ → Type 0
IsAscending [] = Unit
IsAscending (x ∷ xs) = Above x xs

-- All items lie below a number.
abbrev pub Below : ℕ → List ℕ → Type 0
Below n [] = Unit
Below n (x ∷ xs) = (x < n) × Below n xs

-- `slice::contains`.
abbrev pub contains : List ℕ → ℕ → Bool
contains [] x = false
contains (y ∷ ys) x = y == x || contains ys x

pub Above-mono : {m n : ℕ} (xs : List ℕ) → m ≤ n → Above n xs → Above m xs
Above-mono [] h a = tt
Above-mono (x ∷ xs) h a = (omega arith, a.1)

pub Below-mono : {m n : ℕ} (xs : List ℕ) → m ≤ n → Below m xs → Below n xs
Below-mono [] h b = tt
Below-mono (x ∷ xs) h b = (omega arith, Below-mono xs h b.1)

pub Above-IsAscending : (n : ℕ) (xs : List ℕ) → Above n xs → IsAscending xs
Above-IsAscending n [] a = tt
Above-IsAscending n (x ∷ xs) a = a.1

pub contains-Above : (n x : ℕ) (xs : List ℕ) → Above n xs → x ≤ n → contains xs x ≡ false
contains-Above n x [] a h = refl
contains-Above n x (y ∷ ys) a h = ground (arith, contains-Above y x ys a.1)

pub contains-Below : (n x : ℕ) (xs : List ℕ) → Below n xs → n ≤ x → contains xs x ≡ false
contains-Below n x [] b h = refl
contains-Below n x (y ∷ ys) b h = ground (arith, contains-Below n x ys b.1)

pub contains-append :
    (xs ys : List ℕ) (x : ℕ) → contains (xs ++ ys) x ≡ contains xs x || contains ys x
contains-append [] ys x = refl
contains-append (z ∷ zs) ys x = ground (arith, contains-append zs ys x)

-- The last item of an increasing list bounds it.
pub Below-last : (n m : ℕ) (xs : List ℕ) → IsAscending xs → last xs ≡ some m → m < n → Below n xs
Below-last n m [] a e h = tt
Below-last n m (x ∷ []) a e h = ground arith
Below-last n m (x ∷ y ∷ ys) a e h =
    let rest = Below-last n m (y ∷ ys) a.1 e h in ground (arith, rest)

pub last-Below : (n m : ℕ) (xs : List ℕ) → Below n xs → last xs ≡ some m → m < n
last-Below n m [] b e = cc
last-Below n m (x ∷ []) b e = ground arith
last-Below n m (x ∷ y ∷ ys) b e = last-Below n m (y ∷ ys) b.1 e
