-- ===== src/Base/Words.antt =====
-- `u64` arithmetic as a release build does it: sums wrap at 2 ^ 64.
use Prim.Native.Nat.{ℕ, ◌+◌, ◌-◌, ◌%◌, ◌<◌, ◌≤◌}
use mathlib.Core.Path.{◌≡◌}
use mathlib.Core.List.{List, [], ◌∷◌}
use native.Mathlib.Omega.{arith}
use konduit.Base.Lists.{total}

abbrev pub u64_mod : ℕ
u64_mod = 18446744073709551616

-- `a + b` on `u64`.
unfoldable pub add64 : ℕ → ℕ → ℕ
add64 a b = (a + b) % u64_mod

-- `a - b` on `u64`.
unfoldable pub sub64 : ℕ → ℕ → ℕ
sub64 a b = (a + (u64_mod - b)) % u64_mod

pub sub64-eq : (a b : ℕ) → a < u64_mod → b ≤ a → sub64 a b ≡ a - b
unfolding sub64
sub64-eq a b h k = omega arith

-- `iter().map(f).sum::<u64>()`, from a start.
unfoldable pub sum64_from {ℓ} : {A : Type ℓ} → (A → ℕ) → ℕ → List A → ℕ
sum64_from f acc [] = acc
sum64_from f acc (x ∷ xs) = sum64_from f (add64 acc (f x)) xs

unfoldable pub sum64 {ℓ} : {A : Type ℓ} → (A → ℕ) → List A → ℕ
unfolding sum64_from
sum64 f xs = sum64_from f 0 xs

pub add64-eq : (a b : ℕ) → a + b < u64_mod → add64 a b ≡ a + b
unfolding add64
add64-eq a b h = omega arith

sum64_from-eq {ℓ} :
    {A : Type ℓ} (f : A → ℕ) (acc : ℕ) (xs : List A)
    → acc + total f xs < u64_mod
    → sum64_from f acc xs ≡ acc + total f xs
unfolding sum64_from
sum64_from-eq f acc [] h = omega arith
sum64_from-eq f acc (x ∷ xs) h = omega (
  arith,
  add64-eq acc (f x),
  sum64_from-eq f (add64 acc (f x)) xs (omega (arith, add64-eq acc (f x))),
)

-- A sum that fits in a word is the plain sum.
pub sum64-eq {ℓ} :
    {A : Type ℓ} (f : A → ℕ) (xs : List A) → total f xs < u64_mod → sum64 f xs ≡ total f xs
unfolding sum64
sum64-eq f xs h = omega (arith, sum64_from-eq f 0 xs (omega arith))
