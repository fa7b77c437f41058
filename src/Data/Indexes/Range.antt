-- ===== src/Data/Indexes/Range.antt =====
-- The range that `extend` of indexes.rs appends.
use konduit.Base.{
  ℕ, zero, suc, ◌+◌, ◌≤◌, ◌<◌, ◌≡◌, refl, ◌&&◌, List, [], ◌∷◌, ◌++◌, arith, ltb, leb, last, u64_mod,
  add64-eq, Bool-cases, inl, inr, Option, none, some, ok, err, if◌then◌else◌, ◌-◌,
}
use mathlib.Core.List.{append-nil}
use konduit.Base.Lists
use konduit.Base.Ascending.{Above, Below, IsAscending, contains, last-Below}
use konduit.Data.Indexes.{Indexes, IndexesError, range, extend, extend_by, max_exclude_length}

pub length-range : (s n : ℕ) → Lists.length (range s n) ≡ n
unfolding range
length-range s zero = refl
length-range s (suc n) = omega (arith, length-range (suc s) n)

pub contains-range : (s n j : ℕ) → contains (range s n) j ≡ leb s j && ltb j (s + n)
unfolding range
contains-range s zero j = ground arith
contains-range s (suc n) j = ground (arith, contains-range (suc s) n j)

range-Above : (m s n : ℕ) → m < s → Above m (range s n)
unfolding range
range-Above m s zero h = tt
range-Above m s (suc n) h = (h, range-Above s (suc s) n (omega arith))

pub range-Below : (s n u : ℕ) → s + n ≤ u → Below u (range s n)
unfolding range
range-Below s zero u h = tt
range-Below s (suc n) u h = (omega arith, range-Below (suc s) n u (omega arith))

append-range-Above :
    (m s n : ℕ) (xs : List ℕ) → m < s → Above m xs → Below s xs → Above m (xs ++ range s n)
append-range-Above m s n [] h a b = range-Above m s n h
append-range-Above m s n (x ∷ xs) h a b = (a.0, append-range-Above x s n xs b.0 a.1 b.1)

range-IsAscending : (s n : ℕ) → IsAscending (range s n)
unfolding range
range-IsAscending s zero = tt
range-IsAscending s (suc n) = range-Above s (suc s) n (omega arith)

-- A range may follow a list whose items all lie below it.
pub append-range-IsAscending :
    (s n : ℕ) (xs : List ℕ) → IsAscending xs → Below s xs → IsAscending (xs ++ range s n)
append-range-IsAscending s n [] a b = range-IsAscending s n
append-range-IsAscending s n (x ∷ xs) a b = append-range-Above x s n xs b.0 a b.1

pub append-Below : (u : ℕ) (xs ys : List ℕ) → Below u xs → Below u ys → Below u (xs ++ ys)
append-Below u [] ys a b = b
append-Below u (x ∷ xs) ys a b = (a.0, append-Below u xs ys a.1 b)

extend_by_lem :
    (o : Option ℕ) (xs : Indexes) (s n : ℕ)
    → Below s xs
    → last xs ≡ o
    → extend_by o xs s n ≡ ok (xs ++ range s n)
unfolding extend_by
extend_by_lem none xs s n b e = refl
extend_by_lem (some l) xs s n b e = ground (arith, last-Below s l xs b e)

append-range_zero : (xs : List ℕ) (s : ℕ) → xs ++ range s 0 ≡ xs
unfolding range
append-range_zero xs s = append-nil xs

-- Extending a list of excluded indexes that lies below the range appends the range, or is refused
-- for its length exactly if the list with the range is longer than the limit. For a list within the
-- limit and a length that fits in 64 bits.
pub extend_lem :
    (xs : Indexes) (s u : ℕ)
    → Below s xs
    → s ≤ u
    → Lists.length xs ≤ max_exclude_length
    → Lists.length xs + (u - s) < u64_mod
    → extend xs s u ≡ (
        if leb (Lists.length xs + (u - s)) max_exclude_length
        then ok (xs ++ range s (u - s))
        else err IndexesError.length)
unfolding extend
extend_lem xs s u b le short word = elim (Bool-cases (ltb s u)) [
  | inl more ↦
      ground (
        arith,
        add64-eq (Lists.length xs) (u - s) word,
        extend_by_lem (last xs) xs s (u - s) b refl,
      )
  | inr none_more ↦
      let e : u - s ≡ 0 = ground arith in rw e (ground (arith, append-range_zero xs s))
]
