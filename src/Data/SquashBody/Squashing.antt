-- ===== src/Data/SquashBody/Squashing.antt =====
-- `squash` of squash_body.rs against the set of squashed indexes.
use konduit.Base.{
  ℕ, suc, ◌+◌, ◌-◌, ◌≤◌, ◌<◌, ◌≡◌, ◌↔◌, inl, inr, true, not, ◌&&◌, ◌||◌, List, [], ◌∷◌, max, ◌++◌,
  ok, err, arith, leb, ◌==◌, if◌then◌else◌, add64, add64-eq, u64_mod, length-append, Bool-cases,
}
use konduit.Base.Lists
use konduit.Base.Ascending.{
  Above, IsAscending, Below, contains, contains-Below, contains-append, Below-mono,
}
use konduit.Data.Indexes.{Indexes, IndexesError, max_exclude_length, range}
use konduit.Data.Indexes.Search.{
  has-contains, remove_lem, erase, erase-IsAscending, erase-Below, length-erase-le, contains-erase,
}
use konduit.Data.Indexes.Range.{
  length-range, contains-range, extend_lem, range-Below, append-range-IsAscending, append-Below,
}
use konduit.Data.SquashBody.{
  SquashBody, duplicate_index, exclude, squash, squash_beyond, is_index_squashed, IsValid,
}

-- Membership in the set of squashed indexes, read off a valid body.
pub is_index_squashed_lem :
    (b : SquashBody) (j : ℕ)
    → IsValid b
    → is_index_squashed b j ≡ leb j b.index && not (contains b.excludes j)
unfolding is_index_squashed
is_index_squashed_lem b j v =
    ground
      (arith, has-contains b.excludes j v.ascending, contains-Below b.index j b.excludes v.below)

-- A list of numbers increasing below a bound is no longer than the bound.
length-Below_from :
    (lo n : ℕ) (xs : List ℕ) → Above lo xs → Below n xs → Lists.length xs + lo ≤ max lo (n - 1)
length-Below_from lo n [] a b = omega arith
length-Below_from lo n (x ∷ xs) a b = omega (arith, length-Below_from x n xs a.1 b.1, a.0, b.0)

length-le-index : (n : ℕ) (xs : List ℕ) → IsAscending xs → Below n xs → Lists.length xs ≤ n
length-le-index n [] a b = omega arith
length-le-index n (x ∷ xs) a b = omega (arith, length-Below_from x n xs a b.1, b.0)

abbrev beyond : SquashBody → ℕ → Indexes
beyond b i = b.excludes ++ range (suc b.index) (i - suc b.index)

-- An index past the body's own: the ones between are excluded, if there is room for them.
squash_beyond_lem :
    (b : SquashBody) (i a : ℕ)
    → IsValid b
    → b.index < i
    → i < u64_mod
    → squash_beyond b i a ≡ (
        if leb (Lists.length b.excludes + (i - suc b.index)) max_exclude_length
        then ok (record { amount = add64 b.amount a; index = i; excludes = beyond b i })
        else err (exclude IndexesError.length))
unfolding squash_beyond
squash_beyond_lem b i a v lt word = ground (
  arith,
  add64-eq b.index 1,
  length-le-index b.index b.excludes v.ascending v.below,
  Below-mono {m = b.index} {n = suc b.index} b.excludes (omega arith) v.below,
  extend_lem b.excludes (suc b.index) i,
)

squash_known :
    (b : SquashBody) (i a : ℕ) → leb i b.index ≡ true → squash_beyond b i a ≡ err duplicate_index
unfolding squash_beyond
squash_known b i a h = rw h

-- All cases of `squash` on a valid body, told by membership alone.
squash_lem :
    (b : SquashBody) (i a : ℕ)
    → IsValid b
    → i < u64_mod
    → squash b i a ≡ (
        if contains b.excludes i
        then ok (record b { amount = add64 b.amount a; excludes = erase i b.excludes })
        else if leb i b.index
        then err duplicate_index
        else if leb (Lists.length b.excludes + (i - suc b.index)) max_exclude_length
        then ok (record { amount = add64 b.amount a; index = i; excludes = beyond b i })
        else err (exclude IndexesError.length))
unfolding squash
squash_lem b i a v word = elim (Bool-cases (leb i b.index)) [
  | inl known ↦ ground (arith, remove_lem b.excludes i v.ascending, squash_known b i a)
  | inr beyond_index ↦
      ground (arith, remove_lem b.excludes i v.ascending, squash_beyond_lem b i a v)
]

erased-IsValid :
    (b : SquashBody) (i a : ℕ)
    → IsValid b
    → IsValid (record b { amount = add64 b.amount a; excludes = erase i b.excludes })
erased-IsValid b i a v = record {
  ascending = erase-IsAscending i b.excludes v.ascending;
  below = erase-Below b.index i b.excludes v.below;
  bounded = omega (arith, length-erase-le i b.excludes, v.bounded);
}

beyond-IsValid :
    (b : SquashBody) (i a : ℕ)
    → IsValid b
    → b.index < i
    → Lists.length b.excludes + (i - suc b.index) ≤ max_exclude_length
    → IsValid (record { amount = a; index = i; excludes = beyond b i })
beyond-IsValid b i a v lt room = record {
  ascending =
      append-range-IsAscending (suc b.index) (i - suc b.index) b.excludes v.ascending
        (Below-mono {m = b.index} {n = suc b.index} b.excludes (omega arith) v.below);
  below =
      append-Below i b.excludes (range (suc b.index) (i - suc b.index))
        (Below-mono {m = b.index} {n = i} b.excludes (omega arith) v.below)
        (range-Below (suc b.index) (i - suc b.index) i (omega arith));
  bounded = omega (
    arith,
    length-append b.excludes (range (suc b.index) (i - suc b.index)),
    length-range (suc b.index) (i - suc b.index),
  );
}

-- A squash that is accepted keeps the excluded indexes few, increasing and below the index of the
-- body. For a valid body and an index of 64 bits.
pub squash-IsValid :
    (b : SquashBody) (i a : ℕ) {b' : SquashBody}
    → IsValid b
    → i < u64_mod
    → squash b i a ≡ ok b'
    → IsValid b'
squash-IsValid b i a {b'} v word h = ground (
  arith,
  squash_lem b i a v word,
  erased-IsValid b i a v,
  beyond-IsValid b i (add64 b.amount a) v,
)

squashed_after_erase :
    (b : SquashBody) (i a j : ℕ)
    → IsValid b
    → contains b.excludes i ≡ true
    → is_index_squashed (record b { amount = add64 b.amount a; excludes = erase i b.excludes }) j
      ≡ (i == j) || is_index_squashed b j
squashed_after_erase b i a j v m = ground (
  arith,
  is_index_squashed_lem b j v,
  is_index_squashed_lem (record b { amount = add64 b.amount a; excludes = erase i b.excludes }) j
      (erased-IsValid b i a v),
  contains-erase i j b.excludes v.ascending,
  contains-Below b.index i b.excludes v.below,
)

squashed_after_beyond :
    (b : SquashBody) (i a j : ℕ)
    → IsValid b
    → b.index < i
    → Lists.length b.excludes + (i - suc b.index) ≤ max_exclude_length
    → is_index_squashed (record { amount = a; index = i; excludes = beyond b i }) j
      ≡ (i == j) || is_index_squashed b j
squashed_after_beyond b i a j v lt room = ground (
  arith,
  is_index_squashed_lem b j v,
  is_index_squashed_lem (record { amount = a; index = i; excludes = beyond b i }) j
      (beyond-IsValid b i a v lt room),
  contains-append b.excludes (range (suc b.index) (i - suc b.index)) j,
  contains-range (suc b.index) (i - suc b.index) j,
  contains-Below b.index j b.excludes v.below,
)

-- A squash that is accepted adds exactly its own index to the set of squashed indexes, and its
-- amount to the amount of the body, modulo 2 ^ 64. For a valid body and an index of 64 bits.
pub squash-adds-index :
    (b : SquashBody) (i a : ℕ) {b' : SquashBody}
    → IsValid b
    → i < u64_mod
    → squash b i a ≡ ok b'
    → ((j : ℕ) → is_index_squashed b' j ≡ (i == j) || is_index_squashed b j)
      × (b'.amount ≡ add64 b.amount a)
squash-adds-index b i a {b'} v word h = (
  (λ j. ground (
    arith,
    squash_lem b i a v word,
    squashed_after_erase b i a j v,
    squashed_after_beyond b i (add64 b.amount a) j v,
  )),
  ground (arith, squash_lem b i a v word),
)

-- A squash is refused as a duplicate exactly for an index that is squashed already, and for its
-- length exactly for an index so far ahead that the indexes between do not fit among the excluded
-- ones. For a valid body and an index of 64 bits.
pub squash-refused :
    (b : SquashBody) (i a : ℕ)
    → IsValid b
    → i < u64_mod
    → ((is_index_squashed b i ≡ true) ↔ (squash b i a ≡ err duplicate_index))
      × (((b.index < i) × (max_exclude_length < Lists.length b.excludes + (i - suc b.index)))
          ↔ (squash b i a ≡ err (exclude IndexesError.length)))
squash-refused b i a v word =
    let lem = squash_lem b i a v word in
    let seen = is_index_squashed_lem b i v in
    let apart = contains-Below b.index i b.excludes v.below in
    (
      ((λ h. ground (arith, lem, seen, apart)), (λ h. ground (arith, lem, seen, apart))),
      ((λ h. ground (arith, lem, seen, apart)), (λ h. ground (arith, lem, seen, apart))),
    )
