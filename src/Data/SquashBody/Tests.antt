-- ===== src/Data/SquashBody/Tests.antt =====
-- Runs of packages/konduit/data/src/squash_body.rs on concrete bodies.
use konduit.Base.{
  ℕ, suc, ◌+◌, ◌-◌, ◌≤◌, ◌<◌, ◌≡◌, refl, ◌↔◌, Bool, true, false, ◌||◌, ◌==◌, Option, List, [], ◌∷◌,
  Result, ok, err, arith, add64, length, Ordering,
}
use konduit.Data.Indexes
use konduit.Data.Indexes.{IndexesError, max_exclude_length}
use konduit.Data.SquashBody.{
  SquashBody, SquashBodyError, duplicate_index, exclude, squash, is_index_squashed, no_riskier_than,
  IsValid,
}
use konduit.Data.SquashBody.Squashing.{squash-IsValid, squash-adds-index, squash-refused}
use konduit.Data.SquashBody.Risk.{no_riskier_than_lem}

-- Ten of value up to index 4, of which 2 is not squashed.
abbrev body : SquashBody
body = record { amount = 10; index = 4; excludes = 2 ∷ [] }

-- The same once 2 is squashed, and then 6.
abbrev filled : SquashBody
filled = record { amount = 15; index = 4; excludes = [] }

abbrev ahead : SquashBody
ahead = record { amount = 16; index = 6; excludes = 5 ∷ [] }

body-IsValid : IsValid body
body-IsValid = record { ascending = tt; below = (omega arith, tt); bounded = omega arith }

filled-IsValid : IsValid filled
filled-IsValid = record { ascending = tt; below = tt; bounded = omega arith }

ahead-IsValid : IsValid ahead
ahead-IsValid = record { ascending = tt; below = (omega arith, tt); bounded = omega arith }

squash-body : squash body 2 5 ≡ ok filled
unfolding squash Indexes.remove Indexes.binary_search konduit.Base.Words.add64
squash-body = refl

squash-filled : squash filled 6 1 ≡ ok ahead
unfolding squash Indexes.remove Indexes.binary_search Indexes.extend Indexes.extend_by Indexes.range
    konduit.Data.SquashBody.squash_beyond konduit.Base.Words.add64
squash-filled = refl

squash-IsValid_example : IsValid ahead
squash-IsValid_example = squash-IsValid filled 6 1 filled-IsValid (omega arith) squash-filled

squash-adds-index_example :
    ((j : ℕ) → is_index_squashed filled j ≡ (2 == j) || is_index_squashed body j)
    × (15 ≡ add64 10 5)
squash-adds-index_example = squash-adds-index body 2 5 body-IsValid (omega arith) squash-body

squash-refused_example :
    ((is_index_squashed body 3 ≡ true) ↔ (squash body 3 5 ≡ err duplicate_index))
    × (((4 < 3) × (max_exclude_length < 1 + (3 - 5)))
        ↔ (squash body 3 5 ≡ err (exclude IndexesError.length)))
squash-refused_example = squash-refused body 3 5 body-IsValid (omega arith)

no_riskier_than_lem_example : (no_riskier_than body filled ≡ true) ↔ (
    (10 ≤ 15)
    × (4 ≤ 4)
    × ((j : ℕ) → is_index_squashed filled j ≡ true → is_index_squashed body j ≡ true))
no_riskier_than_lem_example = no_riskier_than_lem body filled body-IsValid filled-IsValid

-- One that claims less, with more squashed.
abbrev safer : SquashBody
safer = record { amount = 9; index = 4; excludes = [] }

safer-IsValid : IsValid safer
safer-IsValid = record { ascending = tt; below = tt; bounded = omega arith }

safer-body : no_riskier_than safer body ≡ true
unfolding no_riskier_than is_index_squashed
safer-body = refl

body_self : no_riskier_than body body ≡ true
unfolding no_riskier_than is_index_squashed
body_self = refl
