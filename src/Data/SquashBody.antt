-- ===== src/Data/SquashBody.antt =====
-- packages/konduit/data/src/squash_body.rs: the amount that a squash settles, up to which index, and
-- which indexes it leaves out. `&mut self` becomes a new body; an error is returned before any write.
pub mod Squashing
pub mod Risk
pub mod Creation
pub mod Tests
use konduit.Base.{
  ℕ, ◌+◌, ◌≤◌, compare, Ordering, Bool, true, false, not, ◌&&◌, Option, none, some, Result, ok, err,
  panic, ◌>>=◌, map_err, ltb, leb, last, filter, all, add64, if◌then◌else◌,
}
use konduit.Base.Lists
use konduit.Base.Ascending.{IsAscending, Below, contains}
use konduit.Data.Indexes
use konduit.Data.Indexes.{Indexes, IndexesError, ordering_of, max_exclude_length}

pub data SquashBodyError : Type 0 where
  duplicate_index : SquashBodyError
  exclude : IndexesError → SquashBodyError
  index_not_greater_than_excludes : SquashBodyError

pub record SquashBody : Type 0 where
  pub amount : ℕ
  pub index : ℕ
  pub excludes : Indexes

abbrev zero_body : SquashBody
zero_body = record { amount = 0; index = 0; excludes = Indexes.empty }

unfoldable pub verify_new : ℕ → Indexes → Bool
verify_new index excludes = elim (last excludes) [ none ↦ true | some l ↦ ltb l index ]

abbrev new_no_verify : ℕ → ℕ → Indexes → SquashBody
new_no_verify amount index excludes = record { amount = amount; index = index; excludes = excludes }

unfoldable pub new : ℕ → ℕ → Indexes → Result SquashBodyError SquashBody
unfolding verify_new
new amount index excludes =
    if verify_new index excludes
    then ok (new_no_verify amount index excludes)
    else err index_not_greater_than_excludes

-- The part of `squash` for an index that is not excluded.
unfoldable pub squash_beyond : SquashBody → ℕ → ℕ → Result SquashBodyError SquashBody
squash_beyond b index amount = if leb index b.index then err duplicate_index else do
  excludes ← map_err exclude (Indexes.extend b.excludes (add64 b.index 1) index)
  ok (record { amount = add64 b.amount amount; index = index; excludes = excludes })

unfoldable pub squash : SquashBody → ℕ → ℕ → Result SquashBodyError SquashBody
squash b index amount = elim (Indexes.remove b.excludes index) [
  | ok excludes ↦ ok (record b { amount = add64 b.amount amount; excludes = excludes })
  | err _ ↦ squash_beyond b index amount
  | panic ↦ panic
]

unfoldable pub is_index_squashed : SquashBody → ℕ → Bool
is_index_squashed b index = elim (compare b.index index) [
  | Ordering.lt ↦ false
  | Ordering.eq ↦ true
  | Ordering.gt ↦ not (Indexes.has b.excludes index)
]

-- The inner function of `partial_cmp`.
pub no_riskier_than : SquashBody → SquashBody → Bool
no_riskier_than a b =
    leb a.amount b.amount
    && leb b.index a.index
    && all (contains b.excludes) (filter (λ idx. leb idx b.index) a.excludes)

pub partial_cmp : SquashBody → SquashBody → Option Ordering
partial_cmp a b = ordering_of (no_riskier_than a b) (no_riskier_than b a)

-- What `new` and `Indexes::new` establish: the excluded indexes are few, increasing, and below the
-- body's own index.
pub record IsValid (b : SquashBody) : Type 0 where
  pub ascending : IsAscending b.excludes
  pub below : Below b.index b.excludes
  pub bounded : Lists.length b.excludes ≤ max_exclude_length
