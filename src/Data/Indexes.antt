-- ===== src/Data/Indexes.antt =====
-- packages/konduit/data/src/indexes.rs: a sorted list of at most ten indexes without repetition.
-- `&mut self` becomes a new list. An error is returned before any write, so it carries no list.
-- `usize` is 64 bits wide.
pub mod Search
pub mod Range
pub mod Superset
pub mod Tests
use konduit.Base.{
  ℕ, zero, suc, ◌-◌, compare, Ordering, Bool, true, false, Option, none, some, List, [], ◌∷◌, ◌++◌,
  Result, ok, err, ltb, leb, is_empty, last, add64, if◌then◌else◌,
}
use konduit.Base.Lists

-- The source's struct wraps the vector.
abbrev pub Indexes : Type 0
Indexes = List ℕ

pub data IndexesError : Type 0 where
  length less_than_last order duplicate no_index : IndexesError

abbrev pub max_exclude_length : ℕ
max_exclude_length = 10

abbrev pub empty : Indexes
empty = []

-- The test of `windows(2)`: each item is below the next.
unfoldable pub windows_ascend : List ℕ → Bool
windows_ascend [] = true
windows_ascend (x ∷ []) = true
windows_ascend (x ∷ y ∷ ys) = if leb y x then false else windows_ascend (y ∷ ys)

unfoldable pub new : List ℕ → Result IndexesError Indexes
unfolding windows_ascend
new items =
    if ltb max_exclude_length (Lists.length items)
    then err IndexesError.length
    else if windows_ascend items
    then ok items
    else err IndexesError.order

-- The outcome of `slice::binary_search`: where the item is, or where it could be inserted.
pub data Position : Type 0 where
  found missing : ℕ → Position

abbrev shift : Position → Position
shift (found i) = found (suc i)
shift (missing i) = missing (suc i)

-- The documented result on a strictly increasing slice, which is unique there.
unfoldable pub binary_search : List ℕ → ℕ → Position
binary_search [] item = missing 0
binary_search (x ∷ xs) item = elim (compare x item) [
  | Ordering.lt ↦ shift (binary_search xs item)
  | Ordering.eq ↦ found 0
  | Ordering.gt ↦ missing 0
]

-- `Vec::insert` and `Vec::remove` at a position in range.
abbrev insert_at : List ℕ → ℕ → ℕ → List ℕ
insert_at xs zero item = item ∷ xs
insert_at [] (suc i) item = item ∷ []
insert_at (x ∷ xs) (suc i) item = x ∷ insert_at xs i item

abbrev remove_at : List ℕ → ℕ → List ℕ
remove_at [] i = []
remove_at (x ∷ xs) zero = xs
remove_at (x ∷ xs) (suc i) = x ∷ remove_at xs i

-- `from..until`, by its length.
unfoldable pub range : ℕ → ℕ → List ℕ
range start zero = []
range start (suc n) = start ∷ range (suc start) n

unfoldable pub extend_by : Option ℕ → Indexes → ℕ → ℕ → Result IndexesError Indexes
extend_by none xs start n = ok (xs ++ range start n)
extend_by (some l) xs start n =
    if ltb l start then ok (xs ++ range start n) else err IndexesError.less_than_last

unfoldable pub extend : Indexes → ℕ → ℕ → Result IndexesError Indexes
unfolding extend_by
extend xs start until = elim (compare until start) [
  | Ordering.lt ↦ err IndexesError.order
  | Ordering.eq ↦ ok xs
  | Ordering.gt ↦
      if ltb max_exclude_length (add64 (Lists.length xs) (until - start))
      then err IndexesError.length
      else extend_by (last xs) xs start (until - start)
]

insert : Indexes → ℕ → Result IndexesError Indexes
unfolding binary_search
insert xs item =
    if leb max_exclude_length (Lists.length xs)
    then err IndexesError.length
    else elim (binary_search xs item) [
      | found i ↦ err IndexesError.duplicate
      | missing i ↦ ok (insert_at xs i item)
    ]

unfoldable pub remove : Indexes → ℕ → Result IndexesError Indexes
unfolding binary_search
remove xs item = elim (binary_search xs item) [
  | found i ↦ ok (remove_at xs i)
  | missing i ↦ err IndexesError.no_index
]

unfoldable pub has : Indexes → ℕ → Bool
unfolding binary_search
has xs item = elim (binary_search xs item) [ found i ↦ true | missing i ↦ false ]

-- One pass over both lists; the second stands for the peekable iterator.
pub is_superset_of : List ℕ → List ℕ → Bool
is_superset_of [] b = is_empty b
is_superset_of (x ∷ a) [] = true
is_superset_of (x ∷ a) (y ∷ b) = elim (compare x y) [
  | Ordering.lt ↦ is_superset_of a (y ∷ b)
  | Ordering.eq ↦ is_superset_of a b
  | Ordering.gt ↦ false
]

-- From the two answers of a test made in both directions.
abbrev pub ordering_of : Bool → Bool → Option Ordering
ordering_of true true = some Ordering.eq
ordering_of true false = some Ordering.lt
ordering_of false true = some Ordering.gt
ordering_of false false = none

pub partial_cmp : Indexes → Indexes → Option Ordering
partial_cmp a b = ordering_of (is_superset_of a b) (is_superset_of b a)
