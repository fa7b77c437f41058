-- ===== src/Data/Indexes/Tests.antt =====
-- Runs of packages/konduit/data/src/indexes.rs on concrete lists.
use konduit.Base.{[], ◌∷◌}
use konduit.Data.Indexes.{Indexes}

abbrev three : Indexes
three = 2 ∷ 5 ∷ 9 ∷ []

abbrev two : Indexes
two = 2 ∷ 9 ∷ []
