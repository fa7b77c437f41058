-- ===== src/Data/SquashBody/Risk.antt =====
-- The order of risk of squash_body.rs.
use konduit.Base.{
  ℕ, ◌≤◌, ◌≡◌, refl, ◌↔◌, Bool, true, some, List, [], ◌∷◌, arith, leb, filter, all, Ordering,
}
use konduit.Base.Ascending.{contains, contains-Below}
use konduit.Data.Indexes.Superset.{Includes, Includes-antisym}
use konduit.Data.SquashBody.{SquashBody, is_index_squashed, no_riskier_than, partial_cmp, IsValid}
use konduit.Data.SquashBody.Squashing.{is_index_squashed_lem}

-- The excluded indexes of `a` up to `n` are excluded by `b`.
abbrev exclusions_covered : ℕ → List ℕ → List ℕ → Bool
exclusions_covered n b a = all (contains b) (filter (λ idx. leb idx n) a)

covered_sound :
    (n : ℕ) (b a : List ℕ) (j : ℕ)
    → exclusions_covered n b a ≡ true
    → j ≤ n
    → contains a j ≡ true
    → contains b j ≡ true
covered_sound n b [] j h le m = cc
covered_sound n b (x ∷ a) j h le m = ground (arith, covered_sound n b a j)

covered_complete :
    (n : ℕ) (b a : List ℕ)
    → ((j : ℕ) → j ≤ n → contains a j ≡ true → contains b j ≡ true)
    → exclusions_covered n b a ≡ true
covered_complete n b [] h = refl
covered_complete n b (x ∷ a) h =
    let rest = covered_complete n b a (λ j le m. h j le (ground arith)) in ground (arith, rest, h x)

-- Of two valid bodies one is no riskier than the other exactly when it claims no more, has advanced
-- at least as far, and has squashed every index that the other has squashed.
pub no_riskier_than_lem :
    (a b : SquashBody)
    → IsValid a
    → IsValid b
    → (no_riskier_than a b ≡ true) ↔ (
        (a.amount ≤ b.amount)
        × (b.index ≤ a.index)
        × ((j : ℕ) → is_index_squashed b j ≡ true → is_index_squashed a j ≡ true))
unfolding no_riskier_than
no_riskier_than_lem a b v w = (
  (λ h. (
    ground arith,
    ground arith,
    λ j m. ground (
      arith,
      is_index_squashed_lem a j v,
      is_index_squashed_lem b j w,
      covered_sound b.index b.excludes a.excludes j,
    ),
  )),
  (λ h.
      let covered = covered_complete b.index b.excludes a.excludes (λ j le m.
        ground (arith, is_index_squashed_lem a j v, is_index_squashed_lem b j w, h.2 j)) in
      ground (arith, covered)),
)

excludes_included :
    (a b : SquashBody)
    → IsValid a
    → a.index ≤ b.index
    → no_riskier_than a b ≡ true
    → Includes b.excludes a.excludes
unfolding no_riskier_than
excludes_included a b v le h j m = ground (
  arith,
  covered_sound b.index b.excludes a.excludes j,
  contains-Below a.index j a.excludes v.below,
)

no_riskier_than_self : (b : SquashBody) → IsValid b → no_riskier_than b b ≡ true
no_riskier_than_self b w = (no_riskier_than_lem b b w w).1 (omega arith, omega arith, λ j m. m)

no_riskier_than-antisym :
    (a b : SquashBody)
    → IsValid a
    → IsValid b
    → no_riskier_than a b ≡ true
    → no_riskier_than b a ≡ true
    → a ≡ b
no_riskier_than-antisym a b v w f g =
    let (amount_ab, index_ab, seen_ab) = (no_riskier_than_lem a b v w).0 f in
    let (amount_ba, index_ba, seen_ba) = (no_riskier_than_lem b a w v).0 g in
    let e : a.excludes ≡ b.excludes =
      Includes-antisym a.excludes b.excludes v.ascending w.ascending
        (excludes_included b a w index_ab g) (excludes_included a b v index_ba f) in
    let amounts : a.amount ≡ b.amount = omega arith in
    let indexes : a.index ≡ b.index = omega arith in ground (arith, e, amounts, indexes)

-- `partial_cmp` answers `Equal` exactly on equal bodies.
partial_cmp-equal :
    (a b : SquashBody) → IsValid a → IsValid b → (partial_cmp a b ≡ some Ordering.eq) ↔ (a ≡ b)
unfolding partial_cmp
partial_cmp-equal a b v w = (
  (λ h. no_riskier_than-antisym a b v w (ground arith) (ground arith)),
  (λ e. rw e (rw (no_riskier_than_self b w) refl)),
)

-- The order of risk is transitive on valid bodies.
no_riskier_than_trans :
    (a b c : SquashBody)
    → IsValid a
    → IsValid b
    → IsValid c
    → no_riskier_than a b ≡ true
    → no_riskier_than b c ≡ true
    → no_riskier_than a c ≡ true
no_riskier_than_trans a b c u v w f g =
    let (amount_ab, index_ab, seen_ab) = (no_riskier_than_lem a b u v).0 f in
    let (amount_bc, index_bc, seen_bc) = (no_riskier_than_lem b c v w).0 g in
    (no_riskier_than_lem a c u w).1 (omega arith, omega arith, λ j m. seen_ab j (seen_bc j m))
