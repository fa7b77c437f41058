-- ===== src/Data/Indexes/Superset.antt =====
-- `is_superset_of` and `partial_cmp` of indexes.rs against inclusion.
use konduit.Base.{ℕ, ◌<◌, ◌≡◌, refl, sym, ◌↔◌, true, some, List, [], ◌∷◌, arith, Ordering, ==-self}
use konduit.Base.Ascending.{Above, IsAscending, contains, contains-Above, Above-IsAscending}
use konduit.Data.Indexes.{Indexes, is_superset_of, partial_cmp}

abbrev pub Includes : List ℕ → List ℕ → Type 0
Includes a b = (x : ℕ) → contains b x ≡ true → contains a x ≡ true

superset_sound :
    (a b : List ℕ) (z : ℕ)
    → IsAscending a
    → IsAscending b
    → is_superset_of a b ≡ true
    → contains b z ≡ true
    → contains a z ≡ true
unfolding is_superset_of
superset_sound [] [] z p q h m = m
superset_sound [] (y ∷ b) z p q h m = cc
superset_sound (x ∷ a) [] z p q h m = cc
superset_sound (x ∷ a) (y ∷ b) z p q h m = ground (
  arith,
  superset_sound a (y ∷ b) z (Above-IsAscending x a p) q,
  superset_sound a b z (Above-IsAscending x a p) (Above-IsAscending y b q),
)

Includes-tail_lt :
    (x y : ℕ) (a b : List ℕ) → x < y → Above y b → Includes (x ∷ a) (y ∷ b) → Includes a (y ∷ b)
Includes-tail_lt x y a b lt q h z m = ground (arith, h z m, contains-Above x z (y ∷ b) (lt, q))

Includes-tail_eq :
    (x y : ℕ) (a b : List ℕ) → x ≡ y → Above y b → Includes (x ∷ a) (y ∷ b) → Includes a b
Includes-tail_eq x y a b e q h z m = ground (arith, h z, contains-Above y z b q)

superset_complete :
    (a b : List ℕ) → IsAscending a → IsAscending b → Includes a b → is_superset_of a b ≡ true
unfolding is_superset_of
superset_complete [] [] p q h = refl
superset_complete [] (y ∷ b) p q h = ground (arith, h y)
superset_complete (x ∷ a) [] p q h = refl
superset_complete (x ∷ a) (y ∷ b) p q h = ground (
  arith,
  λ (lt : x < y).
      superset_complete a (y ∷ b) (Above-IsAscending x a p) q (Includes-tail_lt x y a b lt q h),
  λ (e : x ≡ y).
      superset_complete a b (Above-IsAscending x a p) (Above-IsAscending y b q)
        (Includes-tail_eq x y a b e q h),
  h y,
  contains-Above x y a p,
)

-- On two increasing lists the one pass of is_superset_of decides inclusion.
is_superset_of_lem :
    (a b : Indexes)
    → IsAscending a
    → IsAscending b
    → (is_superset_of a b ≡ true) ↔ ((x : ℕ) → contains b x ≡ true → contains a x ≡ true)
is_superset_of_lem a b p q = ((λ h z. superset_sound a b z p q h), superset_complete a b p q)

heads-eq :
    (x y : ℕ) (a b : List ℕ)
    → Above x a
    → Above y b
    → contains (x ∷ a) y ≡ true
    → contains (y ∷ b) x ≡ true
    → x ≡ y
heads-eq x y a b p q f g = ground (arith, contains-Above x y a p, contains-Above y x b q)

Includes-antisym_Above :
    (n : ℕ) (a b : List ℕ) → Above n a → Above n b → Includes a b → Includes b a → a ≡ b
Includes-antisym_Above n [] [] p q f g = refl
Includes-antisym_Above n [] (y ∷ b) p q f g = ground (arith, f y)
Includes-antisym_Above n (x ∷ a) [] p q f g = ground (arith, g x)
Includes-antisym_Above n (x ∷ a) (y ∷ b) p q f g =
    let e =
      heads-eq x y a b p.1 q.1 (f y (ground (arith, ==-self y)))
        (g x (ground (arith, ==-self x))) in
    let rest =
      Includes-antisym_Above x a b p.1 (rw e q.1) (Includes-tail_eq x y a b e q.1 f)
        (Includes-tail_eq y x b a (sym e) p.1 g) in
    ground (arith, e, rest)

pub Includes-antisym :
    (a b : List ℕ) → IsAscending a → IsAscending b → Includes a b → Includes b a → a ≡ b
Includes-antisym [] [] p q f g = refl
Includes-antisym [] (y ∷ b) p q f g = ground (arith, f y)
Includes-antisym (x ∷ a) [] p q f g = ground (arith, g x)
Includes-antisym (x ∷ a) (y ∷ b) p q f g =
    let e =
      heads-eq x y a b p q (f y (ground (arith, ==-self y))) (g x (ground (arith, ==-self x))) in
    let rest =
      Includes-antisym_Above x a b p (rw e q) (Includes-tail_eq x y a b e q f)
        (Includes-tail_eq y x b a (sym e) p g) in
    ground (arith, e, rest)

-- `partial_cmp` answers `Equal` on equal lists only, as `PartialOrd` asks.
partial_cmp-eq :
    (a b : Indexes) → IsAscending a → IsAscending b → (partial_cmp a b ≡ some Ordering.eq) ↔ (a ≡ b)
unfolding partial_cmp
partial_cmp-eq a b p q = (
  (λ h.
      Includes-antisym a b p q (λ z. superset_sound a b z p q (ground arith))
        (λ z. superset_sound b a z q p (ground arith))),
  (λ e. rw e (rw (superset_complete b b q q (λ z m. m)) refl)),
)
