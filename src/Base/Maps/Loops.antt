-- ===== src/Base/Maps/Loops.antt =====
-- A loop over the entries of a map, and what it does to one key of its state.
use mathlib.Core.Path.{◌≡◌, refl, sym, ◌∙◌, subst}
use mathlib.Core.Logic.{inl, inr}
use mathlib.Core.Bool.{false}
use mathlib.Core.Option.{none, some}
use mathlib.Core.List.{[], ◌∷◌}
use konduit.Base.Tests.{Bool-cases}
use konduit.Base.Lists.{Bytes, bytes_eq, bytes_eq→eq}
use konduit.Base.Maps.{Map, get, Lacks, HasKeys}
use konduit.Base.Maps.Entries.{AllValues}

-- `for (key, value) in map { … }`
unfoldable pub each : {S B : Type 0} → (S → Bytes → B → S) → S → Map B → S
each step s [] = s
each step s ((k, x) ∷ m) = each step (step s k x) m

pub each-keeps :
    {S B : Type 0} (step : S → Bytes → B → S) (Inv : S → Type 0) (P : B → Type 0)
    → ((s : S) (k : Bytes) (x : B) → Inv s → P x → Inv (step s k x))
    → (m : Map B) (s : S) → AllValues P m
    → Inv s
    → Inv (each step s m)
unfolding each
each-keeps step Inv P keep [] s h i = i
each-keeps step Inv P keep ((k, x) ∷ m) s (h, hs) i =
    each-keeps step Inv P keep m (step s k x) hs (keep s k x i h)

module _ {S B V : Type 0} (step : S → Bytes → B → S) (Inv : S → Type 0) (P : B → Type 0)
    (keep : (s : S) (k : Bytes) (x : B) → Inv s → P x → Inv (step s k x)) (view : S → V) (k : Bytes)
    (f : V → B → V) (same : (s : S) (x : B) → Inv s → P x → view (step s k x) ≡ f (view s) x)
    (other : (s : S) (j : Bytes) (x : B)
      → Inv s
      → bytes_eq j k ≡ false
      → view (step s j x) ≡ view s) where
  each-Lacks :
      (m : Map B) (s : S) → Lacks k m → AllValues P m → Inv s → view (each step s m) ≡ view s
  unfolding each
  each-Lacks [] s l h i = refl
  each-Lacks ((j, x) ∷ m) s (l, ls) (h, hs) i =
      each-Lacks m (step s j x) ls hs (keep s j x i h) ∙ other s j x i l

  -- Only the entry of the key changes what is seen.
  pub each-view :
      (m : Map B) (s : S)
      → HasKeys m
      → AllValues P m
      → Inv s
      → view (each step s m) ≡ elim (get m k) [ none ↦ view s | some x ↦ f (view s) x ]
  unfolding each get
  each-view [] s u h i = refl
  each-view ((j, x) ∷ m) s (u, us) (h, hs) i = elim (Bool-cases (bytes_eq j k)) [
    | inl e ↦
        let is = bytes_eq→eq j k e in
        rw e (
          each-Lacks m (step s j x) (subst (λ t. Lacks t m) is u) hs (keep s j x i h)
          ∙ subst (λ t. view (step s t x) ≡ f (view s) x) (sym is) (same s x i h))
    | inr e ↦ rw e (
        subst (λ v. view (each step (step s j x) m) ≡ elim (get m k) [ none ↦ v | some y ↦ f v y ])
          (other s j x i e) (each-view m (step s j x) us hs (keep s j x i h)))
  ]
