-- ===== src/Sdk/Value/Attach.antt =====
-- `with_assets` on a value without assets gives the assets back as they are, if no policy among them is
-- without assets and no quantity is nothing.
use konduit.Base.{◌<◌, ◌≡◌, refl, ◌∙◌, ap, false, Option, none, some, [], ◌∷◌, Bytes, ◌==◌, arith}
use konduit.Base.Maps.{get, Lacks, HasKeys, get-Lacks}
use konduit.Base.Maps.Entries.{
  AllValues, insert, Lacks-insert, HasKeys-insert, AllValues-insert, get-insert_same,
  get-insert_other, bytes_eq_flip,
}
use konduit.Base.Maps.Loops.{each, each-view, each-keeps}
use konduit.Sdk.Value.{Names, Assets, nonzero, attach, attach_one, held_in, IsNonNull}

nonzero_positive : (m : Names) → AllValues (λ q. 0 < q) m → nonzero m ≡ m
unfolding nonzero
nonzero_positive [] h = refl
nonzero_positive ((k, q) ∷ m) (h, hs) =
    let pos : (q == 0) ≡ false = ground arith in rw (pos, nonzero_positive m hs)

attach_one-insert :
    (s : Assets) (p : Bytes) (m : Names) → Lacks p s → IsNonNull m → attach_one s p m ≡ insert s p m
unfolding attach_one
attach_one-insert s p m l h = rw (attach_one, get-Lacks s p l, nonzero_positive m h.1)

-- No key of the second map is in the first.
abbrev Apart : Assets → Assets → Type 0
Apart s [] = Unit
Apart s ((k, m) ∷ a) = Lacks k s × Apart s a

Apart-insert :
    (s a : Assets) (p : Bytes) (m : Names) → Lacks p a → Apart s a → Apart (insert s p m) a
Apart-insert s [] p m l h = tt
Apart-insert s ((k, n) ∷ a) p m (l, ls) (h, hs) =
    (Lacks-insert s p k m (bytes_eq_flip k p l) h, Apart-insert s a p m ls hs)

Apart-empty : (a : Assets) → Apart [] a
Apart-empty [] = tt
Apart-empty ((k, m) ∷ a) = (tt, Apart-empty a)

attach-insert :
    (a s : Assets)
    → HasKeys a
    → AllValues IsNonNull a
    → Apart s a
    → HasKeys s
    → (attach s a ≡ each insert s a) × HasKeys (each insert s a)
unfolding attach each
attach-insert [] s u h d k = (refl, k)
attach-insert ((p, m) ∷ a) s (u, us) (h, hs) (d, ds) k =
    let (same, keys) =
      attach-insert a (insert s p m) us hs (Apart-insert s a p m u ds) (HasKeys-insert s p m d k) in
    (ap (λ t. each attach_one t a) (attach_one-insert s p m d h) ∙ same, keys)

module _ (a : Assets) (u : HasKeys a) (h : AllValues IsNonNull a) where
  attached : (attach [] a ≡ each insert [] a) × HasKeys (each insert [] a)
  attached = attach-insert a [] u h (Apart-empty a) tt

  pub attach-HasKeys : HasKeys (attach [] a)
  attach-HasKeys = rw attached.0 attached.1

  pub attach-AllValues : (P : Names → Type 0) → AllValues P a → AllValues P (attach [] a)
  attach-AllValues P k =
      rw attached.0
        (each-keeps insert (AllValues P) P (λ s p m i t. AllValues-insert P s p m t i) a [] k tt)

  get-attach : (p : Bytes) → get (attach [] a) p ≡ get a p
  unfolding get
  get-attach p = rw attached.0 (
      each-view insert (λ s. Unit {0}) IsNonNull (λ s k x i t. tt) (λ s. get s p) p (λ v x. some x)
        (λ s x i t. get-insert_same s p x) (λ s j x i e. get-insert_other s j p x e) a [] u h tt
      ∙ same (get a p))
    where
      same :
          (o : Option Names)
          → elim o as (λ _. Option Names) [ none ↦ get [] p | some m ↦ some m ] ≡ o
      same none = refl
      same (some m) = refl

  pub held_in-attach : (p n : Bytes) → held_in (attach [] a) p n ≡ held_in a p n
  held_in-attach p n = rw (held_in, get-attach p)
