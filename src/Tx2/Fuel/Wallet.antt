-- ===== src/Tx2/Fuel/Wallet.antt =====
-- The list of the outputs that are still available, and how one is taken from it.
use konduit.Base.{
  ℕ, zero, suc, ◌+◌, ◌<◌, ◌≤◌, ◌≡◌, refl, sym, ap, subst, ◌∙◌, none, some, Bool-cases, inl, inr,
  List, [], ◌∷◌, length, total, All, ◌==◌, ==→eq, arith,
}
use konduit.Tx2.Fuel.{
  Utxo, split_last, replace_at, item_at, swap_remove, best_from, best_index, key_le,
}

-- The same outputs: every measure of them has the same total, and what holds of all of one holds of
-- the other.
pub record Taken (us : List Utxo) (u : Utxo) (rest : List Utxo) : Type 1 where
  pub totals : (f : Utxo → ℕ) → total f us ≡ f u + total f rest
  pub alls : (P : Utxo → Type 0) → All P us → P u × All P rest
  pub count : length us ≡ suc (length rest)

split_last-Taken :
    (u : Utxo) (us : List Utxo) → Taken (u ∷ us) (split_last u us).1 (split_last u us).0
unfolding split_last
split_last-Taken u [] = record { totals = λ f. refl; alls = λ P h. h; count = refl }
split_last-Taken u (v ∷ us) =
    let tail = split_last-Taken v us in
    record {
      totals = λ f. omega (arith, tail.totals f);
      alls = λ P (h, hs). let (l, front) = tail.alls P hs in (l, (h, front));
      count = omega (arith, tail.count);
    }

-- The last item stands behind the front.
item_at-split_last :
    (u : Utxo) (us : List Utxo) (i : ℕ)
    → i < length (split_last u us).0
    → item_at (u ∷ us) i ≡ item_at (split_last u us).0 i
unfolding split_last
item_at-split_last u [] i h = absurd (omega arith)
item_at-split_last u (v ∷ us) zero h = refl
item_at-split_last u (v ∷ us) (suc i) h = item_at-split_last v us i (omega arith)

item_at-last :
    (u : Utxo) (us : List Utxo)
    → item_at (u ∷ us) (length (split_last u us).0) ≡ some (split_last u us).1
unfolding split_last
item_at-last u [] = refl
item_at-last u (v ∷ us) = item_at-last v us

item_at-beyond : (us : List Utxo) (i : ℕ) → length us ≤ i → item_at us i ≡ none
item_at-beyond [] i h = refl
item_at-beyond (u ∷ us) zero h = absurd (omega arith)
item_at-beyond (u ∷ us) (suc i) h = item_at-beyond us i (omega arith)

item_at-within : (us : List Utxo) (i : ℕ) → i < length us → (u : Utxo) × (item_at us i ≡ some u)
item_at-within [] i h = absurd (omega arith)
item_at-within (u ∷ us) zero h = (u, refl)
item_at-within (u ∷ us) (suc i) h = item_at-within us i (omega arith)

replace_at-total :
    (us : List Utxo) (i : ℕ) (u l : Utxo) (f : Utxo → ℕ)
    → item_at us i ≡ some u
    → total f (replace_at us i l) + f u ≡ total f us + f l
replace_at-total [] i u l f h = cc
replace_at-total (v ∷ us) zero u l f h = let is : v ≡ u = cc h in omega (arith, ap f is)
replace_at-total (v ∷ us) (suc i) u l f h = omega (arith, replace_at-total us i u l f h)

replace_at-All :
    (P : Utxo → Type 0) (us : List Utxo) (i : ℕ) (u l : Utxo)
    → item_at us i ≡ some u
    → P l
    → All P us
    → P u × All P (replace_at us i l)
replace_at-All P [] i u l h p hs = cc
replace_at-All P (v ∷ us) zero u l h p (q, qs) = let is : v ≡ u = cc h in (subst P is q, (p, qs))
replace_at-All P (v ∷ us) (suc i) u l h p (q, qs) =
    let (pu, ps) = replace_at-All P us i u l h p qs in (pu, (q, ps))

length-replace_at : (us : List Utxo) (i : ℕ) (l : Utxo) → length (replace_at us i l) ≡ length us
length-replace_at [] i l = refl
length-replace_at (u ∷ us) zero l = refl
length-replace_at (u ∷ us) (suc i) l = omega (arith, length-replace_at us i l)

-- A position in range can be taken, and the others are left.
pub swap_remove-Taken :
    (us : List Utxo) (i : ℕ)
    → i < length us
    → (u : Utxo) × (rest : List Utxo) × (swap_remove us i ≡ some (u, rest)) × Taken us u rest
unfolding swap_remove
swap_remove-Taken [] i h = absurd (omega arith)
swap_remove-Taken (v ∷ vs) i h =
    let front = (split_last v vs).0 in
    let l = (split_last v vs).1 in
    let taken = split_last-Taken v vs in
    elim (Bool-cases (i == length front)) [
      | inl e ↦
          let found : item_at (v ∷ vs) i ≡ some l =
            subst (λ k. item_at (v ∷ vs) k ≡ some l) (sym (==→eq i _ e)) (item_at-last v vs) in
          (l, front, rw (swap_remove, found, e), taken)
      | inr e ↦
          let early : i < length front = ground (arith, taken.count) in
          let (u, found) = item_at-within front i early in
          let whole : item_at (v ∷ vs) i ≡ some u = item_at-split_last v vs i early ∙ found in
          (
            u,
            replace_at front i l,
            rw (swap_remove, whole, e),
            record {
              totals = λ f. omega (arith, taken.totals f, replace_at-total front i u l f found);
              alls =
                  λ P hs. let (p, ps) = taken.alls P hs in replace_at-All P front i u l found p ps;
              count = omega (arith, taken.count, length-replace_at front i l);
            },
          )
    ]

best_from-bound :
    (key : Utxo → ℕ × ℕ) (at best : ℕ) (top : ℕ × ℕ) (us : List Utxo)
    → best < at
    → best_from key at best top us < at + length us
unfolding best_from
best_from-bound key at best top [] h = omega arith
best_from-bound key at best top (u ∷ us) h = elim (Bool-cases (key_le top (key u))) [
  | inl e ↦ rw e (omega (arith, best_from-bound key (suc at) at (key u) us (omega arith)))
  | inr e ↦ rw e (omega (arith, best_from-bound key (suc at) best top us (omega arith)))
]

-- The best of some outputs is one of them.
pub best_index-within :
    (key : Utxo → ℕ × ℕ) (u : Utxo) (us : List Utxo)
    → (i : ℕ) × (best_index key (u ∷ us) ≡ some i) × (i < length (u ∷ us))
unfolding best_index
best_index-within key u us = (
  best_from key 1 0 (key u) us,
  refl,
  omega (arith, best_from-bound key 1 0 (key u) us (omega arith)),
)
