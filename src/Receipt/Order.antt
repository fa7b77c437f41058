-- ===== src/Receipt/Order.antt =====
-- The operations of receipt.rs keep the cheques ordered by index and clear of the squash.
use konduit.Base.{
  ℕ, suc, ◌+◌, ◌≤◌, ◌<◌, ◌≡◌, refl, ap, Bool, false, not, none, some, List, [], ◌∷◌, ◌++◌, map, ok,
  arith, last, filter, All, add64-eq, u64_mod, Option-cases, inl, inr,
}
use konduit.Base.Ascending.{Above, Below, IsAscending, Below-last, Above-mono, Above-IsAscending}
use konduit.Data.Duration.{Duration}
use konduit.Data.Primitives.{Primitives}
use konduit.Data.SquashBody
use konduit.Data.SquashBody.Squashing.{is_index_squashed_lem}
use konduit.Data.Cheque
use konduit.Data.Cheque.{Locked, Secret, Cheque, unlocked, locked, lock_eq, lock_of}
use konduit.Data.Signed.{Squash}
use konduit.Receipt.{
  Receipt, IsValid, settles, is_live, max_index, apply_locked, apply_secret, apply_timeout,
  apply_squash,
}
use konduit.Receipt.Secrets.{opened_by, apply_secret_lem}

abbrev pub indexes : List Cheque → List ℕ
indexes = map Cheque.index

append-one_Above :
    (n x : ℕ) (xs : List ℕ) → Above n xs → Below x xs → n < x → Above n (xs ++ x ∷ [])
append-one_Above n x [] a b h = (h, tt)
append-one_Above n x (y ∷ ys) a b h = (a.0, append-one_Above y x ys a.1 b.1 b.0)

append-one-IsAscending :
    (x : ℕ) (xs : List ℕ) → IsAscending xs → Below x xs → IsAscending (xs ++ x ∷ [])
append-one-IsAscending x [] a b = tt
append-one-IsAscending x (y ∷ ys) a b = append-one_Above y x ys a b.1 b.0

indexes-append :
    (cs : List Cheque) (c : Cheque) → indexes (cs ++ c ∷ []) ≡ indexes cs ++ Cheque.index c ∷ []
indexes-append [] c = refl
indexes-append (d ∷ cs) c = ap (◌∷◌ (Cheque.index d)) (indexes-append cs c)

last-indexes :
    (cs : List Cheque) (c : Cheque) → last cs ≡ some c → last (indexes cs) ≡ some (Cheque.index c)
last-indexes [] c e = cc
last-indexes (d ∷ []) c e = ground arith
last-indexes (d ∷ f ∷ cs) c e = last-indexes (f ∷ cs) c e

last-none : (cs : List Cheque) → last cs ≡ none → cs ≡ []
last-none [] e = refl
last-none (d ∷ []) e = cc
last-none (d ∷ f ∷ cs) e = absurd (last_lem f cs e)
  where
    last_lem : (f : Cheque) (cs : List Cheque) → ¬ (last (f ∷ cs) ≡ none)
    last_lem f [] e = cc
    last_lem f (g ∷ gs) e = last_lem g gs e

-- Every cheque stands at or below the greatest index.
indexes-Below :
    (r : Receipt) → IsAscending (indexes r.cheques) → Below (suc (max_index r)) (indexes r.cheques)
unfolding max_index
indexes-Below r a = elim (Option-cases (last r.cheques)) [
  | inl e ↦ rw (last-none r.cheques e) tt
  | inr (c, e) ↦
      Below-last (suc (max_index r)) (Cheque.index c) (indexes r.cheques) a
        (last-indexes r.cheques c e) (rw (e, max_index) (omega arith))
]

squash-index-le : (r : Receipt) → r.squash.body.index ≤ max_index r
unfolding max_index
squash-index-le r = omega arith

All-append_one :
    (P : Cheque → Type 0) (cs : List Cheque) (c : Cheque) → All P cs → P c → All P (cs ++ c ∷ [])
All-append_one P [] c h k = (k, tt)
All-append_one P (d ∷ cs) c h k = (h.0, All-append_one P cs c h.1 k)

push-IsValid :
    (r : Receipt) (l : Locked)
    → IsValid r
    → l.body.index ≡ suc (max_index r)
    → IsValid (record r { cheques = r.cheques ++ locked l ∷ [] })
push-IsValid r l v e = record {
  body_valid = v.body_valid;
  ascending =
      rw (indexes-append r.cheques (locked l), e)
        (append-one-IsAscending (suc (max_index r)) (indexes r.cheques) v.ascending
          (indexes-Below r v.ascending));
  unsettled =
      All-append_one (λ c. settles r.squash c ≡ false) r.cheques (locked l) v.unsettled
        (ground (
          arith,
          is_index_squashed_lem r.squash.body l.body.index v.body_valid,
          squash-index-le r,
        ));
}

-- A cheque that a receipt accepts leaves a valid receipt valid, where the next index fits in 64
-- bits.
apply_locked-IsValid :
    (r : Receipt) (l : Locked) {r' : Receipt}
    → IsValid r
    → max_index r + 1 < u64_mod
    → apply_locked r l ≡ ok r'
    → IsValid r'
unfolding apply_locked
apply_locked-IsValid r l v word h =
    ground (arith, add64-eq (max_index r) 1 word, push-IsValid r l v)

index-opened_by :
    (p : Primitives) (s : Secret) (c : Cheque) → Cheque.index (opened_by p s c) ≡ Cheque.index c
index-opened_by p s (unlocked u) = refl
index-opened_by p s (locked l) = ground arith

indexes-opened_by :
    (p : Primitives) (s : Secret) (cs : List Cheque) → indexes (map (opened_by p s) cs) ≡ indexes cs
indexes-opened_by p s [] = refl
indexes-opened_by p s (c ∷ cs) = rw (index-opened_by p s c, indexes-opened_by p s cs)

-- Of lists of the same indexes a squash leaves both unsettled, or neither.
unsettled-indexes :
    (q : Squash) (cs ds : List Cheque)
    → indexes cs ≡ indexes ds
    → All (λ c. settles q c ≡ false) ds
    → All (λ c. settles q c ≡ false) cs
unsettled-indexes q [] ds e h = tt
unsettled-indexes q (c ∷ cs) [] e h = cc
unsettled-indexes q (c ∷ cs) (d ∷ ds) e h =
    let heads : Cheque.index c ≡ Cheque.index d = cc in
    (rw heads h.0, unsettled-indexes q cs ds (cc) h.1)

pub same_indexes-IsValid :
    (r : Receipt) (cs : List Cheque)
    → IsValid r
    → indexes cs ≡ indexes r.cheques
    → IsValid (record r { cheques = cs })
same_indexes-IsValid r cs v e = record {
  body_valid = v.body_valid;
  ascending = rw e v.ascending;
  unsettled = unsettled-indexes r.squash cs r.cheques e v.unsettled;
}

-- A secret keeps the receipt valid.
apply_secret-IsValid :
    (p : Primitives) (r : Receipt) (s : Secret) {r' : Receipt}
    → IsValid r
    → apply_secret p r s ≡ ok r'
    → IsValid r'
apply_secret-IsValid p r s v h = ground (
  arith,
  apply_secret_lem p s r,
  same_indexes-IsValid r (map (opened_by p s) r.cheques) v (indexes-opened_by p s r.cheques),
)

filter-Above :
    (n : ℕ) (f : Cheque → Bool) (cs : List Cheque)
    → Above n (indexes cs)
    → Above n (indexes (filter f cs))
filter-Above n f [] a = tt
filter-Above n f (c ∷ cs) a = ground (
  arith,
  filter-Above (Cheque.index c) f cs a.1,
  Above-mono {m = n} {n = Cheque.index c} (indexes (filter f cs)),
)

filter-IsAscending :
    (f : Cheque → Bool) (cs : List Cheque)
    → IsAscending (indexes cs)
    → IsAscending (indexes (filter f cs))
filter-IsAscending f [] a = tt
filter-IsAscending f (c ∷ cs) a = ground (
  arith,
  filter-Above (Cheque.index c) f cs a,
  Above-IsAscending (Cheque.index c) (indexes (filter f cs)),
)

All-filter :
    (P : Cheque → Type 0) (f : Cheque → Bool) (cs : List Cheque) → All P cs → All P (filter f cs)
All-filter P f [] h = tt
All-filter P f (c ∷ cs) h = ground (arith, All-filter P f cs h.1)

-- Dropping the locked cheques that have timed out keeps the receipt valid.
apply_timeout-IsValid : (r : Receipt) (now : Duration) → IsValid r → IsValid (apply_timeout r now)
unfolding apply_timeout
apply_timeout-IsValid r now v = record {
  body_valid = v.body_valid;
  ascending = filter-IsAscending (is_live now) r.cheques v.ascending;
  unsettled = All-filter (λ c. settles r.squash c ≡ false) (is_live now) r.cheques v.unsettled;
}

All-filter-not :
    (q : Squash) (cs : List Cheque)
    → All (λ c. settles q c ≡ false) (filter (λ c. not (settles q c)) cs)
All-filter-not q [] = tt
All-filter-not q (c ∷ cs) = ground (arith, All-filter-not q cs)

-- A valid squash that a receipt accepts leaves a valid receipt valid: its cheques ordered by index,
-- and none of them settled by the squash.
pub apply_squash-IsValid :
    (r : Receipt) (q : Squash) {r' : Receipt}
    → IsValid r
    → SquashBody.IsValid q.body
    → apply_squash r q ≡ ok r'
    → IsValid r'
unfolding apply_squash
apply_squash-IsValid r q v w h =
    let settled : IsValid
        (record { squash = q; cheques = filter (λ c. not (settles q c)) r.cheques }) =
      record {
        body_valid = w;
        ascending = filter-IsAscending (λ c. not (settles q c)) r.cheques v.ascending;
        unsettled = All-filter-not q r.cheques;
      } in
    ground (arith, settled)
