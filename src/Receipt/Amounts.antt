-- ===== src/Receipt/Amounts.antt =====
-- What the operations of receipt.rs do to the amounts owed and committed. The sums are read as plain
-- sums where they fit in 64 bits.
use konduit.Base.{
  ℕ, ◌+◌, ◌≤◌, ◌<◌, ◌≡◌, refl, ◌↔◌, Bool, not, List, [], ◌∷◌, ◌++◌, map, ok, err, arith,
  if◌then◌else◌, ltb, filter, filter_map, total, total-append, total-filter-not, add64, add64-eq,
  sum64, sum64-eq, u64_mod,
}
use konduit.Data.Duration.{Duration}
use konduit.Data.Primitives.{Primitives}
use konduit.Data.Cheque
use konduit.Data.Cheque.{
  Locked, Unlocked, Secret, Cheque, unlocked, locked, lock_eq, lock_of, as_unlocked,
}
use konduit.Data.Signed.{Squash}
use konduit.Receipt.{
  Receipt, squash_amount_less, settles, is_live, opens, unlockeds, unlocked_amount, owed, committed,
  apply_locked, apply_secret, apply_timeout, apply_squash,
}
use konduit.Receipt.Secrets.{opened_by, apply_secret_lem}

abbrev pub unlocked_total : List Cheque → ℕ
unlocked_total cs = total unlocked_amount (filter_map as_unlocked cs)

abbrev pub committed_total : Receipt → ℕ
committed_total r = r.squash.body.amount + total Cheque.amount r.cheques

abbrev pub owed_total : Receipt → ℕ
owed_total r = r.squash.body.amount + unlocked_total r.cheques

-- The sum of all amounts fits in 64 bits.
abbrev pub Fits : Receipt → Type 0
Fits r = committed_total r < u64_mod

unlocked_total-le : (cs : List Cheque) → unlocked_total cs ≤ total Cheque.amount cs
unlocked_total-le [] = omega arith
unlocked_total-le (unlocked u ∷ cs) = omega (arith, unlocked_total-le cs)
unlocked_total-le (locked l ∷ cs) = omega (arith, unlocked_total-le cs)

pub committed_lem : (r : Receipt) → Fits r → committed r ≡ committed_total r
unfolding committed
committed_lem r h = omega (
  arith,
  sum64-eq Cheque.amount r.cheques (omega arith),
  add64-eq r.squash.body.amount (sum64 Cheque.amount r.cheques),
)

pub owed_lem : (r : Receipt) → Fits r → owed r ≡ owed_total r
unfolding owed
owed_lem r h = omega (
  arith,
  unlocked_total-le r.cheques,
  sum64-eq unlocked_amount (unlockeds r) (omega (arith, unlocked_total-le r.cheques)),
  add64-eq r.squash.body.amount (sum64 unlocked_amount (unlockeds r)),
)

filter-total-le :
    (f : Cheque → Bool) (cs : List Cheque)
    → total Cheque.amount (filter f cs) ≤ total Cheque.amount cs
filter-total-le f [] = omega arith
filter-total-le f (c ∷ cs) = ground (arith, filter-total-le f cs)

-- The sum that `apply_squash` computes.
abbrev settled_total : Receipt → Squash → ℕ
settled_total r q = total Cheque.amount (filter (settles q) r.cheques)

settled_sum :
    (r : Receipt) (q : Squash)
    → Fits r
    → add64 r.squash.body.amount (sum64 Cheque.amount (filter (settles q) r.cheques))
      ≡ r.squash.body.amount + settled_total r q
settled_sum r q h = omega (
  arith,
  filter-total-le (settles q) r.cheques,
  sum64-eq Cheque.amount (filter (settles q) r.cheques)
      (omega (arith, filter-total-le (settles q) r.cheques)),
  add64-eq r.squash.body.amount (sum64 Cheque.amount (filter (settles q) r.cheques)),
)

unlocked_total-split :
    (f : Cheque → Bool) (cs : List Cheque)
    → unlocked_total cs
      ≤ total Cheque.amount (filter f cs) + unlocked_total (filter (λ c. not (f c)) cs)
unlocked_total-split f [] = omega arith
unlocked_total-split f (unlocked u ∷ cs) = ground (arith, unlocked_total-split f cs)
unlocked_total-split f (locked l ∷ cs) = ground (arith, unlocked_total-split f cs)

-- The receipt after a squash that is accepted.
abbrev pub settled : Receipt → Squash → Receipt
settled r q = record { squash = q; cheques = filter (λ c. not (settles q c)) r.cheques }

-- All cases of `apply_squash`, by plain sums.
pub apply_squash_lem :
    (r : Receipt) (q : Squash)
    → Fits r
    → apply_squash r q ≡ (
        if ltb q.body.amount (r.squash.body.amount + settled_total r q)
        then err squash_amount_less
        else ok (settled r q))
unfolding apply_squash
apply_squash_lem r q h = rw (settled_sum r q h) refl

settled_totals :
    (r : Receipt) (q : Squash)
    → r.squash.body.amount + settled_total r q ≤ q.body.amount
    → (committed_total r ≤ committed_total (settled r q))
      × (owed_total r ≤ owed_total (settled r q))
settled_totals r q h = (
  omega (arith, total-filter-not Cheque.amount (settles q) r.cheques),
  omega (arith, unlocked_total-split (settles q) r.cheques),
)

settled_grows :
    (r : Receipt) (q : Squash)
    → Fits r
    → Fits (settled r q)
    → r.squash.body.amount + settled_total r q ≤ q.body.amount
    → (committed r ≤ committed (settled r q)) × (owed r ≤ owed (settled r q))
settled_grows r q h fits le =
    let (more_committed, more_owed) = settled_totals r q le in
    (
      rw (committed_lem r h, committed_lem (settled r q) fits) more_committed,
      rw (owed_lem r h, owed_lem (settled r q) fits) more_owed,
    )

-- A squash is refused exactly if its amount is less than that of the current squash and of the
-- cheques which it settles. For sums that fit in 64 bits.
apply_squash-refused :
    (r : Receipt) (q : Squash)
    → Fits r
    → (apply_squash r q ≡ err squash_amount_less)
      ↔ (q.body.amount < r.squash.body.amount + total Cheque.amount (filter (settles q) r.cheques))
apply_squash-refused r q h =
    ((λ e. ground (arith, apply_squash_lem r q h)), (λ lt. ground (arith, apply_squash_lem r q h)))

-- A squash that a receipt accepts lowers neither what is owed nor what is committed, where the sums
-- fit in 64 bits before and after.
apply_squash-amounts :
    (r : Receipt) (q : Squash) (r' : Receipt)
    → Fits r
    → Fits r'
    → apply_squash r q ≡ ok r'
    → (committed r ≤ committed r') × (owed r ≤ owed r')
apply_squash-amounts r q r' h fits e =
    let same : r' ≡ settled r q = ground (arith, apply_squash_lem r q h) in
    let le : r.squash.body.amount + settled_total r q ≤ q.body.amount =
      ground (arith, apply_squash_lem r q h) in
    rw same (settled_grows r q h (rw same at fits) le)

-- Opening cheques with a secret.
opened_totals :
    (p : Primitives) (s : Secret) (cs : List Cheque)
    → (total Cheque.amount (map (opened_by p s) cs) ≡ total Cheque.amount cs)
      × (unlocked_total (map (opened_by p s) cs)
          ≡ unlocked_total cs + total Cheque.amount (filter (opens (lock_of p s)) cs))
opened_totals p s [] = (refl, omega arith)
opened_totals p s (unlocked u ∷ cs) = ground (arith, opened_totals p s cs)
opened_totals p s (locked l ∷ cs) = ground (arith, opened_totals p s cs)

-- A secret that is accepted raises what is owed by the amounts of the cheques that it opens, and
-- leaves what is committed. For sums that fit in 64 bits.
apply_secret-amounts :
    (p : Primitives) (r : Receipt) (s : Secret) {r' : Receipt}
    → Fits r
    → apply_secret p r s ≡ ok r'
    → (committed r' ≡ committed r)
      × (owed r' ≡ owed r + total Cheque.amount (filter (opens (lock_of p s)) r.cheques))
apply_secret-amounts p r s {r'} h e =
    let after : Receipt = record r { cheques = map (opened_by p s) r.cheques } in
    let same : r' ≡ after = ground (arith, apply_secret_lem p s r) in
    let (kept, raised) = opened_totals p s r.cheques in
    let fits : Fits after = omega arith in
    rw same (
      omega (arith, committed_lem r h, committed_lem after fits),
      omega (arith, owed_lem r h, owed_lem after fits),
    )

timeout_totals :
    (now : Duration) (cs : List Cheque)
    → (unlocked_total (filter (is_live now) cs) ≡ unlocked_total cs)
      × (total Cheque.amount (filter (is_live now) cs)
            + total Cheque.amount (filter (λ c. not (is_live now c)) cs)
          ≡ total Cheque.amount cs)
timeout_totals now [] = (refl, refl)
timeout_totals now (unlocked u ∷ cs) = ground (arith, timeout_totals now cs)
timeout_totals now (locked l ∷ cs) = ground (arith, timeout_totals now cs)

-- Dropping the cheques that have timed out leaves what is owed, and takes the amounts of those
-- cheques off what is committed. For sums that fit in 64 bits.
apply_timeout-amounts :
    (r : Receipt) (now : Duration)
    → Fits r
    → (owed (apply_timeout r now) ≡ owed r)
      × (committed (apply_timeout r now)
            + total Cheque.amount (filter (λ c. not (is_live now c)) r.cheques)
          ≡ committed r)
unfolding apply_timeout
apply_timeout-amounts r now h =
    let after : Receipt = record r { cheques = filter (is_live now) r.cheques } in
    let (kept, split) = timeout_totals now r.cheques in
    let fits : Fits after = omega arith in
    (
      omega (arith, owed_lem r h, owed_lem after fits),
      omega (arith, committed_lem r h, committed_lem after fits),
    )

unlocked_total-push :
    (cs : List Cheque) (l : Locked) → unlocked_total (cs ++ locked l ∷ []) ≡ unlocked_total cs
unlocked_total-push [] l = refl
unlocked_total-push (unlocked u ∷ cs) l = omega (arith, unlocked_total-push cs l)
unlocked_total-push (locked c ∷ cs) l = unlocked_total-push cs l

-- A locked cheque that is accepted raises what is committed by its amount, and leaves what is owed.
pub apply_locked-amounts :
    (r : Receipt) (l : Locked) {r' : Receipt}
    → committed_total r + l.body.amount < u64_mod
    → apply_locked r l ≡ ok r'
    → (committed r' ≡ committed r + l.body.amount) × (owed r' ≡ owed r)
unfolding apply_locked
apply_locked-amounts r l {r'} h e =
    let after : Receipt = record r { cheques = r.cheques ++ locked l ∷ [] } in
    let same : r' ≡ after = ground arith in
    let sums = total-append Cheque.amount r.cheques (locked l ∷ []) in
    let fits : Fits after = omega (arith, sums) in
    rw same (
      omega (arith, sums, committed_lem r (omega arith), committed_lem after fits),
      omega (arith, unlocked_total-push r.cheques l, owed_lem r (omega arith), owed_lem after fits),
    )
