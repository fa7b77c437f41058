-- ===== src/Receipt/Replace.antt =====
-- `apply_replace` of receipt.rs.
use konduit.Base.{
  ◌<◌, ◌≡◌, none, List, [], ◌∷◌, ok, ◌>>=◌, >>=-eq-ok, arith, ◌==◌, Bool-cases, inl, inr, total,
}
use konduit.Data.Cheque
use konduit.Data.Cheque.{Locked, Unlocked, Cheque, unlocked, locked, lock_eq, as_unlocked}
use konduit.Receipt.{Receipt, IsValid, apply_replace, replace_in, replace_found, committed, owed}
use konduit.Receipt.Order.{indexes, same_indexes-IsValid}
use konduit.Receipt.Amounts.{
  Fits, unlocked_total, committed_total, owed_total, committed_lem, owed_lem,
}

index-replace_found :
    (l : Locked) (c c' : Cheque)
    → Cheque.index c ≡ l.body.index
    → replace_found l c ≡ ok c'
    → Cheque.index c' ≡ Cheque.index c
unfolding replace_found
index-replace_found l (unlocked u) c' e h = cc
index-replace_found l (locked old) c' e h = ground arith

indexes-replace_in :
    (l : Locked) (cs cs' : List Cheque) → replace_in l cs ≡ ok cs' → indexes cs' ≡ indexes cs
unfolding replace_in
indexes-replace_in l [] cs' h = cc
indexes-replace_in l (c ∷ cs) cs' h = elim (Bool-cases (Cheque.index c == l.body.index)) [
  | inl hit ↦
      let k : (replace_found l c >>= λ c'. ok (c' ∷ cs)) ≡ ok cs' = ground arith in
      let (c', e, f) = >>=-eq-ok (replace_found l c) (λ c'. ok (c' ∷ cs)) k in
      let same : Cheque.index c' ≡ Cheque.index c = index-replace_found l c c' (ground arith) e in
      ground (arith, f, same)
  | inr miss ↦
      let k : (replace_in l cs >>= λ ds. ok (c ∷ ds)) ≡ ok cs' = ground arith in
      let (ds, e, f) = >>=-eq-ok (replace_in l cs) (λ ds. ok (c ∷ ds)) k in
      let same : indexes ds ≡ indexes cs = indexes-replace_in l cs ds e in ground (arith, f, same)
]

-- A replacement that a receipt accepts leaves a valid receipt valid: its cheques ordered by index,
-- and none of them settled by the squash.
apply_replace-IsValid :
    (r : Receipt) (l : Locked) {r' : Receipt} → IsValid r → apply_replace r l ≡ ok r' → IsValid r'
unfolding apply_replace
apply_replace-IsValid r l v h =
    let (cs, e, f) = >>=-eq-ok (replace_in l r.cheques) (λ cs. ok (record r { cheques = cs })) h in
    let kept = same_indexes-IsValid r cs v (indexes-replace_in l r.cheques cs e) in
    ground (arith, f, kept)

replace_found_amount :
    (l : Locked) (c c' : Cheque)
    → replace_found l c ≡ ok c'
    → (c' ≡ locked l) × (Cheque.amount c < l.body.amount) × (as_unlocked c ≡ none)
unfolding replace_found
replace_found_amount l (unlocked u) c' h = cc
replace_found_amount l (locked old) c' h = ground arith

replace_in_amounts :
    (l : Locked) (cs cs' : List Cheque)
    → replace_in l cs ≡ ok cs'
    → (total Cheque.amount cs < total Cheque.amount cs') × (unlocked_total cs' ≡ unlocked_total cs)
unfolding replace_in
replace_in_amounts l [] cs' h = cc
replace_in_amounts l (c ∷ cs) cs' h = elim (Bool-cases (Cheque.index c == l.body.index)) [
  | inl hit ↦
      let k : (replace_found l c >>= λ c'. ok (c' ∷ cs)) ≡ ok cs' = ground arith in
      let (c', e, f) = >>=-eq-ok (replace_found l c) (λ c'. ok (c' ∷ cs)) k in
      let (now_locked, more, was_locked) = replace_found_amount l c c' e in ground arith
  | inr miss ↦
      let k : (replace_in l cs >>= λ ds. ok (c ∷ ds)) ≡ ok cs' = ground arith in
      let (ds, e, f) = >>=-eq-ok (replace_in l cs) (λ ds. ok (c ∷ ds)) k in
      let (more, kept) = replace_in_amounts l cs ds e in ground arith
]

replaced_amounts :
    (r after : Receipt)
    → Fits r
    → Fits after
    → committed_total r < committed_total after
    → owed_total after ≡ owed_total r
    → (committed r < committed after) × (owed after ≡ owed r)
replaced_amounts r after fits fits' more kept = (
  omega (arith, committed_lem r fits, committed_lem after fits'),
  omega (arith, owed_lem r fits, owed_lem after fits'),
)

-- A replacement that is accepted raises what is committed, and leaves what is owed. For sums that
-- fit in 64 bits before and after.
pub apply_replace-amounts :
    (r : Receipt) (l : Locked) {r' : Receipt}
    → Fits r
    → Fits r'
    → apply_replace r l ≡ ok r'
    → (committed r < committed r') × (owed r' ≡ owed r)
unfolding apply_replace
apply_replace-amounts r l {r'} fits fits' h =
    let (cs, e, f) = >>=-eq-ok (replace_in l r.cheques) (λ cs. ok (record r { cheques = cs })) h in
    let (more, kept) = replace_in_amounts l r.cheques cs e in
    let after : Receipt = record r { cheques = cs } in
    let same : r' ≡ after = cc in
    rw same (replaced_amounts r after fits (rw same at fits') (omega arith) (omega arith))
