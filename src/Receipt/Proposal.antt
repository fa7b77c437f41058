-- ===== src/Receipt/Proposal.antt =====
-- The squash that the adaptor proposes, and what becomes of it once it is signed.
use konduit.Base.{
  ℕ, ◌+◌, ◌≤◌, ◌<◌, ◌≡◌, refl, ap, ◌∙◌, Bool, true, false, not, ◌||◌, List, [], ◌∷◌, map, ok,
  >>=-eq-ok, map_err, map_err-eq-ok, arith, ◌==◌, ==-self, filter, filter_map, total, add64-eq,
  u64_mod, any, All,
}
use konduit.Base.Ascending.{Above, IsAscending}
use konduit.Data.SquashBody
use konduit.Data.SquashBody.{SquashBody}
use konduit.Data.SquashBody.Squashing.{squash-IsValid, squash-adds-index}
use konduit.Data.Cheque
use konduit.Data.Cheque.{Locked, Unlocked, Cheque, unlocked, locked, as_unlocked, as_locked}
use konduit.Data.Signed.{Squash}
use konduit.Receipt.{
  Receipt, IsValid, includes_cheque, settles, unlockeds, unlocked_amount, owed, committed,
  apply_squash, squash_all, propose_squash_body,
}
use konduit.Receipt.Order.{indexes}
use konduit.Receipt.Amounts.{
  Fits, unlocked_total, committed_lem, owed_lem, apply_squash_lem, settled,
}

-- Whether one of the unlocked cheques has an index.
abbrev has_index : List Unlocked → ℕ → Bool
has_index us j = any (λ u. u.body.index == j) us

-- What folding `squash` over cheques gives: they are all squashed, nothing else is, and their amounts are
-- added.
squash_all_lem :
    (b : SquashBody) (us : List Unlocked) {b' : SquashBody}
    → SquashBody.IsValid b
    → All (λ u. u.body.index < u64_mod) us
    → b.amount + total unlocked_amount us < u64_mod
    → squash_all b us ≡ ok b'
    → SquashBody.IsValid b'
      × ((j : ℕ)
          → SquashBody.is_index_squashed b' j ≡ has_index us j || SquashBody.is_index_squashed b j)
      × (b'.amount ≡ b.amount + total unlocked_amount us)
unfolding squash_all
squash_all_lem b [] {b'} v words fits h =
    let same : b' ≡ b = cc in rw same (v, (λ j. refl), omega arith)
squash_all_lem b (u ∷ us) {b'} v words fits h =
    let (b₁, e, f) =
      >>=-eq-ok
        (map_err (λ _. includes_cheque u.body.index)
          (SquashBody.squash b u.body.index u.body.amount))
        (λ b₁. squash_all b₁ us) h in
    let e₁ =
      map_err-eq-ok (λ _. includes_cheque u.body.index)
        (SquashBody.squash b u.body.index u.body.amount) e in
    let v₁ = squash-IsValid b u.body.index u.body.amount v words.0 e₁ in
    let (seen, amount) = squash-adds-index b u.body.index u.body.amount v words.0 e₁ in
    let exact : b₁.amount ≡ b.amount + u.body.amount =
      amount ∙ add64-eq b.amount u.body.amount (omega arith) in
    let (v', seen', amount') = squash_all_lem b₁ us v₁ words.1 (omega arith) f in
    (v', (λ j. ground (arith, seen j, seen' j)), omega arith)

has_index-Above :
    (n j : ℕ) (cs : List Cheque)
    → Above n (indexes cs)
    → j ≤ n
    → has_index (filter_map as_unlocked cs) j ≡ false
has_index-Above n j [] a h = refl
has_index-Above n j (unlocked u ∷ cs) a h = ground (arith, has_index-Above u.body.index j cs a.1)
has_index-Above n j (locked l ∷ cs) a h = ground (arith, has_index-Above l.body.index j cs a.1)

abbrev is_unlocked : Cheque → Bool
is_unlocked (unlocked u) = true
is_unlocked (locked l) = false

-- An unlocked cheque of a lower index changes no answer further up.
has_index-All_cons :
    (u : Unlocked) (us : List Unlocked) (n : ℕ) (cs : List Cheque)
    → Above n (indexes cs)
    → u.body.index ≤ n
    → All (λ c. has_index us (Cheque.index c) ≡ is_unlocked c) cs
    → All (λ c. has_index (u ∷ us) (Cheque.index c) ≡ is_unlocked c) cs
has_index-All_cons u us n [] a le h = tt
has_index-All_cons u us n (c ∷ cs) a le h =
    (ground (arith, a.0, h.0), has_index-All_cons u us (Cheque.index c) cs a.1 (omega arith) h.1)

-- Among cheques in order, those with an index of an unlocked cheque are the unlocked ones.
has_index-All :
    (n : ℕ) (cs : List Cheque)
    → Above n (indexes cs)
    → All (λ c. has_index (filter_map as_unlocked cs) (Cheque.index c) ≡ is_unlocked c) cs
has_index-All n [] a = tt
has_index-All n (unlocked u ∷ cs) a = (
  ground (arith, ==-self u.body.index),
  has_index-All_cons u (filter_map as_unlocked cs) u.body.index cs a.1 (omega arith)
      (has_index-All u.body.index cs a.1),
)
has_index-All n (locked l ∷ cs) a = (
  has_index-Above l.body.index l.body.index cs a.1 (omega arith),
  has_index-All l.body.index cs a.1,
)

has_index-lem :
    (cs : List Cheque)
    → IsAscending (indexes cs)
    → All (λ c. has_index (filter_map as_unlocked cs) (Cheque.index c) ≡ is_unlocked c) cs
has_index-lem [] a = tt
has_index-lem (unlocked u ∷ cs) a = (
  ground (arith, ==-self u.body.index),
  has_index-All_cons u (filter_map as_unlocked cs) u.body.index cs a (omega arith)
      (has_index-All u.body.index cs a),
)
has_index-lem (locked l ∷ cs) a =
    (has_index-Above l.body.index l.body.index cs a (omega arith), has_index-All l.body.index cs a)

filter-congr :
    (f g : Cheque → Bool) (cs : List Cheque)
    → All (λ c. f c ≡ g c) cs
    → (filter f cs ≡ filter g cs) × (filter (λ c. not (f c)) cs ≡ filter (λ c. not (g c)) cs)
filter-congr f g [] h = (refl, refl)
filter-congr f g (c ∷ cs) h =
    let (kept, dropped) = filter-congr f g cs h.1 in rw h.0 (ground arith, ground arith)

-- The locked cheques of a receipt, as cheques.
abbrev pub locked_cheques : List Cheque → List Cheque
locked_cheques cs = map locked (filter_map as_locked cs)

filter-is_unlocked :
    (cs : List Cheque)
    → (total Cheque.amount (filter is_unlocked cs) ≡ unlocked_total cs)
      × (filter (λ c. not (is_unlocked c)) cs ≡ locked_cheques cs)
filter-is_unlocked [] = (refl, refl)
filter-is_unlocked (unlocked u ∷ cs) = ground (arith, filter-is_unlocked cs)
filter-is_unlocked (locked l ∷ cs) = ground (arith, filter-is_unlocked cs)

All-zip :
    (f g h : Cheque → Bool) (cs : List Cheque)
    → ((c : Cheque) → f c ≡ g c || h c)
    → All (λ c. g c ≡ is_unlocked c) cs
    → All (λ c. h c ≡ false) cs
    → All (λ c. f c ≡ is_unlocked c) cs
All-zip f g h [] e p q = tt
All-zip f g h (c ∷ cs) e p q = (ground (arith, e c, p.0, q.0), All-zip f g h cs e p.1 q.1)

-- The totals of a list whose cheques are all locked.
locked_cheques-totals :
    (cs : List Cheque)
    → (filter_map as_unlocked (locked_cheques cs) ≡ [])
      × (unlocked_total cs + total Cheque.amount (locked_cheques cs) ≡ total Cheque.amount cs)
locked_cheques-totals [] = (refl, refl)
locked_cheques-totals (unlocked u ∷ cs) = ground (arith, locked_cheques-totals cs)
locked_cheques-totals (locked l ∷ cs) = ground (arith, locked_cheques-totals cs)

-- A squash that settles the unlocked cheques alone, for their amounts.
proposal_accepted :
    (r : Receipt) (q : Squash)
    → Fits r
    → q.body.amount ≡ r.squash.body.amount + unlocked_total r.cheques
    → All (λ c. settles q c ≡ is_unlocked c) r.cheques
    → let r' : Receipt = record { squash = q; cheques = locked_cheques r.cheques } in
      (apply_squash r q ≡ ok r')
      × (unlockeds r' ≡ [])
      × (owed r' ≡ owed r)
      × (committed r' ≡ committed r)
proposal_accepted r q fits amount aligned =
    let r' : Receipt = record { squash = q; cheques = locked_cheques r.cheques } in
    let (kept, dropped) = filter-congr (settles q) is_unlocked r.cheques aligned in
    let (sums, locks) = filter-is_unlocked r.cheques in
    let (none_left, split) = locked_cheques-totals r.cheques in
    let sum : total Cheque.amount (filter (settles q) r.cheques) ≡ unlocked_total r.cheques =
      rw kept sums in
    let same : settled r q ≡ r' =
      ap (λ cs. record { squash = q; cheques = cs }) (dropped ∙ locks) in
    let fits' : Fits r' = omega arith in
    let nothing : unlocked_total r'.cheques ≡ 0 = rw none_left refl in
    (
      ground (arith, apply_squash_lem r q fits, same, sum),
      none_left,
      omega (arith, owed_lem r fits, owed_lem r' fits'),
      omega (arith, committed_lem r fits, committed_lem r' fits'),
    )

-- A receipt accepts the squash that it proposes, once it is signed: every unlocked cheque is
-- settled, every locked one stays, and what is owed and what is committed are as they were. For a
-- valid receipt whose indexes and whose sum of amounts fit in 64 bits.
pub apply_squash-proposal :
    (r : Receipt) (q : Squash)
    → IsValid r
    → Fits r
    → All (λ u. u.body.index < u64_mod) (unlockeds r)
    → propose_squash_body r ≡ ok q.body
    → let r' : Receipt = record { squash = q; cheques = locked_cheques r.cheques } in
      (apply_squash r q ≡ ok r')
      × (unlockeds r' ≡ [])
      × (owed r' ≡ owed r)
      × (committed r' ≡ committed r)
unfolding propose_squash_body
apply_squash-proposal r q v fits words h =
    let (none_left, split) = locked_cheques-totals r.cheques in
    let (v', seen, amount) =
      squash_all_lem r.squash.body (unlockeds r) v.body_valid words (omega arith) h in
    let aligned =
      All-zip (settles q) (λ c. has_index (unlockeds r) (Cheque.index c)) (settles r.squash)
        r.cheques (λ c. seen (Cheque.index c)) (has_index-lem r.cheques v.ascending) v.unsettled in
    proposal_accepted r q fits amount aligned
