-- ===== src/Receipt/Prep.antt =====
-- packages/konduit/tmp/src/receipt.rs, `prep_sub`, `prep_respond` and `secrets`: what a receipt brings to a
-- transaction, next to the functions of packages/konduit/tx2/src/channel.rs that do the same.
use konduit.Base.{
  ℕ, ◌+◌, ◌%◌, subst, ◌<◌, ◌≡◌, refl, ap, List, [], ◌∷◌, ◌++◌, map, filter, filter_map,
  if◌then◌else◌, arith, u64_mod, Bool-cases, inl, inr, ◌∙◌,
}
use konduit.Base.Words.{add64, sum64, sum64_from}
use konduit.Data.Cheque
use konduit.Data.Cheque.{Cheque, Secret, Unlocked, locked, unlocked, as_locked, as_unlocked}
use konduit.Data.Duration.{Duration}
use konduit.Data.Stage.{Used, used_of, Pending, pending_of}
use konduit.Receipt.{Receipt, unlockeds, unlocked_amount}
use konduit.Tx2.Channel
use konduit.Tx2.Channel.{is_active, owed_useds, sort_useds, used_amount}

unfoldable pub prep_sub : Receipt → List Used → Duration → List Unlocked × List Used
prep_sub r useds upper =
    let us = filter (λ u. is_active useds upper u.body.index u.body.timeout) (unlockeds r) in
    (us, sort_useds (owed_useds useds r.squash ++ map used_of us))

-- One round of the loop of `prep_respond` on a cheque that is active.
abbrev gather : Cheque → List Cheque × List Pending × ℕ → List Cheque × List Pending × ℕ
gather (locked l) (cs, ps, n) = (locked l ∷ cs, pending_of l ∷ ps, n)
gather (unlocked u) (cs, ps, n) = (unlocked u ∷ cs, ps, n)

-- What the loop adds to the total amount.
abbrev count : ℕ → Cheque → ℕ
count n (locked l) = n
count n (unlocked u) = add64 n u.body.amount

-- The loop, from the total before it. What it pushes is put in front of what the rest pushes.
unfoldable pub respond_loop :
    List Used → Duration → ℕ → List Cheque → List Cheque × List Pending × ℕ
respond_loop useds upper n [] = ([], [], n)
respond_loop useds upper n (c ∷ cs) =
    let taken = respond_loop useds upper (count n c) cs in
    let passed = respond_loop useds upper n cs in
    if is_active useds upper (Cheque.index c) (Cheque.timeout c) then gather c taken else passed

unfoldable pub prep_respond : Receipt → List Used → Duration → List Cheque × List Pending × ℕ
prep_respond r useds upper =
    respond_loop useds upper (sum64 used_amount (owed_useds useds r.squash)) r.cheques

unfoldable pub secrets : Receipt → List Secret
secrets r = map (λ (u : Unlocked). u.body.latch) (unlockeds r)

-- The loop gathers the active cheques, the pendings of the locked ones among them, and a sum over the others.
respond_loop_lem :
    (useds : List Used) (upper : Duration) (n : ℕ) (cs : List Cheque)
    → let active = filter (λ c. is_active useds upper (Cheque.index c) (Cheque.timeout c)) cs in
      respond_loop useds upper n cs ≡ (
        active,
        map pending_of (filter_map as_locked active),
        sum64_from unlocked_amount n (filter_map as_unlocked active),
      )
unfolding respond_loop sum64_from
respond_loop_lem useds upper n [] = refl
respond_loop_lem useds upper n (locked l ∷ cs) =
    elim (Bool-cases (is_active useds upper l.body.index l.body.timeout)) [
      | inl e ↦ rw e (ap (gather (locked l)) (respond_loop_lem useds upper n cs))
      | inr e ↦ rw e (respond_loop_lem useds upper n cs)
    ]
respond_loop_lem useds upper n (unlocked u ∷ cs) =
    elim (Bool-cases (is_active useds upper u.body.index u.body.timeout)) [
      | inl e ↦
          rw e (ap (gather (unlocked u)) (respond_loop_lem useds upper (add64 n u.body.amount) cs))
      | inr e ↦ rw e (respond_loop_lem useds upper n cs)
    ]

add64_assoc : (a b c : ℕ) → add64 (add64 a b) c ≡ add64 a (add64 b c)
unfolding add64
add64_assoc a b c = omega arith

add64-sum64_from :
    (a b : ℕ) (us : List Unlocked)
    → sum64_from unlocked_amount (add64 a b) us ≡ add64 a (sum64_from unlocked_amount b us)
unfolding sum64_from
add64-sum64_from a b [] = refl
add64-sum64_from a b (u ∷ us) =
    rw (add64_assoc a b u.body.amount) (add64-sum64_from a (add64 b u.body.amount) us)

sum64_from-lt : (n : ℕ) (us : List Used) → n < u64_mod → sum64_from used_amount n us < u64_mod
unfolding sum64_from add64
sum64_from-lt n [] h = h
sum64_from-lt n (u ∷ us) h = sum64_from-lt ((n + u.amount) % u64_mod) us (omega arith)

add64-zero : (n : ℕ) → n < u64_mod → add64 n 0 ≡ n
unfolding add64
add64-zero n h = omega arith

-- A sum that goes on from another is the two sums added.
sum64_from-add64 :
    (useds : List Used) (us : List Unlocked)
    → sum64_from unlocked_amount (sum64 used_amount useds) us
      ≡ add64 (sum64 used_amount useds) (sum64 unlocked_amount us)
unfolding sum64
sum64_from-add64 useds us =
    let n = sum64_from used_amount 0 useds in
    let whole : add64 n 0 ≡ n = add64-zero n (sum64_from-lt 0 useds (omega arith)) in
    subst (λ x. sum64_from unlocked_amount x us ≡ add64 n (sum64_from unlocked_amount 0 us)) whole
      (add64-sum64_from n 0 us)

-- What a receipt prepares for a respond, in one loop, is what packages/konduit/tx2 prepares from the
-- squash and the cheques of the receipt, in several passes.
pub prep_respond-agrees :
    (r : Receipt) (useds : List Used) (upper : Duration)
    → prep_respond r useds upper ≡ Channel.prep_respond r.squash r.cheques useds upper
unfolding prep_respond Channel.prep_respond Channel.active_cheques
prep_respond-agrees r useds upper =
    let active =
      filter (λ c. is_active useds upper (Cheque.index c) (Cheque.timeout c)) r.cheques in
    respond_loop_lem useds upper (sum64 used_amount (owed_useds useds r.squash)) r.cheques
    ∙ ap (λ n. (active, map pending_of (filter_map as_locked active), n))
        (sum64_from-add64 (owed_useds useds r.squash) (filter_map as_unlocked active))
