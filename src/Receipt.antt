-- ===== src/Receipt.antt =====
-- packages/konduit/tmp/src/receipt.rs: the adaptor's record of a channel off chain, which is the last
-- squash and the cheques that it does not settle. `&mut self` becomes a new receipt; each error is
-- returned before any write.
pub mod Secrets
pub mod Order
pub mod Amounts
pub mod Replace
pub mod Proposal
pub mod Prep
pub mod Tests
use konduit.Base.{
  ℕ, suc, ◌-◌, max, ◌≡◌, Bool, true, false, not, ◌&&◌, ◌||◌, Option, none, some, List, [], ◌∷◌,
  ◌++◌, map, Result, ok, err, panic, ◌>>=◌, map_err, ok_or, ltb, leb, ◌==◌, if◌then◌else◌, last,
  filter, filter_map, any, length, add64, sum64, total,
}
use konduit.Base.Ascending.{IsAscending}
use konduit.Base.Lists.{All}
use konduit.Data.Duration.{Duration}
use konduit.Data.Primitives.{Primitives}
use konduit.Data.SquashBody
use konduit.Data.SquashBody.{SquashBody}
use konduit.Data.Cheque
use konduit.Data.Cheque.{
  Lock, Secret, Locked, Unlocked, Cheque, unlocked, locked, as_unlocked, as_locked, lock_eq,
  lock_of, try_from_locked,
}
use konduit.Data.Signed.{Squash, is_index_squashed}
use konduit.Data.Stage.{Used, used_of, Pending, pending_of}

pub data Error : Type 0 where
  includes_cheque : ℕ → Error
  not_reproduced squash_amount_less input unchanged other : Error

pub record Receipt : Type 0 where
  pub squash : Squash
  pub cheques : List Cheque

abbrev pub new : Squash → Receipt
new squash = record { squash = squash; cheques = [] }

abbrev pub unlockeds : Receipt → List Unlocked
unlockeds r = filter_map as_unlocked r.cheques

abbrev pub lockeds : Receipt → List Locked
lockeds r = filter_map as_locked r.cheques

abbrev pub unlocked_amount : Unlocked → ℕ
unlocked_amount u = u.body.amount

unfoldable pub max_index : Receipt → ℕ
max_index r = max r.squash.body.index (elim (last r.cheques) [ none ↦ 0 | some c ↦ Cheque.index c ])

unfoldable pub owed : Receipt → ℕ
owed r = add64 r.squash.body.amount (sum64 unlocked_amount (unlockeds r))

unfoldable pub committed : Receipt → ℕ
committed r = add64 r.squash.body.amount (sum64 Cheque.amount r.cheques)

abbrev pub max_unsquashed : ℕ
max_unsquashed = 10

unfoldable pub capacity : Receipt → ℕ
capacity r = max_unsquashed - length r.cheques

unfoldable pub apply_locked : Receipt → Locked → Result Error Receipt
apply_locked r l =
    if l.body.index == add64 (max_index r) 1
    then ok (record r { cheques = r.cheques ++ locked l ∷ [] })
    else err input

-- The test of the `if let` in the loop of `apply_secret`.
abbrev pub opens : Lock → Cheque → Bool
opens lock (unlocked u) = false
opens lock (locked l) = lock_eq l.body.latch lock

module _ (p : Primitives) where
  -- The body of the loop: the cheque, and whether it changed. `expect` panics on a failure.
  unfoldable pub open_cheque : Secret → Cheque → Result Error (Cheque × Bool)
  open_cheque s (unlocked u) = ok (unlocked u, false)
  open_cheque s (locked l) =
      if lock_eq l.body.latch (lock_of p s)
      then (elim (try_from_locked p l s) [ none ↦ panic | some u ↦ ok (unlocked u, true) ])
      else ok (locked l, false)

  unfoldable pub open_cheques : Secret → List Cheque → Result Error (List Cheque × Bool)
  open_cheques s [] = ok ([], false)
  open_cheques s (c ∷ cs) = do
    (c', changed) ← open_cheque s c
    (cs', rest_changed) ← open_cheques s cs
    ok (c' ∷ cs', changed || rest_changed)

  unfoldable pub apply_secret : Receipt → Secret → Result Error Receipt
  apply_secret r s = do
    (cheques, changed) ← open_cheques s r.cheques
    if changed then ok (record r { cheques = cheques }) else err unchanged

abbrev pub is_live : Duration → Cheque → Bool
is_live now (unlocked u) = true
is_live now (locked l) = ltb now l.body.timeout

unfoldable pub apply_timeout : Receipt → Duration → Receipt
apply_timeout r now = record r { cheques = filter (is_live now) r.cheques }

replace_found : Locked → Cheque → Result Error Cheque
replace_found new_locked (unlocked u) = err other
replace_found new_locked (locked old) =
    if not (lock_eq new_locked.body.latch old.body.latch)
      || leb new_locked.body.amount old.body.amount
      || leb new_locked.body.timeout old.body.timeout
    then err input
    else ok (locked new_locked)

-- The first cheque of the index is the one that `find` gives.
replace_in : Locked → List Cheque → Result Error (List Cheque)
replace_in new_locked [] = err input
replace_in new_locked (c ∷ cs) =
    let rest = replace_in new_locked cs in
    if Cheque.index c == new_locked.body.index
    then (replace_found new_locked c >>= λ c'. ok (c' ∷ cs))
    else (rest >>= λ cs'. ok (c ∷ cs'))

pub apply_replace : Receipt → Locked → Result Error Receipt
unfolding replace_found replace_in
apply_replace r new_locked = do
  cheques ← replace_in new_locked r.cheques
  ok (record r { cheques = cheques })

-- Whether a squash settles a cheque.
abbrev pub settles : Squash → Cheque → Bool
settles s c = is_index_squashed s (Cheque.index c)

unfoldable pub apply_squash : Receipt → Squash → Result Error Receipt
apply_squash r s =
    let squashed = sum64 Cheque.amount (filter (settles s) r.cheques) in
    if ltb s.body.amount (add64 r.squash.body.amount squashed)
    then err squash_amount_less
    else ok (record { squash = s; cheques = filter (λ c. not (settles s c)) r.cheques })

unfoldable pub propose_index : Receipt → ℕ
propose_index r = add64 (max_index r) 1

-- The loop of `propose_squash_body`.
pub squash_all : SquashBody → List Unlocked → Result Error SquashBody
squash_all b [] = ok b
squash_all b (u ∷ us) = do
  b' ← map_err (λ _. includes_cheque u.body.index) (SquashBody.squash b u.body.index u.body.amount)
  squash_all b' us

pub propose_squash_body : Receipt → Result Error SquashBody
propose_squash_body r = squash_all r.squash.body (unlockeds r)

pub record SquashProposal : Type 0 where
  pub proposal : SquashBody
  pub current : Squash
  pub unlocked_cheques : List Unlocked
  pub locked_cheques : List Locked

pub propose_squash : Receipt → Result Error SquashProposal
propose_squash r = do
  proposal ← propose_squash_body r
  ok (record {
    proposal = proposal;
    current = r.squash;
    unlocked_cheques = unlockeds r;
    locked_cheques = lockeds r;
  })

-- What the operations keep up: the squash is valid, the cheques stand in the order of their indexes,
-- and none of them is settled by the squash.
pub record IsValid (r : Receipt) : Type 0 where
  pub body_valid : SquashBody.IsValid r.squash.body
  pub ascending : IsAscending (map Cheque.index r.cheques)
  pub unsettled : All (λ c. settles r.squash c ≡ false) r.cheques
