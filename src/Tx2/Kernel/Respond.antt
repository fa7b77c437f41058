-- ===== src/Tx2/Kernel/Respond.antt =====
-- packages/kernel/lib/konduit/steps/respond.ak: the fold over the cheques of a respond, and what the script
-- demands of a respond. The script takes the amounts of the locked cheques off the total in the datum and
-- expects nothing to be left: they are added up here, and the two totals compared.
pub mod Thread
pub mod Fold
pub mod Prepared
pub mod Accepted
pub mod Refused
use konduit.Base.{
  ℕ, ◌+◌, ◌≤◌, ◌≡◌, Bool, true, false, ◌&&◌, Option, none, some, List, [], ◌∷◌, Bytes, bytes_eq,
  ltb, ◌==◌, if◌then◌else◌,
}
use konduit.Data.Duration.{as_millis}
use konduit.Data.Primitives.{Primitives}
use konduit.Data.Cheque.{Cheque, Locked, Unlocked, locked, unlocked}
use konduit.Data.Signed.{Squash, squash_verifies, cheque_verifies}
use konduit.Data.Stage.{Constants, Used}
use konduit.Tx2.Kernel.{Datum, Pend}
use konduit.Tx2.Kernel.Evidence.{next_index, is_before, is_unlocked}

pub record State : Type 0 where
  pub owed : ℕ
  pub useds : List Used
  pub index : ℕ
  pub exclude : List ℕ
  pub pending : ℕ
  pub pends : List Pend

abbrev pub state : ℕ → List Used → ℕ → List ℕ → ℕ → List Pend → State
state owed useds index exclude pending pends = record {
  owed = owed;
  useds = useds;
  index = index;
  exclude = exclude;
  pending = pending;
  pends = pends;
}

abbrev Reduced : Type 0
Reduced = ℕ × List Used × ℕ × List ℕ

-- `reduce_useds`: the used items up to an index are owed.
unfoldable pub reduce_useds : List Used → ℕ → ℕ → ℕ → List ℕ → Option Reduced
reduce_useds [] ub total lb exclude = some (total, [], lb, exclude)
reduce_useds (u ∷ useds) ub total lb exclude =
    if ltb ub u.index
    then some (total, u ∷ useds, lb, exclude)
    else (elim (next_index lb exclude u.index) [
      | none ↦ none
      | some (lb', exclude') ↦ reduce_useds useds ub (total + u.amount) lb' exclude'
    ])

-- `fst == (amount, timeout, lock)`
abbrev pub is_pend_of : Locked → Pend → Bool
is_pend_of l p =
    p.amount == l.body.amount
    && p.timeout == as_millis l.body.timeout
    && bytes_eq p.lock l.body.latch.bytes

abbrev with_index : Option (ℕ × List ℕ) → ℕ → List Used → ℕ → List Pend → Option State
with_index none owed useds pending pends = none
with_index (some (index, exclude)) owed useds pending pends =
    some (state owed useds index exclude pending pends)

abbrev with_pends : Locked → Reduced → ℕ → List Pend → Option State
with_pends l (owed, useds, index, exclude) pending [] = none
with_pends l (owed, useds, index, exclude) pending (p ∷ pends) =
    if is_pend_of l p
    then with_index (next_index index exclude l.body.index) owed useds (pending + l.body.amount)
        pends
    else none

module _ (P : Primitives) (upper : Option ℕ) (key tag : Bytes) where
  abbrev with_unlocked : Unlocked → Option Reduced → ℕ → List Pend → Option State
  with_unlocked w none pending pends = none
  with_unlocked w (some (owed, useds, index, exclude)) pending pends =
      if is_before upper (as_millis w.body.timeout)
      then with_index (next_index index exclude w.body.index) (owed + w.body.amount) useds pending
          pends
      else none

  abbrev with_locked : Locked → Option Reduced → ℕ → List Pend → Option State
  with_locked l none pending pends = none
  with_locked l (some reduced) pending pends = with_pends l reduced pending pends

  -- `with_`
  abbrev pub with_cheque : Cheque → State → Option State
  with_cheque (unlocked w) s =
      if is_unlocked P key tag w
      then with_unlocked w (reduce_useds s.useds w.body.index s.owed s.index s.exclude) s.pending
          s.pends
      else none
  with_cheque (locked l) s =
      if cheque_verifies P key tag l.body l.signature
      then with_locked l (reduce_useds s.useds l.body.index s.owed s.index s.exclude) s.pending
          s.pends
      else none

  -- `foldl6`
  unfoldable pub fold : List Cheque → State → Option State
  fold [] s = some s
  fold (c ∷ cs) s = elim (with_cheque c s) [ none ↦ none | some t ↦ fold cs t ]

  abbrev settled : ℕ → ℕ → ℕ → List Pend → Option ℕ
  settled pends_amount owed pending [] = if pending == pends_amount then some owed else none
  settled pends_amount owed pending (p ∷ pends) = none

  abbrev pub closing : ℕ → Option State → Option ℕ
  closing pends_amount none = none
  closing pends_amount (some s) = settled pends_amount s.owed s.pending s.pends

  unfoldable pub account : List Used → Squash → List Cheque → ℕ → List Pend → Option ℕ
  account useds squash cheques pends_amount pends =
      if squash_verifies P key tag squash
      then closing pends_amount (
          fold cheques
            (state squash.body.amount useds squash.body.index squash.body.excludes 0 pends))
      else none

-- What the script demands of a respond, where a difference stands on the other side of its equation.
-- What counts as subbed is `subbed - value_in + value_out`.
abbrev pub Respond :
    Primitives
    → Option ℕ
    → Constants
    → ℕ
    → Datum
    → ℕ
    → Datum
    → Squash
    → List Cheque
    → Bytes
    → Type 0
Respond P upper constants value_in (Datum.closed subbed useds _) value_out
      (Datum.responded pends_amount pends) squash cheques key =
    (owed : ℕ) × (account P upper constants.add_vkey constants.tag useds squash cheques pends_amount
        pends
      ≡ some owed)
    × (subbed + value_out ≤ owed + value_in)
    × (key ≡ constants.sub_vkey)
Respond _ _ _ _ _ _ _ _ _ _ = ⊥
