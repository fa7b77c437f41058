-- ===== src/Tx2/Kernel/Sub.antt =====
-- packages/kernel/lib/konduit/steps/sub.ak: the fold over the history of used items that a sub leaves, and
-- what the script demands of a sub.
pub mod Weave
pub mod Fold
pub mod Prepared
pub mod Accepted
use konduit.Base.{
  ℕ, ◌+◌, ◌≤◌, ◌≡◌, Bool, true, false, ◌&&◌, Option, none, some, List, [], ◌∷◌, Bytes, ltb, ◌==◌,
  if◌then◌else◌,
}
use konduit.Data.Duration.{as_millis}
use konduit.Data.Primitives.{Primitives}
use konduit.Data.Cheque.{Unlocked}
use konduit.Data.Signed.{Squash, squash_verifies}
use konduit.Data.Stage.{Constants, Used}
use konduit.Tx2.Kernel.{Datum}
use konduit.Tx2.Kernel.Evidence.{next_index, is_before, is_unlocked}

pub record State : Type 0 where
  pub owed : ℕ
  pub useds : List Used
  pub unlockeds : List Unlocked
  pub index : ℕ
  pub exclude : List ℕ

abbrev pub state : ℕ → List Used → List Unlocked → ℕ → List ℕ → State
state owed useds unlockeds index exclude = record {
  owed = owed;
  useds = useds;
  unlockeds = unlockeds;
  index = index;
  exclude = exclude;
}

-- `xlist.drop_until`, by the index
unfoldable pub drop_until : ℕ → List Used → List Used
drop_until idx [] = []
drop_until idx (u ∷ us) = let rest = drop_until idx us in if ltb u.index idx then rest else u ∷ us

abbrev pub taken : ℕ → List Used → List Unlocked → Option (ℕ × List ℕ) → Option State
taken owed useds unlockeds none = none
taken owed useds unlockeds (some (index, exclude)) = some (state owed useds unlockeds index exclude)

module _ (P : Primitives) (upper : Option ℕ) (key tag : Bytes) where
  abbrev handle_unlocked : Used → ℕ → List Used → List Unlocked → ℕ → List ℕ → Option State
  handle_unlocked used owed useds [] index exclude = none
  handle_unlocked used owed useds (w ∷ ws) index exclude =
      if is_unlocked P key tag w
        && is_before upper (as_millis w.body.timeout)
        && (w.body.index == used.index && w.body.amount == used.amount)
      then taken (w.body.amount + owed) useds ws (next_index index exclude w.body.index)
      else none

  -- `with_`, on the useds that are left from the index on
  abbrev pub with_used : Used → ℕ → List Used → List Unlocked → ℕ → List ℕ → Option State
  with_used used owed [] unlockeds index exclude =
      handle_unlocked used owed [] unlockeds index exclude
  with_used used owed (u ∷ rest) unlockeds index exclude =
      if ltb u.index used.index
      then some (state owed rest unlockeds index exclude)
      else if u.index == used.index
      then if u.amount == used.amount
        then taken (owed + u.amount) rest unlockeds (next_index index exclude u.index)
        else none
      else handle_unlocked used owed (u ∷ rest) unlockeds index exclude

  abbrev pub with_state : Used → State → Option State
  with_state used s =
      with_used used s.owed (drop_until used.index s.useds) s.unlockeds s.index s.exclude

  -- `foldl5`
  unfoldable pub fold : List Used → State → Option State
  fold [] s = some s
  fold (used ∷ useds) s = elim (with_state used s) [ none ↦ none | some t ↦ fold useds t ]

  abbrev owed_of : Option State → Option ℕ
  owed_of none = none
  owed_of (some s) = some s.owed

  unfoldable pub account : List Used → List Used → Squash → List Unlocked → Option ℕ
  account useds_in useds_out squash unlockeds =
      if squash_verifies P key tag squash
      then owed_of (
          fold useds_out
            (state squash.body.amount useds_in unlockeds squash.body.index squash.body.excludes))
      else none

-- What the script demands of a sub. A difference stands on the other side of its equation.
abbrev pub Sub :
    Primitives
    → Option ℕ
    → Constants
    → ℕ
    → Datum
    → ℕ
    → Datum
    → Squash
    → List Unlocked
    → Bytes
    → Type 0
Sub P upper constants value_in (Datum.opened subbed_in useds_in) value_out
      (Datum.opened subbed_out useds_out) squash unlockeds key =
    (subbed_out + value_out ≡ subbed_in + value_in)
    × (owed : ℕ) × (account P upper constants.add_vkey constants.tag useds_in useds_out squash
          unlockeds
        ≡ some owed)
    × (subbed_out ≤ owed)
    × (key ≡ constants.sub_vkey)
Sub _ _ _ _ _ _ _ _ _ _ = ⊥
