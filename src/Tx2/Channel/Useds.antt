-- ===== src/Tx2/Channel/Useds.antt =====
-- packages/konduit/tx2/src/channel.rs, `prep_sub`: the history of used items that a sub leaves.
use konduit.Base.{
  ℕ, ◌+◌, ◌≤◌, ◌≡◌, refl, List, [], ◌∷◌, ◌++◌, map, All, total, total-append, arith, leb,
  Bool-cases, inl, inr,
}
use konduit.Data.Cheque.{Unlocked}
use konduit.Data.Duration.{Duration}
use konduit.Data.Signed.{Squash}
use konduit.Data.Stage.{Used, used_of}
use konduit.Tx2.Channel.{insert_used, sort_useds, owed_useds, active_unlockeds, prep_sub}

-- No index is above the index of an item that comes after it.
abbrev pub IsSorted : List Used → Type 0
IsSorted [] = Unit
IsSorted (u ∷ us) = All (λ (v : Used). u.index ≤ v.index) us × IsSorted us

pub All-insert_used :
    (P : Used → Type 0) (u : Used) (us : List Used) → P u → All P us → All P (insert_used u us)
unfolding insert_used
All-insert_used P u [] p h = (p, tt)
All-insert_used P u (v ∷ vs) p h = elim (Bool-cases (leb u.index v.index)) [
  | inl e ↦ rw e (p, h)
  | inr e ↦ rw e (h.0, All-insert_used P u vs p h.1)
]

All-≤ :
    (a b : ℕ) (us : List Used)
    → a ≤ b
    → All (λ (v : Used). b ≤ v.index) us
    → All (λ (v : Used). a ≤ v.index) us
All-≤ a b [] le h = tt
All-≤ a b (v ∷ vs) le h = (omega (arith, h.0), All-≤ a b vs le h.1)

insert_used-IsSorted : (u : Used) (us : List Used) → IsSorted us → IsSorted (insert_used u us)
unfolding insert_used
insert_used-IsSorted u [] h = (tt, tt)
insert_used-IsSorted u (v ∷ vs) h = elim (Bool-cases (leb u.index v.index)) [
  | inl e ↦ rw e ((ground arith, All-≤ u.index v.index vs (ground arith) h.0), h)
  | inr e ↦ rw e (
    All-insert_used (λ w. v.index ≤ w.index) u vs (ground arith) h.0,
    insert_used-IsSorted u vs h.1,
  )
]

sort_useds-IsSorted : (us : List Used) → IsSorted (sort_useds us)
unfolding sort_useds
sort_useds-IsSorted [] = tt
sort_useds-IsSorted (u ∷ us) = insert_used-IsSorted u (sort_useds us) (sort_useds-IsSorted us)

total-insert_used :
    (f : Used → ℕ) (u : Used) (us : List Used) → total f (insert_used u us) ≡ f u + total f us
unfolding insert_used
total-insert_used f u [] = refl
total-insert_used f u (v ∷ vs) = ground (arith, total-insert_used f u vs)

-- Sorting loses and adds no item, by any measure.
total-sort_useds : (f : Used → ℕ) (us : List Used) → total f (sort_useds us) ≡ total f us
unfolding sort_useds
total-sort_useds f [] = refl
total-sort_useds f (u ∷ us) =
    omega (arith, total-insert_used f u (sort_useds us), total-sort_useds f us)

-- The history of used items after a sub is in the order of the indexes, and by any measure it holds
-- what is still owed of the history before, with one item for each cheque that the step spends.
pub prep_sub-useds :
    (squash : Squash) (cheques : List Unlocked) (useds : List Used) (upper : Duration)
    (f : Used → ℕ)
    → IsSorted (prep_sub squash cheques useds upper).1
      × (total f (prep_sub squash cheques useds upper).1
          ≡ total f (owed_useds useds squash)
            + total f (map used_of (active_unlockeds cheques useds upper)))
unfolding prep_sub
prep_sub-useds squash cheques useds upper f =
    let owed = owed_useds useds squash in
    let spent = map used_of (active_unlockeds cheques useds upper) in
    (
      sort_useds-IsSorted (owed ++ spent),
      omega (arith, total-sort_useds f (owed ++ spent), total-append f owed spent),
    )
