-- ===== src/Tx2/Kernel/Evidence.antt =====
-- packages/kernel/lib/konduit/{wellformed,steps/common}.ak and extra/xlist.ak: what the script asks of the
-- evidence in a redeemer, and in which order it takes indexes. The script serialises what is signed as
-- Data.Wire does.
use konduit.Base.{
  ℕ, ◌<◌, ◌≡◌, refl, ◌⊎◌, inl, inr, Bool, true, false, ◌&&◌, Option, none, some, List, [], ◌∷◌,
  length, Bytes, All, ltb, leb, ◌==◌, if◌then◌else◌, arith, Bool-cases,
}
use konduit.Base.Ascending.{IsAscending, Above-IsAscending, contains, contains-Above}
use konduit.Data.Primitives.{Primitives}
use konduit.Data.Cheque.{Unlocked, locked_body}
use konduit.Data.Signed.{cheque_verifies}
use konduit.Data.Stage.{Used}

-- `xlist.drop_hard`: fails where the item is missing.
unfoldable pub drop_hard : List ℕ → ℕ → Option (List ℕ)
drop_hard [] i = none
drop_hard (x ∷ xs) i = let rest = drop_hard xs i in if x == i then some xs else rest

abbrev kept_index : ℕ → Option (List ℕ) → Option (ℕ × List ℕ)
kept_index prev none = none
kept_index prev (some exclude) = some (prev, exclude)

unfoldable pub next_index : ℕ → List ℕ → ℕ → Option (ℕ × List ℕ)
next_index prev exclude curr =
    if ltb prev curr then some (curr, []) else kept_index prev (drop_hard exclude curr)

-- `expect Finite(bound) = bound` and `bound <= timeout`
abbrev pub is_before : Option ℕ → ℕ → Bool
is_before none timeout = false
is_before (some bound) timeout = leb bound timeout

module _ (P : Primitives) (key tag : Bytes) where
  -- `wf.unlocked`
  abbrev pub is_unlocked : Unlocked → Bool
  is_unlocked w =
      cheque_verifies P key tag (locked_body P w.body) w.signature
      && length w.body.latch.bytes == 32

-- An index that the script can take next: beyond those so far, or one left out.
abbrev pub Allowed : ℕ → List ℕ → ℕ → Type 0
Allowed index exclude i = (index < i) ⊎ (contains exclude i ≡ true)

abbrev pub Allows : ℕ → List ℕ → List Used → Type 0
Allows index exclude = All (λ (u : Used). Allowed index exclude u.index)

-- All items come after an index.
abbrev pub Later : ℕ → List Used → Type 0
Later i = All (λ (u : Used). i < u.index)

drop_hard_lem :
    (xs : List ℕ) (i : ℕ)
    → IsAscending xs
    → contains xs i ≡ true
    → (rest : List ℕ) × (drop_hard xs i ≡ some rest)
      × IsAscending rest
      × ((j : ℕ) → i < j → contains xs j ≡ true → contains rest j ≡ true)
unfolding drop_hard
drop_hard_lem [] i a h = cc
drop_hard_lem (x ∷ xs) i a h = elim (Bool-cases (x == i)) [
  | inl e ↦ (xs, rw e refl, Above-IsAscending x xs a, (λ j later k. ground arith))
  | inr e ↦
      let (rest, made, up, keeps) = drop_hard_lem xs i (Above-IsAscending x xs a) (rw e at h) in
      (
        rest,
        rw (e, made) refl,
        up,
        (λ j later k. ground (arith, keeps j later, h, contains-Above x i xs a)),
      )
]

-- Taking an index that is allowed leaves the later ones allowed.
pub next_index-Allows :
    (index : ℕ) (exclude : List ℕ) (i : ℕ) (us : List Used)
    → IsAscending exclude
    → Allowed index exclude i
    → Later i us
    → Allows index exclude us
    → (index' : ℕ) × (exclude' : List ℕ) × (next_index index exclude i ≡ some (index', exclude'))
      × IsAscending exclude'
      × Allows index' exclude' us
unfolding next_index
next_index-Allows index exclude i us a now later rest = elim (Bool-cases (ltb index i)) [
  | inl e ↦ (i, [], rw e refl, tt, beyond us later)
  | inr e ↦
      let left_out : contains exclude i ≡ true = ground (arith, now, e) in
      let (ex, made, up, keeps) = drop_hard_lem exclude i a left_out in
      (index, ex, rw (e, made) refl, up, kept ex keeps us later rest)
]
  where
    beyond : (vs : List Used) → Later i vs → Allows i [] vs
    beyond [] h = tt
    beyond (v ∷ vs) h = (inl h.0, beyond vs h.1)

    kept :
        (ex : List ℕ)
        → ((j : ℕ) → i < j → contains exclude j ≡ true → contains ex j ≡ true)
        → (vs : List Used) → Later i vs
        → Allows index exclude vs
        → Allows index ex vs
    kept ex keeps [] h r = tt
    kept ex keeps (v ∷ vs) h (inl beyond, r) = (inl beyond, kept ex keeps vs h.1 r)
    kept ex keeps (v ∷ vs) h (inr out, r) = (inr (keeps v.index h.0 out), kept ex keeps vs h.1 r)
