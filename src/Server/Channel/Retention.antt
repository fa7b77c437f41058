-- ===== src/Server/Channel/Retention.antt =====
-- Which of the candidates on chain `apply_retainer` keeps.
use konduit.Base.{
  ℕ, ◌-◌, ◌<◌, ◌≤◌, ltb, if◌then◌else◌, ◌≡◌, refl, subst, ◌⊎◌, inl, inr, true, false, Option, none,
  some, List, [], ◌∷◌, arith, All, Bool-cases,
}
use konduit.Receipt
use konduit.Receipt.{Receipt}
use konduit.Server.Channel.{Channel, Retainer, retainer_le, max_from, max_by}

-- What a candidate can pay of what is committed beyond what was subbed from it: no more than it holds.
abbrev pub pays : Receipt → Retainer → ℕ
pays r c =
    if ltb (Receipt.committed r - c.subbed) c.amount
    then Receipt.committed r - c.subbed
    else c.amount

-- One candidate comes no higher than another: by what they pay, then by what they hold; by what they hold
-- alone where nothing is received yet.
abbrev pub NoHigher : Option Receipt → Retainer → Retainer → Type 0
NoHigher none c t = c.amount ≤ t.amount
NoHigher (some r) c t = (pays r c < pays r t) ⊎ ((pays r c ≡ pays r t) × (c.amount ≤ t.amount))

retainer_le-NoHigher :
    (o : Option Receipt) (c t : Retainer) → retainer_le o c t ≡ true → NoHigher o c t
retainer_le-NoHigher none c t h = ground arith
retainer_le-NoHigher (some r) c t h = ground arith

All-NoHigher :
    (o : Option Receipt) (t : Retainer) (cs : List Retainer)
    → All (λ c. retainer_le o c t ≡ true) cs
    → All (λ c. NoHigher o c t) cs
All-NoHigher o t [] h = tt
All-NoHigher o t (c ∷ cs) h = (retainer_le-NoHigher o c t h.0, All-NoHigher o t cs h.1)

retainer_le-total :
    (o : Option Receipt) (a b : Retainer) → retainer_le o a b ≡ false → retainer_le o b a ≡ true
retainer_le-total none a b h = ground arith
retainer_le-total (some r) a b h = ground arith

retainer_le_self : (o : Option Receipt) (a : Retainer) → retainer_le o a a ≡ true
retainer_le_self none a = ground arith
retainer_le_self (some r) a = ground arith

retainer_le_trans :
    (o : Option Receipt) (a b c : Retainer)
    → retainer_le o a b ≡ true
    → retainer_le o b c ≡ true
    → retainer_le o a c ≡ true
retainer_le_trans none a b c h k = ground arith
retainer_le_trans (some r) a b c h k = ground arith

module _ (o : Option Receipt) where
  max_from-ge_start :
      (x : Retainer) (cs : List Retainer) → retainer_le o x (max_from (retainer_le o) x cs) ≡ true
  unfolding max_from
  max_from-ge_start x [] = retainer_le_self o x
  max_from-ge_start x (c ∷ cs) = elim (Bool-cases (retainer_le o x c)) [
    | inl up ↦ rw up (retainer_le_trans o x c _ up (max_from-ge_start c cs))
    | inr stay ↦ rw stay (max_from-ge_start x cs)
  ]

  max_from-ge :
      (x : Retainer) (cs : List Retainer)
      → All (λ c. retainer_le o c (max_from (retainer_le o) x cs) ≡ true) cs
  unfolding max_from
  max_from-ge x [] = tt
  max_from-ge x (c ∷ cs) = elim (Bool-cases (retainer_le o x c)) [
    | inl up ↦
        let e : max_from (retainer_le o) c cs ≡ max_from (retainer_le o) x (c ∷ cs) = rw up refl in
        subst (λ m. All (λ d. retainer_le o d m ≡ true) (c ∷ cs)) e
          (max_from-ge_start c cs, max_from-ge c cs)
    | inr stay ↦
        let e : max_from (retainer_le o) x cs ≡ max_from (retainer_le o) x (c ∷ cs) =
          rw stay refl in
        let beats =
          retainer_le_trans o c x (max_from (retainer_le o) x cs) (retainer_le-total o x c stay)
            (max_from-ge_start x cs) in
        subst (λ m. All (λ d. retainer_le o d m ≡ true) (c ∷ cs)) e (beats, max_from-ge x cs)
  ]

max_from-All :
    (P : Retainer → Type 0) (o : Option Receipt) (x : Retainer) (cs : List Retainer)
    → All P (x ∷ cs)
    → P (max_from (retainer_le o) x cs)
unfolding max_from
max_from-All P o x [] h = h.0
max_from-All P o x (c ∷ cs) h = elim (Bool-cases (retainer_le o x c)) [
  | inl up ↦ rw up (max_from-All P o c cs h.1)
  | inr stay ↦ rw stay (max_from-All P o x cs (h.0, h.1.1))
]

-- What is kept of some candidates has what they all have, and none comes higher.
pub max_by-best :
    (P : Retainer → Type 0) (o : Option Receipt) (x : Retainer) (cs : List Retainer)
    → All P (x ∷ cs)
    → (t : Retainer) × (max_by (retainer_le o) (x ∷ cs) ≡ some t)
      × P t
      × All (λ c. NoHigher o c t) (x ∷ cs)
unfolding max_by
max_by-best P o x cs h =
    let t : Retainer = max_from (retainer_le o) x cs in
    (
      t,
      refl,
      max_from-All P o x cs h,
      All-NoHigher o t (x ∷ cs) (max_from-ge_start o x cs, max_from-ge o x cs),
    )
