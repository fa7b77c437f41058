-- ===== src/Tx2/Fuel/Policies.antt =====
-- `saturating_sub_value` over all policies, and what the rest of a value is.
use konduit.Base.{
  ℕ, ◌-◌, ◌≡◌, refl, ◌∙◌, true, false, Option, none, some, Option-cases, Bool-cases, inl, inr, [],
  ◌∷◌, Bytes, bytes_eq, is_empty, arith,
}
use konduit.Base.Maps.{
  remove-write, get, write, remove, HasKeys, get-write_same, get-write_other, get-remove_same,
  get-remove_other, HasKeys-write, HasKeys-remove,
}
use konduit.Base.Maps.Entries.{AllValues, AllValues-write, AllValues-remove, get-AllValues}
use konduit.Base.Maps.Loops.{each, each-view, each-keeps}
use konduit.Sdk.Value.{Names, Assets, held, held_in, IsNonNull}
use konduit.Tx2.Fuel.{less_quantity, less_policy}
use konduit.Tx2.Fuel.Subtract.{less_names-HasKeys, held-less_names, less_names-positive}

-- The outcomes for one policy: it is not there, nothing is left under it, or something is.
abbrev left_of : Names → Names → Names
left_of m names = each less_quantity m names

policy_absent :
    (a : Assets) (p : Bytes) (names : Names) → get a p ≡ none → less_policy a p names ≡ a
unfolding less_policy
policy_absent a p names e = rw (less_policy, e)

policy_gone :
    (a : Assets) (p : Bytes) (names m : Names)
    → get a p ≡ some m
    → is_empty (left_of m names) ≡ true
    → less_policy a p names ≡ remove (write a p (left_of m names)) p
unfolding less_policy
policy_gone a p names m e z = rw (less_policy, e, z)

policy_left :
    (a : Assets) (p : Bytes) (names m : Names)
    → get a p ≡ some m
    → is_empty (left_of m names) ≡ false
    → less_policy a p names ≡ write a p (left_of m names)
unfolding less_policy
policy_left a p names m e z = rw (less_policy, e, z)

-- What holds of the names of every policy, and of their rest if there is one, holds of what is left.
abbrev Keyed : Assets → Type 0
Keyed a = HasKeys a × AllValues HasKeys a

less_policy-AllValues :
    (P : Names → Type 0)
    → ((m names : Names) → P m → is_empty (left_of m names) ≡ false → P (left_of m names))
    → (a : Assets) (p : Bytes) (names : Names) → AllValues P a
    → AllValues P (less_policy a p names)
less_policy-AllValues P keep a p names h = elim (Option-cases (get a p)) [
  | inl e ↦ rw (policy_absent a p names e) h
  | inr (m, e) ↦ elim (Bool-cases (is_empty (left_of m names))) [
    | inl z ↦
        rw (policy_gone a p names m e z, remove-write a p (left_of m names))
          (AllValues-remove P a p h)
    | inr z ↦
        rw (policy_left a p names m e z)
          (AllValues-write P a p (left_of m names) (keep m names (get-AllValues P a p h e) z) h)
  ]
]

less_policy-HasKeys :
    (a : Assets) (p : Bytes) (names : Names) → HasKeys a → HasKeys (less_policy a p names)
less_policy-HasKeys a p names h = elim (Option-cases (get a p)) [
  | inl e ↦ rw (policy_absent a p names e) h
  | inr (m, e) ↦ elim (Bool-cases (is_empty (left_of m names))) [
    | inl z ↦
        rw (policy_gone a p names m e z, remove-write a p (left_of m names)) (HasKeys-remove a p h)
    | inr z ↦ rw (policy_left a p names m e z) (HasKeys-write a p (left_of m names) h)
  ]
]

less_policy-Keyed :
    (a : Assets) (p : Bytes) (names : Names) → Keyed a → Keyed (less_policy a p names)
less_policy-Keyed a p names (h, hs) = (
  less_policy-HasKeys a p names h,
  less_policy-AllValues HasKeys (λ m names k z. less_names-HasKeys m names k) a p names hs,
)

less_policy-NonNull :
    (a : Assets) (p : Bytes) (names : Names)
    → AllValues IsNonNull a
    → AllValues IsNonNull (less_policy a p names)
less_policy-NonNull =
    less_policy-AllValues IsNonNull λ m names k z. (z, less_names-positive m names k.1)

held_in_at : (a : Assets) (p n : Bytes) (m : Names) → get a p ≡ some m → held_in a p n ≡ held m n
held_in_at a p n m e = rw (held_in, e)

held_in-none : (a : Assets) (p n : Bytes) → get a p ≡ none → held_in a p n ≡ 0
held_in-none a p n e = rw (held_in, e)

held_in-same : (a b : Assets) (p n : Bytes) → get a p ≡ get b p → held_in a p n ≡ held_in b p n
held_in-same a b p n e = rw (held_in, e)

held-empty : (m : Names) (n : Bytes) → is_empty m ≡ true → held m n ≡ 0
unfolding get
held-empty [] n h = refl
held-empty (e ∷ m) n h = cc

held_in-less_policy :
    (a : Assets) (p n : Bytes) (names : Names)
    → Keyed a
    → HasKeys names
    → held_in (less_policy a p names) p n ≡ held_in a p n - held names n
held_in-less_policy a p n names (h, hs) u = elim (Option-cases (get a p)) [
  | inl e ↦ rw (policy_absent a p names e) (omega (arith, held_in-none a p n e))
  | inr (m, e) ↦
      let left = held-less_names m names n (get-AllValues HasKeys a p hs e) u in
      elim (Bool-cases (is_empty (left_of m names))) [
        | inl z ↦
            let gone = get-remove_same a p h in
            rw (policy_gone a p names m e z, remove-write a p (left_of m names))
              (omega (
                arith,
                held_in-none (remove a p) p n gone,
                held_in_at a p n m e,
                held-empty (left_of m names) n z,
                left,
              ))
        | inr z ↦
            let kept = get-write_same a p (left_of m names) m e in
            rw (policy_left a p names m e z) (
              omega (
                arith,
                held_in_at (write a p (left_of m names)) p n (left_of m names) kept,
                held_in_at a p n m e,
                left,
              ))
      ]
]

held_in-less_policy_other :
    (a : Assets) (j p n : Bytes) (names : Names)
    → bytes_eq j p ≡ false
    → held_in (less_policy a j names) p n ≡ held_in a p n
held_in-less_policy_other a j p n names h = elim (Option-cases (get a j)) [
  | inl e ↦ rw (policy_absent a j names e)
  | inr (m, e) ↦ elim (Bool-cases (is_empty (left_of m names))) [
    | inl z ↦
        rw (policy_gone a j names m e z, remove-write a j (left_of m names))
          (held_in-same _ a p n (get-remove_other a j p h))
    | inr z ↦
        rw (policy_left a j names m e z)
          (held_in-same _ a p n (get-write_other a j p (left_of m names) h))
  ]
]

-- The loops over all policies.
module _ (a b : Assets) (keyed : Keyed a) (other : Keyed b) where
  pub less-Keyed : Keyed (each less_policy a b)
  less-Keyed =
      each-keeps less_policy Keyed HasKeys (λ s p m i u. less_policy-Keyed s p m i) b a other.1
        keyed

  pub held_in-less :
      (p n : Bytes) → held_in (each less_policy a b) p n ≡ held_in a p n - held_in b p n
  held_in-less p n =
      each-view less_policy Keyed HasKeys (λ s j m i u. less_policy-Keyed s j m i)
        (λ s. held_in s p n) p (λ x m. x - held m n) (λ s m i u. held_in-less_policy s p n m i u)
        (λ s j m i e. held_in-less_policy_other s j p n m e) b a other.0 other.1 keyed
      ∙ absent (get b p)
    where
      absent :
          (o : Option Names)
          → elim o as (λ _. ℕ) [ none ↦ held_in a p n | some m ↦ held_in a p n - held m n ]
            ≡ held_in a p n - (elim o as (λ _. ℕ) [ none ↦ 0 | some m ↦ held m n ])
      absent none = omega arith
      absent (some m) = refl

pub less-NonNull :
    (a b : Assets)
    → AllValues IsNonNull a
    → AllValues HasKeys b
    → AllValues IsNonNull (each less_policy a b)
less-NonNull a b h u =
    each-keeps less_policy (AllValues IsNonNull) HasKeys (λ s p m i t. less_policy-NonNull s p m i)
      b a u h
