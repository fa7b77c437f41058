-- ===== src/Tx2/Fuel/Subtract.antt =====
-- What `saturating_sub_value` leaves of each asset.
use konduit.Base.{
  ℕ, ◌-◌, ◌<◌, ◌≡◌, refl, sym, ◌∙◌, subst, true, false, Option, none, some, Option-cases,
  Bool-cases, inl, inr, Bytes, bytes_eq, ◌==◌, arith,
}
use konduit.Base.Maps.{
  remove-write, get, write, remove, HasKeys, get-write_same, get-write_other, get-remove_same,
  get-remove_other, HasKeys-write, HasKeys-remove,
}
use konduit.Base.Maps.Entries.{AllValues-Unit, AllValues, AllValues-write, AllValues-remove}
use konduit.Base.Maps.Loops.{each, each-view, each-keeps}
use konduit.Sdk.Value.{Names, held}
use konduit.Tx2.Fuel.{less_quantity}

-- The outcomes for one quantity: there is none, nothing is left of it, or some is left.
less_absent : (m : Names) (name : Bytes) (q : ℕ) → get m name ≡ none → less_quantity m name q ≡ m
unfolding less_quantity
less_absent m name q e = rw (less_quantity, e)

less_gone :
    (m : Names) (name : Bytes) (q x : ℕ)
    → get m name ≡ some x
    → (x - q == 0) ≡ true
    → less_quantity m name q ≡ remove (write m name (x - q)) name
unfolding less_quantity
less_gone m name q x e z = rw (less_quantity, e, z)

less_left :
    (m : Names) (name : Bytes) (q x : ℕ)
    → get m name ≡ some x
    → (x - q == 0) ≡ false
    → less_quantity m name q ≡ write m name (x - q)
unfolding less_quantity
less_left m name q x e z = rw (less_quantity, e, z)

less_quantity-HasKeys :
    (m : Names) (name : Bytes) (q : ℕ) → HasKeys m → HasKeys (less_quantity m name q)
less_quantity-HasKeys m name q h = elim (Option-cases (get m name)) [
  | inl e ↦ subst HasKeys (sym (less_absent m name q e)) h
  | inr (x, e) ↦ elim (Bool-cases (x - q == 0)) [
    | inl z ↦
        subst HasKeys (sym (less_gone m name q x e z))
          (HasKeys-remove _ name (HasKeys-write m name (x - q) h))
    | inr z ↦ subst HasKeys (sym (less_left m name q x e z)) (HasKeys-write m name (x - q) h)
  ]
]

held_at : (m : Names) (name : Bytes) (x : ℕ) → get m name ≡ some x → held m name ≡ x
held_at m name x e = rw (held, e)

held-none : (m : Names) (name : Bytes) → get m name ≡ none → held m name ≡ 0
held-none m name e = rw (held, e)

held-same : (m n : Names) (name : Bytes) → get m name ≡ get n name → held m name ≡ held n name
held-same m n name e = rw (held, e)

held-less_quantity :
    (m : Names) (name : Bytes) (q : ℕ)
    → HasKeys m
    → held (less_quantity m name q) name ≡ held m name - q
held-less_quantity m name q h = elim (Option-cases (get m name)) [
  | inl e ↦ rw (less_absent m name q e) (omega (arith, held-none m name e))
  | inr (x, e) ↦ elim (Bool-cases (x - q == 0)) [
    | inl z ↦
        let gone = get-remove_same (write m name (x - q)) name (HasKeys-write m name (x - q) h) in
        rw (less_gone m name q x e z) (
          ground
            (arith, held-none (remove (write m name (x - q)) name) name gone, held_at m name x e))
    | inr z ↦
        let kept = get-write_same m name (x - q) x e in
        rw (less_left m name q x e z)
          (omega (arith, held_at (write m name (x - q)) name (x - q) kept, held_at m name x e))
  ]
]

held-less_quantity_other :
    (m : Names) (j name : Bytes) (q : ℕ)
    → bytes_eq j name ≡ false
    → held (less_quantity m j q) name ≡ held m name
held-less_quantity_other m j name q h = elim (Option-cases (get m j)) [
  | inl e ↦ rw (less_absent m j q e)
  | inr (x, e) ↦ elim (Bool-cases (x - q == 0)) [
    | inl z ↦ rw (less_gone m j q x e z) (
        held-same _ m name
          (get-remove_other (write m j (x - q)) j name h ∙ get-write_other m j name (x - q) h))
    | inr z ↦ rw (less_left m j q x e z) (held-same _ m name (get-write_other m j name (x - q) h))
  ]
]

-- What is left of a quantity is not nothing.
less_quantity-positive :
    (m : Names) (name : Bytes) (q : ℕ)
    → AllValues (λ x. 0 < x) m
    → AllValues (λ x. 0 < x) (less_quantity m name q)
less_quantity-positive m name q h = elim (Option-cases (get m name)) [
  | inl e ↦ rw (less_absent m name q e) h
  | inr (x, e) ↦ elim (Bool-cases (x - q == 0)) [
    | inl z ↦
        rw (less_gone m name q x e z, remove-write m name (x - q)) (AllValues-remove _ m name h)
    | inr z ↦ rw (less_left m name q x e z) (AllValues-write _ m name (x - q) (ground arith) h)
  ]
]

pub less_names-HasKeys : (m names : Names) → HasKeys m → HasKeys (each less_quantity m names)
less_names-HasKeys m names h =
    each-keeps less_quantity HasKeys (λ q. Unit {0}) (λ s k x i u. less_quantity-HasKeys s k x i)
      names m (AllValues-Unit names) h

pub held-less_names :
    (m names : Names) (name : Bytes)
    → HasKeys m
    → HasKeys names
    → held (each less_quantity m names) name ≡ held m name - held names name
held-less_names m names name h u =
    each-view less_quantity HasKeys (λ q. Unit {0}) (λ s k x i t. less_quantity-HasKeys s k x i)
      (λ s. held s name) name (λ x q. x - q) (λ s x i t. held-less_quantity s name x i)
      (λ s j x i e. held-less_quantity_other s j name x e) names m u (AllValues-Unit names) h
    ∙ absent (get names name)
  where
    absent :
        (o : Option ℕ)
        → elim o as (λ _. ℕ) [ none ↦ held m name | some q ↦ held m name - q ]
          ≡ held m name - (elim o as (λ _. ℕ) [ none ↦ 0 | some q ↦ q ])
    absent none = omega arith
    absent (some q) = refl

pub less_names-positive :
    (m names : Names)
    → AllValues (λ x. 0 < x) m
    → AllValues (λ x. 0 < x) (each less_quantity m names)
less_names-positive m names h =
    each-keeps less_quantity (AllValues (λ x. 0 < x)) (λ q. Unit {0})
      (λ s k x i u. less_quantity-positive s k x i) names m (AllValues-Unit names) h
