-- ===== src/Sdk/Value/Sums.antt =====
-- What `add` of packages/cardano/sdk/src/cardano/value.rs does to each asset.
use konduit.Base.{
  ℕ, ◌+◌, ◌<◌, ◌≡◌, refl, sym, ◌∙◌, subst, true, false, Option, none, some, Option-cases,
  Bool-cases, inl, inr, [], ◌∷◌, Bytes, bytes_eq, bytes_eq→eq, ◌==◌, ==→eq, is_empty, add64,
  add64-eq, u64_mod, arith,
}
use konduit.Base.Maps.{
  get, get_here, get_later, Lacks, HasKeys, HasKeys-write, none-Lacks, get-Lacks, get-write_same,
  get-write_other,
}
use konduit.Base.Maps.Entries.{
  AllValues-Unit, AllValues, HasKeys-insert, AllValues-insert, AllValues-write, get-AllValues,
  get-insert_same, get-insert_other,
}
use konduit.Base.Maps.Loops.{each-view, each-keeps}
use konduit.Sdk.Value.{
  Value, Names, Assets, IsValue, nonzero, held, held_in, quantity, add, add_quantity, add_names,
  add_policy, add_assets, prune_null_values,
}

-- One quantity.
abbrev joined : Option ℕ → ℕ → ℕ
joined none q = q
joined (some x) q = add64 x q

get-add_quantity :
    (m : Names) (n : Bytes) (q : ℕ) → get (add_quantity m n q) n ≡ some (joined (get m n) q)
unfolding add_quantity
get-add_quantity m n q = elim (Option-cases (get m n)) [
  | inl e ↦ rw (add_quantity, e) (get-insert_same m n q)
  | inr (x, e) ↦ rw (add_quantity, e) (get-write_same m n (add64 x q) x e)
]

get-add_quantity_other :
    (m : Names) (j n : Bytes) (q : ℕ) → bytes_eq j n ≡ false → get (add_quantity m j q) n ≡ get m n
unfolding add_quantity
get-add_quantity_other m j n q h = elim (Option-cases (get m j)) [
  | inl e ↦ rw (add_quantity, e) (get-insert_other m j n q h)
  | inr (x, e) ↦ rw (add_quantity, e) (get-write_other m j n (add64 x q) h)
]

add_quantity-HasKeys : (m : Names) (n : Bytes) (q : ℕ) → HasKeys m → HasKeys (add_quantity m n q)
unfolding add_quantity
add_quantity-HasKeys m n q h = elim (Option-cases (get m n)) [
  | inl e ↦
      subst HasKeys (sym (rw (add_quantity, e) refl)) (HasKeys-insert m n q (none-Lacks m n e) h)
  | inr (x, e) ↦ subst HasKeys (sym (rw (add_quantity, e) refl)) (HasKeys-write m n (add64 x q) h)
]

add_names-HasKeys : (m names : Names) → HasKeys m → HasKeys (add_names m names)
unfolding add_names
add_names-HasKeys m names h =
    each-keeps add_quantity HasKeys (λ q. Unit {0}) (λ s k x i u. add_quantity-HasKeys s k x i)
      names m (AllValues-Unit names) h

-- Where the sum fits in a word it is the plain sum.
held-add_names :
    (m names : Names) (n : Bytes)
    → HasKeys names
    → held m n + held names n < u64_mod
    → held (add_names m names) n ≡ held m n + held names n
unfolding add_names
held-add_names m names n u = at (get names n) (get m n) (
    each-view add_quantity (λ s. Unit {0}) (λ q. Unit {0}) (λ s k x i t. tt) (λ s. get s n) n
      (λ o q. some (joined o q)) (λ s x i t. get-add_quantity s n x)
      (λ s j x i e. get-add_quantity_other s j n x e) names m u (AllValues-Unit names) tt)
  where
    value : Option ℕ → ℕ
    value o = elim o [ none ↦ 0 | some q ↦ q ]

    at :
        (theirs ours : Option ℕ) {sum : Option ℕ}
        → sum ≡ elim theirs as (λ _. Option ℕ) [ none ↦ ours | some q ↦ some (joined ours q) ]
        → value ours + value theirs < u64_mod
        → value sum ≡ value ours + value theirs
    at none ours e fits = rw e (omega arith)
    at (some q) none e fits = rw e (omega arith)
    at (some q) (some x) e fits = rw e (add64-eq x q fits)

-- One policy.
abbrev merged : Option Names → Names → Names
merged none names = names
merged (some entry) names = add_names entry names

get-add_policy :
    (a : Assets) (p : Bytes) (names : Names)
    → get (add_policy a p names) p ≡ some (merged (get a p) names)
unfolding add_policy
get-add_policy a p names = elim (Option-cases (get a p)) [
  | inl e ↦ rw (add_policy, e) (get-insert_same a p names)
  | inr (m, e) ↦ rw (add_policy, e) (get-write_same a p (add_names m names) m e)
]

get-add_policy_other :
    (a : Assets) (j p : Bytes) (names : Names)
    → bytes_eq j p ≡ false
    → get (add_policy a j names) p ≡ get a p
unfolding add_policy
get-add_policy_other a j p names h = elim (Option-cases (get a j)) [
  | inl e ↦ rw (add_policy, e) (get-insert_other a j p names h)
  | inr (m, e) ↦ rw (add_policy, e) (get-write_other a j p (add_names m names) h)
]

abbrev Keyed : Assets → Type 0
Keyed a = HasKeys a × AllValues HasKeys a

add_policy-Keyed :
    (a : Assets) (p : Bytes) (names : Names)
    → Keyed a
    → HasKeys names
    → Keyed (add_policy a p names)
unfolding add_policy
add_policy-Keyed a p names (h, hs) u = elim (Option-cases (get a p)) [
  | inl e ↦
      subst Keyed (sym (rw (add_policy, e) refl))
        (HasKeys-insert a p names (none-Lacks a p e) h, AllValues-insert HasKeys a p names u hs)
  | inr (m, e) ↦ subst Keyed (sym (rw (add_policy, e) refl)) (
    HasKeys-write a p (add_names m names) h,
    AllValues-write HasKeys a p (add_names m names)
        (add_names-HasKeys m names (get-AllValues HasKeys a p hs e)) hs,
  )
]

add_assets-Keyed : (a b : Assets) → Keyed a → Keyed b → Keyed (add_assets a b)
unfolding add_assets
add_assets-Keyed a b ka kb =
    each-keeps add_policy Keyed HasKeys (λ s p m i u. add_policy-Keyed s p m i u) b a kb.1 ka

held_in-add_assets :
    (a b : Assets) (p n : Bytes)
    → Keyed a
    → Keyed b
    → held_in a p n + held_in b p n < u64_mod
    → held_in (add_assets a b) p n ≡ held_in a p n + held_in b p n
unfolding add_assets
held_in-add_assets a b p n ka kb = at (get b p) (get a p) refl (
    each-view add_policy Keyed HasKeys (λ s k m i u. add_policy-Keyed s k m i u) (λ s. get s p) p
      (λ o m. some (merged o m)) (λ s m i u. get-add_policy s p m)
      (λ s j m i e. get-add_policy_other s j p m e) b a kb.0 kb.1 ka)
  where
    value : Option Names → ℕ
    value o = elim o [ none ↦ 0 | some m ↦ held m n ]

    at :
        (theirs ours : Option Names) {sum : Option Names}
        → get b p ≡ theirs
        → sum ≡ elim theirs as (λ _. Option Names) [ none ↦ ours | some m ↦ some (merged ours m) ]
        → value ours + value theirs < u64_mod
        → value sum ≡ value ours + value theirs
    at none ours g e fits = rw e (omega arith)
    at (some m) none g e fits = rw e (omega arith)
    at (some m) (some x) g e fits =
        rw e (held-add_names x m n (get-AllValues HasKeys b p kb.1 g) fits)

-- Pruning takes away only what is nothing.
held-Lacks : (m : Names) (n : Bytes) → Lacks n m → held m n ≡ 0
held-Lacks m n l = rw (held, get-Lacks m n l)

held_here : (m : Names) (k n : Bytes) (q : ℕ) → bytes_eq k n ≡ true → held ((k, q) ∷ m) n ≡ q
held_here m k n q h = rw (held, get_here m k n q h)

held_later :
    (m : Names) (k n : Bytes) (q : ℕ) → bytes_eq k n ≡ false → held ((k, q) ∷ m) n ≡ held m n
held_later m k n q h = rw (held, get_later m k n q h)

held-nonzero : (m : Names) (n : Bytes) → HasKeys m → held (nonzero m) n ≡ held m n
unfolding nonzero
held-nonzero [] n h = refl
held-nonzero ((k, q) ∷ m) n (l, h) =
    let rest = held-nonzero m n h in
    elim (Bool-cases (q == 0)) [
      | inl z ↦ elim (Bool-cases (bytes_eq k n)) [
        | inl e ↦
            let missing = held-Lacks m n (subst (λ j. Lacks j m) (bytes_eq→eq k n e) l) in
            rw z (omega (arith, rest, missing, held_here m k n q e, ==→eq q 0 z))
        | inr e ↦ rw z (omega (arith, rest, held_later m k n q e))
      ]
      | inr z ↦ elim (Bool-cases (bytes_eq k n)) [
        | inl e ↦ rw z (omega (arith, held_here (nonzero m) k n q e, held_here m k n q e))
        | inr e ↦ rw z (omega (arith, rest, held_later (nonzero m) k n q e, held_later m k n q e))
      ]
    ]

held_in-Lacks : (a : Assets) (p n : Bytes) → Lacks p a → held_in a p n ≡ 0
held_in-Lacks a p n l = rw (held_in, get-Lacks a p l)

held_in_here :
    (a : Assets) (k p n : Bytes) (m : Names)
    → bytes_eq k p ≡ true
    → held_in ((k, m) ∷ a) p n ≡ held m n
held_in_here a k p n m h = rw (held_in, get_here a k p m h)

held_in_later :
    (a : Assets) (k p n : Bytes) (m : Names)
    → bytes_eq k p ≡ false
    → held_in ((k, m) ∷ a) p n ≡ held_in a p n
held_in_later a k p n m h = rw (held_in, get_later a k p m h)

held-empty : (m : Names) (n : Bytes) → is_empty m ≡ true → held m n ≡ 0
unfolding get
held-empty [] n h = refl
held-empty (e ∷ m) n h = cc

held_in-prune :
    (a : Assets) (p n : Bytes) → Keyed a → held_in (prune_null_values a) p n ≡ held_in a p n
unfolding prune_null_values
held_in-prune [] p n h = refl
held_in-prune ((k, m) ∷ a) p n ((l, h), (u, us)) =
    let rest = held_in-prune a p n (h, us) in
    let names = held-nonzero m n u in
    let kept = prune_null_values a in
    elim (Bool-cases (is_empty (nonzero m))) [
      | inl z ↦ elim (Bool-cases (bytes_eq k p)) [
        | inl e ↦
            let missing = held_in-Lacks a p n (subst (λ j. Lacks j a) (bytes_eq→eq k p e) l) in
            rw z (
              omega
                (arith, rest, missing, names, held-empty (nonzero m) n z, held_in_here a k p n m e))
        | inr e ↦ rw z (omega (arith, rest, held_in_later a k p n m e))
      ]
      | inr z ↦ elim (Bool-cases (bytes_eq k p)) [
        | inl e ↦
            rw z (
              omega (arith, names, held_in_here kept k p n (nonzero m) e, held_in_here a k p n m e))
        | inr e ↦
            rw z (
              omega
                (arith, rest, held_in_later kept k p n (nonzero m) e, held_in_later a k p n m e))
      ]
    ]

-- Adding two values adds their quantities of each asset, where the sum fits in 64 bits.
quantity-add :
    (a b : Value) (p n : Bytes)
    → IsValue a
    → IsValue b
    → quantity a p n + quantity b p n < u64_mod
    → quantity (add a b) p n ≡ quantity a p n + quantity b p n
unfolding add
quantity-add a b p n va vb fits =
    held_in-prune _ p n (add_assets-Keyed a.assets b.assets (va.keys, va.names) (vb.keys, vb.names))
    ∙ held_in-add_assets a.assets b.assets p n (va.keys, va.names) (vb.keys, vb.names) fits
