-- ===== src/Server/Admin/Grouped.antt =====
-- packages/konduit/server/src/admin/service.rs, `retainers`: what is found on chain, by keytag.
use konduit.Base.{
  ◌≡◌, refl, sym, ap, ◌∙◌, subst, true, false, Option, some, List, [], ◌∷◌, ◌++◌, All, Bytes,
  bytes_eq, bytes_eq_self, bytes_eq→eq, if◌then◌else◌, Bool-cases, inl, inr,
}
use konduit.Base.Maps.{Map, get}
use konduit.Base.Maps.Entries.{bytes_ltb, insert, get-insert_same, get-insert_other}
use konduit.Server.Channel.{Retainer}
use konduit.Server.Admin.{or_empty, push, grouped}
use konduit.Server.Admin.Merged.{Ascend, keys_of, Above-trans, bytes_ltb_connex}

-- The retainers of a keytag, in the order in which they are found.
abbrev pub of_key : Bytes → List (Bytes × Retainer) → List Retainer
of_key k [] = []
of_key k ((j, r) ∷ cs) = if bytes_eq j k then r ∷ of_key k cs else of_key k cs

abbrev pub joined : Option (List Retainer) → List Retainer → Option (List Retainer)
joined found [] = found
joined found (r ∷ rs) = some (or_empty found ++ r ∷ rs)

append_assoc :
    (xs : List Retainer) (r : Retainer) (rs : List Retainer) → (xs ++ r ∷ []) ++ rs ≡ xs ++ r ∷ rs
append_assoc [] r rs = refl
append_assoc (x ∷ xs) r rs = ap (λ ys. x ∷ ys) (append_assoc xs r rs)

append_nil : (xs : List Retainer) → xs ++ [] ≡ xs
append_nil [] = refl
append_nil (x ∷ xs) = ap (λ ys. x ∷ ys) (append_nil xs)

joined_pushed :
    (found : Option (List Retainer)) (r : Retainer) (rs : List Retainer)
    → joined (some (or_empty found ++ r ∷ [])) rs ≡ joined found (r ∷ rs)
joined_pushed found r [] = refl
joined_pushed found r (s ∷ rs) = ap (λ ys. some ys) (append_assoc (or_empty found) r (s ∷ rs))

pub get-grouped :
    (m : Map (List Retainer)) (cs : List (Bytes × Retainer)) (k : Bytes)
    → get (grouped m cs) k ≡ joined (get m k) (of_key k cs)
unfolding grouped
get-grouped m [] k = refl
get-grouped m ((j, r) ∷ cs) k = elim (Bool-cases (bytes_eq j k)) [
  | inl e ↦
      let same = bytes_eq→eq j k e in
      rw e (
        get-grouped (push m j r) cs k
        ∙ ap (λ found. joined found (of_key k cs))
            (subst (λ i. get (push m i r) k ≡ some (or_empty (get m k) ++ r ∷ [])) (sym same)
              (get-insert_same m k (or_empty (get m k) ++ r ∷ [])))
        ∙ joined_pushed (get m k) r (of_key k cs))
  | inr e ↦ rw e (
      get-grouped (push m j r) cs k
      ∙ ap (λ found. joined found (of_key k cs))
          (get-insert_other m j k (or_empty (get m j) ++ r ∷ []) e))
]

All-keys-insert :
    (P : Bytes → Type 0) (m : Map (List Retainer)) (k : Bytes) (v : List Retainer)
    → P k
    → All P (keys_of m)
    → All P (keys_of (insert m k v))
unfolding insert
All-keys-insert P [] k v p h = (p, tt)
All-keys-insert P ((j, y) ∷ m) k v p h = elim (Bool-cases (bytes_eq j k)) [
  | inl e ↦ rw e h
  | inr e ↦ elim (Bool-cases (bytes_ltb k j)) [
    | inl l ↦ rw (e, l) (p, h)
    | inr l ↦ rw (e, l) (h.0, All-keys-insert P m k v p h.1)
  ]
]

bytes_ltb-next : (j k : Bytes) → bytes_eq j k ≡ false → bytes_ltb k j ≡ false → bytes_ltb j k ≡ true
bytes_ltb-next j k e l = elim (Bool-cases (bytes_ltb j k)) [
  | inl h ↦ h
  | inr h ↦
      let same = bytes_ltb_connex j k h l in
      cc (e, subst (λ i. bytes_eq j i ≡ true) same (bytes_eq_self j))
]

insert-Ascend :
    (m : Map (List Retainer)) (k : Bytes) (v : List Retainer)
    → Ascend (keys_of m)
    → Ascend (keys_of (insert m k v))
unfolding insert
insert-Ascend [] k v h = (tt, tt)
insert-Ascend ((j, y) ∷ m) k v h = elim (Bool-cases (bytes_eq j k)) [
  | inl e ↦ rw e h
  | inr e ↦ elim (Bool-cases (bytes_ltb k j)) [
    | inl l ↦ rw (e, l) ((l, Above-trans k j (keys_of m) l h.0), h)
    | inr l ↦
        let after = bytes_ltb-next j k e l in
        rw (e, l)
          (All-keys-insert (λ i. bytes_ltb j i ≡ true) m k v after h.0, insert-Ascend m k v h.1)
  ]
]

pub grouped-Ascend :
    (m : Map (List Retainer)) (cs : List (Bytes × Retainer))
    → Ascend (keys_of m)
    → Ascend (keys_of (grouped m cs))
unfolding grouped
grouped-Ascend m [] h = h
grouped-Ascend m ((j, r) ∷ cs) h =
    grouped-Ascend (push m j r) cs (insert-Ascend m j (or_empty (get m j) ++ r ∷ []) h)
