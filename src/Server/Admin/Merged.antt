-- ===== src/Server/Admin/Merged.antt =====
-- packages/konduit/server/src/admin/coiter.rs: each key comes once, with what the map has for it.
use konduit.Base.{
  ◌≡◌, refl, subst, sym, ◌∙◌, Bool, true, false, Option, none, some, List, [], ◌∷◌, map, any, All,
  Bytes, bytes_eq, bytes_eq→eq, if◌then◌else◌, arith, Bool-cases, inl, inr,
}
use konduit.Base.Maps.{Map, get, Lacks, HasKeys, none-Lacks}
use konduit.Base.Maps.Entries.{bytes_ltb}
use konduit.Server.Channel.{Retainer}
use konduit.Server.Admin.{coiter, entry_of, or_empty}

bytes_ltb_trans :
    (a b c : Bytes) → bytes_ltb a b ≡ true → bytes_ltb b c ≡ true → bytes_ltb a c ≡ true
bytes_ltb_trans a [] c h k = cc
bytes_ltb_trans a (y ∷ b) [] h k = cc
bytes_ltb_trans [] (y ∷ b) (z ∷ c) h k = refl
bytes_ltb_trans (x ∷ a) (y ∷ b) (z ∷ c) h k = ground (arith, bytes_ltb_trans a b c)

bytes_ltb_irrefl : (a : Bytes) → bytes_ltb a a ≡ false
bytes_ltb_irrefl [] = refl
bytes_ltb_irrefl (x ∷ a) = ground (arith, bytes_ltb_irrefl a)

pub bytes_ltb_connex : (a b : Bytes) → bytes_ltb a b ≡ false → bytes_ltb b a ≡ false → a ≡ b
bytes_ltb_connex [] [] h k = refl
bytes_ltb_connex [] (y ∷ b) h k = cc
bytes_ltb_connex (x ∷ a) [] h k = cc
bytes_ltb_connex (x ∷ a) (y ∷ b) h k = ground (arith, bytes_ltb_connex a b)

-- A smaller key is another key.
bytes_ltb-distinct : (a b : Bytes) → bytes_ltb a b ≡ true → bytes_eq b a ≡ false
bytes_ltb-distinct a b h = elim (Bool-cases (bytes_eq b a)) [
  | inl e ↦
      let same = bytes_eq→eq b a e in
      cc (subst (λ x. bytes_ltb a x ≡ true) same h, bytes_ltb_irrefl a)
  | inr e ↦ e
]

-- Keys in their order, and maps in the order of their keys.
abbrev pub Ascend : List Bytes → Type 0
Ascend [] = Unit
Ascend (k ∷ ks) = All (λ j. bytes_ltb k j ≡ true) ks × Ascend ks

abbrev pub keys_of {ℓ} : {V : Type ℓ} → Map V → List Bytes
keys_of m = map (λ e. e.0) m

abbrev pub has_key : Bytes → List Bytes → Bool
has_key k ks = any (λ j. bytes_eq j k) ks

abbrev pub Above : Bytes → List Bytes → Type 0
Above k ks = All (λ j. bytes_ltb k j ≡ true) ks

pub Above-trans : (a b : Bytes) (ks : List Bytes) → bytes_ltb a b ≡ true → Above b ks → Above a ks
Above-trans a b [] h k = tt
Above-trans a b (c ∷ ks) h (k, rest) = (bytes_ltb_trans a b c h k, Above-trans a b ks h rest)

Above-has_key : (k : Bytes) (ks : List Bytes) → Above k ks → has_key k ks ≡ false
Above-has_key k [] h = refl
Above-has_key k (j ∷ ks) (h, rest) = rw (bytes_ltb-distinct k j h) (Above-has_key k ks rest)

Above-get {ℓ} : {V : Type ℓ} (k : Bytes) (m : Map V) → Above k (keys_of m) → get m k ≡ none
unfolding get
Above-get k [] h = refl
Above-get k ((j, v) ∷ m) (h, rest) = rw (bytes_ltb-distinct k j h) (Above-get k m rest)

-- What is found of a key: an empty list for a key that the map lacks.
abbrev pub seen : List Bytes → Map (List Retainer) → Bytes → Option (List Retainer)
seen ls m k = if has_key k ls then some (or_empty (get m k)) else get m k

abbrev pub entries : List Bytes → Map (List Retainer) → Map (List Retainer)
entries ls m = map entry_of (coiter ls m)

pub get-entries :
    (ls : List Bytes) (m : Map (List Retainer)) (k : Bytes)
    → Ascend ls
    → Ascend (keys_of m)
    → get (entries ls m) k ≡ seen ls m k
unfolding coiter get
get-entries [] [] k h j = refl
get-entries [] ((r, v) ∷ rs) k h j = elim (Bool-cases (bytes_eq r k)) [
  | inl e ↦ rw e refl
  | inr e ↦ rw e (get-entries [] rs k tt j.1)
]
get-entries (l ∷ ls) [] k h j = elim (Bool-cases (bytes_eq l k)) [
  | inl e ↦ rw e refl
  | inr e ↦ rw e (get-entries ls [] k h.1 tt)
]
get-entries (l ∷ ls) ((r, v) ∷ rs) k h j = elim (Bool-cases (bytes_ltb l r)) [
  | inl less ↦ elim (Bool-cases (bytes_eq l k)) [
    | inl e ↦
        let same = bytes_eq→eq l k e in
        let gone : get ((r, v) ∷ rs) k ≡ none =
          subst (λ i. get ((r, v) ∷ rs) i ≡ none) same
            (Above-get l ((r, v) ∷ rs) (less, Above-trans l r (keys_of rs) less j.0)) in
        rw (less, e, gone) refl
    | inr e ↦ rw (less, e) (get-entries ls ((r, v) ∷ rs) k h.1 j)
  ]
  | inr more ↦ elim (Bool-cases (bytes_ltb r l)) [
    | inl greater ↦ elim (Bool-cases (bytes_eq r k)) [
      | inl e ↦ elim (Bool-cases (has_key k (l ∷ ls))) [
        | inl c ↦ rw (more, greater, e, c) refl
        | inr c ↦ rw (more, greater, e, c) refl
      ]
      | inr e ↦ rw (more, greater, e) (get-entries (l ∷ ls) rs k h j.1)
    ]
    | inr less ↦
        let same = bytes_ltb_connex l r more less in
        elim (Bool-cases (bytes_eq l k)) [
          | inl e ↦ rw (more, less, e, subst (λ i. bytes_eq i k ≡ true) same e) refl
          | inr e ↦
              rw (more, less, e, subst (λ i. bytes_eq i k ≡ false) same e)
                (get-entries ls rs k h.1 j.1)
        ]
  ]
]

-- A key below those of both sides does not come.
Above-entries :
    (k : Bytes) (ls : List Bytes) (m : Map (List Retainer))
    → Ascend ls
    → Ascend (keys_of m)
    → Above k ls
    → Above k (keys_of m)
    → Lacks k (entries ls m)
Above-entries k ls m h j a b =
    let unseen : seen ls m k ≡ none = rw (Above-has_key k ls a) (Above-get k m b) in
    none-Lacks (entries ls m) k (get-entries ls m k h j ∙ unseen)

pub entries-HasKeys :
    (ls : List Bytes) (m : Map (List Retainer))
    → Ascend ls
    → Ascend (keys_of m)
    → HasKeys (entries ls m)
unfolding coiter
entries-HasKeys [] [] h j = tt
entries-HasKeys [] ((r, v) ∷ rs) h j =
    (Above-entries r [] rs tt j.1 tt j.0, entries-HasKeys [] rs tt j.1)
entries-HasKeys (l ∷ ls) [] h j =
    (Above-entries l ls [] h.1 tt h.0 tt, entries-HasKeys ls [] h.1 tt)
entries-HasKeys (l ∷ ls) ((r, v) ∷ rs) h j = elim (Bool-cases (bytes_ltb l r)) [
  | inl less ↦ rw less (
    Above-entries l ls ((r, v) ∷ rs) h.1 j h.0 (less, Above-trans l r (keys_of rs) less j.0),
    entries-HasKeys ls ((r, v) ∷ rs) h.1 j,
  )
  | inr more ↦ elim (Bool-cases (bytes_ltb r l)) [
    | inl greater ↦
        rw (more, greater)
          (
            Above-entries r (l ∷ ls) rs h j.1 (greater, Above-trans r l ls greater h.0) j.0,
            entries-HasKeys (l ∷ ls) rs h j.1,
          )
    | inr less ↦
        let same = bytes_ltb_connex l r more less in
        rw (more, less)
          (
            Above-entries l ls rs h.1 j.1 h.0 (subst (λ i. Above i (keys_of rs)) (sym same) j.0),
            entries-HasKeys ls rs h.1 j.1,
          )
  ]
]
