-- ===== src/Server/Admin/Latest.antt =====
-- packages/konduit/server/src/admin/service.rs, `sync_retainers`: the channel that a keytag should have afterwards.
use konduit.Base.{
  ℕ, ◌≡◌, refl, sym, ap, ◌∙◌, subst, ◌⊎◌, inl, inr, Bool, true, false, Option, none, some, List, [],
  ◌∷◌, All, Bytes, bytes_eq, if◌then◌else◌, Bool-cases,
}
use konduit.Base.Maps.{get}
use konduit.Data.Duration.{Duration}
use konduit.Receipt.{Receipt}
use konduit.Tx1.Channel as Tx1
use konduit.Server.Channel.{Channel, Retainer, retainer_le, max_by}
use konduit.Server.Channel.Retention.{NoHigher, max_by-best}
use konduit.Server.Db.{Table, channel_at, or_default, with_keytag}
use konduit.Server.Admin.{keys, or_empty, candidates, retainers}
use konduit.Server.Admin.Merged.{has_key, seen}
use konduit.Server.Admin.Synced.{synced}
use konduit.Server.Admin.Grouped.{joined, get-grouped}
use konduit.Server.Admin.Offered.{offered, Offer, offered-Offer, Offer-All}

-- The best of what is offered beside a receipt: an offer that no other comes higher than, or none where there is
-- no offer.
abbrev pub Best : Option Receipt → (Retainer → Type 0) → Option Retainer → Type 0
Best o Offered none = (r : Retainer) → ¬ Offered r
Best o Offered (some t) = Offered t × ((c : Retainer) → Offered c → NoHigher o c t)

-- A channel of the database, or a new one, has the best of what is offered as its retainer and is otherwise as
-- it was; a keytag of neither the database nor the chain has no channel.
abbrev pub Latest : (Retainer → Type 0) → Bytes → Option Channel → Option Channel → Type 0
Latest Offered k before after =
    ((t : Option Retainer) × (after ≡ some (record (or_default before k) { retainer = t }))
      × Best (or_default before k).receipt Offered t)
    ⊎ ((before ≡ none) × (after ≡ none) × ((r : Retainer) → ¬ Offered r))

module _ (own_vkey : Bytes) (close_period : Duration) (tag_length : ℕ) (k : Bytes)
    (chs : List Tx1.Channel) where
  offered-empty :
      offered own_vkey close_period tag_length k chs ≡ []
      → (r : Retainer) → ¬ Offer own_vkey close_period tag_length k chs r
  offered-empty e r o =
      Offer-All own_vkey close_period tag_length k (λ c. ⊥) chs r (subst (All (λ c. ⊥)) (sym e) tt)
        o

  max_by-Best :
      (o : Option Receipt)
      → Best o
          (Offer own_vkey close_period tag_length k chs)
          (max_by (retainer_le o) (offered own_vkey close_period tag_length k chs))
  unfolding max_by
  max_by-Best o = go (offered own_vkey close_period tag_length k chs) refl
    where
      go :
          (found : List Retainer)
          → offered own_vkey close_period tag_length k chs ≡ found
          → Best o (Offer own_vkey close_period tag_length k chs) (max_by (retainer_le o) found)
      go [] e = offered-empty e
      go (x ∷ cs) e =
          let (t, is, good, top) =
            max_by-best (Offer own_vkey close_period tag_length k chs) o x cs (
              subst (All (Offer own_vkey close_period tag_length k chs)) e
                (offered-Offer own_vkey close_period tag_length k chs)) in
          subst (Best o (Offer own_vkey close_period tag_length k chs)) (sym is) (
            good,
            (λ c h.
                Offer-All own_vkey close_period tag_length k (λ d. NoHigher o d t) chs c
                  (subst (All (λ d. NoHigher o d t)) (sym e) top) h),
          )

  synced-Latest :
      (before : Option Channel) (known : Bool)
      → (known ≡ true) ⊎ (before ≡ none)
      → Latest (Offer own_vkey close_period tag_length k chs) k before (
          synced k before (
            if known
            then some (or_empty (joined none (offered own_vkey close_period tag_length k chs)))
            else joined none (offered own_vkey close_period tag_length k chs)))
  synced-Latest before known h =
      go (offered own_vkey close_period tag_length k chs) refl known h
        (max_by-Best (or_default before k).receipt)
    where
      go :
          (found : List Retainer)
          → offered own_vkey close_period tag_length k chs ≡ found
          → (b : Bool) → (b ≡ true) ⊎ (before ≡ none)
          → Best (or_default before k).receipt (Offer own_vkey close_period tag_length k chs) (
              max_by
                (retainer_le (or_default before k).receipt)
                (offered own_vkey close_period tag_length k chs))
          → Latest (Offer own_vkey close_period tag_length k chs) k before (
              synced k before
                (if b then some (or_empty (joined none found)) else joined none found))
      go [] e true c best = inl (_, refl, rw e at best)
      go [] e false (inl c) best = absurd (cc c)
      go [] e false (inr c) best = inr (c, c, offered-empty e)
      go (x ∷ xs) e true c best = inl (_, refl, rw e at best)
      go (x ∷ xs) e false c best = inl (_, refl, rw e at best)

get-known : (t : Table) (k : Bytes) → (has_key k (keys t) ≡ true) ⊎ (get t k ≡ none)
unfolding get
get-known [] k = inr refl
get-known ((j, v) ∷ t) k = elim (Bool-cases (bytes_eq j k)) [
  | inl e ↦ rw e (inl refl)
  | inr e ↦ rw e (get-known t k)
]

known-or-none : (t : Table) (k : Bytes) → (has_key k (keys t) ≡ true) ⊎ (channel_at t k ≡ none)
known-or-none t k = elim (get-known t k) [ inl e ↦ inl e | inr e ↦ inr (ap (with_keytag k) e) ]

pub seen-Latest :
    (own_vkey : Bytes) (close_period : Duration) (tag_length : ℕ) (chs : List Tx1.Channel)
    (t : Table) (k : Bytes) (after : Option Channel)
    → after
      ≡ synced k (channel_at t k) (seen (keys t) (retainers own_vkey close_period tag_length chs) k)
    → Latest (Offer own_vkey close_period tag_length k chs) k (channel_at t k) after
unfolding get
seen-Latest own_vkey close_period tag_length chs t k after is =
    let found = get-grouped [] (candidates own_vkey close_period tag_length chs) k in
    let same =
      is
      ∙ ap (λ f. synced k (channel_at t k) (if has_key k (keys t) then some (or_empty f) else f))
          found in
    subst (Latest (Offer own_vkey close_period tag_length k chs) k (channel_at t k)) (sym same) (
      synced-Latest own_vkey close_period tag_length k chs (channel_at t k) (has_key k (keys t))
        (known-or-none t k))
