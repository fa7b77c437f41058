-- ===== src/Server/Admin/Offered.antt =====
-- packages/konduit/server/src/admin/service.rs, `retainers`: which of the channels on chain the service takes over,
-- and as what.
use konduit.Base.{
  ℕ, ◌≤◌, ◌≡◌, refl, sym, ◌∙◌, ap, subst, ◌⊎◌, inl, inr, true, false, List, [], ◌∷◌, ◌++◌, length,
  All, Bytes, bytes_eq, bytes_eq_self, bytes_eq→eq, arith, Bool-cases,
}
use konduit.Data.Duration.{Duration}
use konduit.Data.Stage.{Stage, Used, opened, closed, responded}
use konduit.Tx1.Channel as Tx1
use konduit.Server.Channel.{Retainer}
use konduit.Server.Admin.{candidates, is_candidate, is_opened}
use konduit.Server.Admin.Grouped.{of_key}

-- Some item of a list has the predicate.
abbrev pub Some : {A : Type 0} → (A → Type 0) → List A → Type 0
Some P [] = ⊥
Some P (x ∷ xs) = P x ⊎ Some P xs

-- A channel on chain is for this adaptor, with a close period that is long enough and a tag that is short
-- enough, is opened, and has the keytag; the retainer has what it holds.
pub record Offers (own_vkey : Bytes) (close_period : Duration) (tag_length : ℕ) (k : Bytes)
    (r : Retainer) (ch : Tx1.Channel) : Type 0 where
  pub adaptor : ch.constants.sub_vkey ≡ own_vkey
  pub period : close_period ≤ ch.constants.close_period
  pub tag : length ch.constants.tag ≤ tag_length
  pub keytag : ch.constants.add_vkey ++ ch.constants.tag ≡ k
  pub stage : ch.variables.stage ≡ opened r.subbed r.useds
  pub amount : ch.variables.amount ≡ r.amount

abbrev retainer_in : ℕ → ℕ → List Used → Retainer
retainer_in amount subbed useds = record { amount = amount; subbed = subbed; useds = useds }

retainer_in-eq :
    (c : Retainer) (amount subbed : ℕ) (useds : List Used)
    → c.amount ≡ amount
    → c.subbed ≡ subbed
    → c.useds ≡ useds
    → c ≡ retainer_in amount subbed useds
retainer_in-eq c amount subbed useds a s u =
    ap (λ x. retainer_in x c.subbed c.useds) a
    ∙ ap (λ x. retainer_in amount x c.useds) s
    ∙ ap (retainer_in amount subbed) u

module _ (own_vkey : Bytes) (close_period : Duration) (tag_length : ℕ) (k : Bytes) where
  abbrev pub offered : List Tx1.Channel → List Retainer
  offered chs = of_key k (candidates own_vkey close_period tag_length chs)

  abbrev pub Offer : List Tx1.Channel → Retainer → Type 0
  Offer chs r = Some (Offers own_vkey close_period tag_length k r) chs

  Offers-is_candidate :
      {r : Retainer} (ch : Tx1.Channel)
      → Offers own_vkey close_period tag_length k r ch
      → is_candidate own_vkey close_period tag_length ch ≡ true
  Offers-is_candidate ch o =
      let same : bytes_eq ch.constants.sub_vkey own_vkey ≡ true =
        rw o.adaptor (bytes_eq_self own_vkey) in
      let begun : is_opened ch.variables.stage ≡ true = rw o.stage refl in
      ground (arith, same, begun, o.period, o.tag)

  -- What one channel adds to what is found: a retainer that it offers, or nothing where it offers none.
  abbrev Adds : Tx1.Channel → Type 0
  Adds ch =
      ((r : Retainer) × Offers own_vkey close_period tag_length k r ch
        × ((c : Retainer) → Offers own_vkey close_period tag_length k c ch → c ≡ r)
        × ((chs : List Tx1.Channel) → offered (ch ∷ chs) ≡ r ∷ offered chs))
      ⊎ (((r : Retainer) → ¬ Offers own_vkey close_period tag_length k r ch)
          × ((chs : List Tx1.Channel) → offered (ch ∷ chs) ≡ offered chs))

  Adds-opened :
      (ch : Tx1.Channel) (subbed : ℕ) (useds : List Used)
      → is_candidate own_vkey close_period tag_length ch ≡ true
      → ch.variables.stage ≡ opened subbed useds
      → Adds ch
  unfolding mathlib.Core.List.filter_map
  Adds-opened ch subbed useds good e =
      elim (Bool-cases (bytes_eq (ch.constants.add_vkey ++ ch.constants.tag) k)) [
        | inl same ↦ inl (
          retainer_in ch.variables.amount subbed useds,
          record {
            adaptor = bytes_eq→eq ch.constants.sub_vkey own_vkey (ground (arith, good));
            period = ground (arith, good);
            tag = ground (arith, good);
            keytag = bytes_eq→eq (ch.constants.add_vkey ++ ch.constants.tag) k same;
            stage = e;
            amount = refl;
          },
          (λ c o.
              retainer_in-eq c ch.variables.amount subbed useds (sym o.amount) (cc (e, o.stage))
                (cc (e, o.stage))),
          (λ chs. rw (good, e, same) refl),
        )
        | inr other ↦ inr (
          (λ r o.
              let held : bytes_eq (ch.constants.add_vkey ++ ch.constants.tag) k ≡ true =
                rw o.keytag (bytes_eq_self k) in
              cc (other, held)),
          (λ chs. rw (good, e, other) refl),
        )
      ]

  adds : (ch : Tx1.Channel) → Adds ch
  adds ch = elim (Bool-cases (is_candidate own_vkey close_period tag_length ch)) [
    | inr bad ↦ inr ((λ r o. cc (bad, Offers-is_candidate ch o)), (λ chs. rw bad refl))
    | inl good ↦ go ch.variables.stage good refl
  ]
    where
      go :
          (s : Stage)
          → is_candidate own_vkey close_period tag_length ch ≡ true
          → ch.variables.stage ≡ s
          → Adds ch
      go (opened subbed useds) good e = Adds-opened ch subbed useds good e
      go (closed subbed useds elapse_at) good e =
          let shut : is_opened ch.variables.stage ≡ false = rw e refl in
          absurd (ground (arith, good, shut))
      go (responded amount pendings) good e =
          let shut : is_opened ch.variables.stage ≡ false = rw e refl in
          absurd (ground (arith, good, shut))

  All-later :
      (ch : Tx1.Channel) (chs : List Tx1.Channel) (rs : List Retainer)
      → All (Offer chs) rs
      → All (Offer (ch ∷ chs)) rs
  All-later ch chs [] h = tt
  All-later ch chs (r ∷ rs) h = (inr h.0, All-later ch chs rs h.1)

  -- Every retainer that is found for a keytag is offered by a channel on chain.
  pub offered-Offer : (chs : List Tx1.Channel) → All (Offer chs) (offered chs)
  offered-Offer [] = tt
  offered-Offer (ch ∷ chs) =
      let later = All-later ch chs (offered chs) (offered-Offer chs) in
      elim (adds ch) [
        | inl (r, o, _, more) ↦ subst (All (Offer (ch ∷ chs))) (sym (more chs)) (inl o, later)
        | inr (none_here, same) ↦ subst (All (Offer (ch ∷ chs))) (sym (same chs)) later
      ]

  -- What holds of all that is found holds of every retainer that is offered.
  pub Offer-All :
      (P : Retainer → Type 0) (chs : List Tx1.Channel) (c : Retainer)
      → All P (offered chs)
      → Offer chs c
      → P c
  Offer-All P [] c h o = absurd o
  Offer-All P (ch ∷ chs) c h (inr o) = elim (adds ch) [
    | inl (r, _, _, more) ↦ Offer-All P chs c (subst (All P) (more chs) h).1 o
    | inr (_, same) ↦ Offer-All P chs c (subst (All P) (same chs) h) o
  ]
  Offer-All P (ch ∷ chs) c h (inl o) = elim (adds ch) [
    | inl (r, _, only, more) ↦ subst P (sym (only c o)) (subst (All P) (more chs) h).0
    | inr (none_here, _) ↦ absurd (none_here c o)
  ]
