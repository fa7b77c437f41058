-- ===== src/Tx2/Resolve/Gains.antt =====
-- packages/konduit/tx2/src/channel.rs: what each step may do to the amount of a channel, and the sums behind it.
use konduit.Base.{
  ℕ, ◌+◌, ◌-◌, ◌<◌, ◌≤◌, ◌≡◌, refl, sym, ap, ◌∙◌, subst, ◌⊎◌, inl, inr, Bool, true, false, Option,
  some, List, [], ◌∷◌, map, filter, All, total, ltb, leb, ◌==◌, arith, u64_mod, add64, sum64,
  add64-eq, sum64-eq, Bool-cases,
}
use konduit.Data.Duration.{Duration}
use konduit.Data.Signed.{Squash}
use konduit.Data.Stage.{Stage, opened, closed, responded, Used, Pending, Unpend}
use konduit.Tx2.Interval.{Interval}
use konduit.Tx2.Step.{Channel, Want, Will, WillCont, WillEol}
use konduit.Tx2.Channel.{pending_amount, used_amount, gain_of}
use konduit.Tx2.Closing.{pendings_amount}
use konduit.Tx2.Pendings.{expire_unpend, remaining, resolved}
use konduit.Tx2.Pendings.Split.{pendings_total, IsBalanced, total-remaining-resolved}
use konduit.Tx2.Resolve.Outcome.{TimedOut}

-- A gain is all that is owed beyond what was subbed, as far as the channel holds it.
abbrev pub IsGain : ℕ → ℕ → ℕ → ℕ → Type 0
IsGain held owed subbed gain =
    ((gain ≡ held) × (held + subbed ≤ owed))
    ⊎ ((gain + subbed ≡ owed) × (gain ≤ held))
    ⊎ ((gain ≡ 0) × (owed ≤ subbed))

abbrev pub Subs : Channel → Squash → Channel → ℕ → Type 0
Subs ch squash out gain =
    (subbed : ℕ) × (before after : List Used) × (ch.stage ≡ opened subbed before)
    × (out.stage ≡ opened (subbed + gain) after)
    × (0 < gain)
    × IsGain ch.amount (squash.body.amount + total used_amount after) subbed gain
    × (out.amount + gain ≡ ch.amount)

abbrev pub Unlocking : Channel → Channel → ℕ → Type 0
Unlocking ch out gain =
    (amount : ℕ) × (pendings kept : List Pending) × (ch.stage ≡ responded amount pendings)
    × (out.stage ≡ responded (total pending_amount kept) kept)
    × (gain + total pending_amount kept ≡ total pending_amount pendings)
    × (out.amount ≡ ch.amount - gain)

abbrev pub Expiring : Channel → Option Duration → Channel → Type 0
Expiring ch lower out =
    (amount : ℕ) × (pendings : List Pending) × (at : Duration) × (lower ≡ some at)
    × (ch.stage ≡ responded amount pendings)
    × (out.amount ≡ total pending_amount (filter (λ p. leb at p.timeout) pendings))
    × (out.stage
        ≡ responded (total pending_amount (filter (λ p. leb at p.timeout) pendings))
            (filter (λ p. leb at p.timeout) pendings))

abbrev pub Pays : Channel → Interval → Want → Will → Type 0
Pays ch i (Want.add n) (Will.cont out (WillCont.add m)) =
    (m ≡ n) × (0 < n) × (out.amount ≡ ch.amount + n) × (out.stage ≡ ch.stage)
Pays ch i (Want.sub squash cheques) (Will.cont out (WillCont.sub signed taken gain)) =
    (signed ≡ squash) × Subs ch squash out gain
Pays ch i Want.close (Will.cont out WillCont.close) =
    (subbed : ℕ) × (useds : List Used) × (at : Duration) × (ch.stage ≡ opened subbed useds)
    × (out.stage ≡ closed subbed useds at)
    × (out.amount ≡ ch.amount)
Pays ch i (Want.respond squash cheques) (Will.cont out (WillCont.respond signed taken gain)) =
    (signed ≡ squash) × (out.amount + gain ≡ ch.amount) × IsBalanced out.stage
Pays ch i (Want.unlock secrets) (Will.cont out (WillCont.unlock unpends gain)) =
    Unlocking ch out gain
Pays ch i Want.expire (Will.cont out (WillCont.expire unpends)) = Expiring ch i.lower out
Pays ch i Want.end (Will.eol WillEol.end) =
    (amount : ℕ) × (pendings : List Pending) × (ch.stage ≡ responded amount pendings)
    × All (TimedOut i.lower) pendings
Pays ch i Want.elapse (Will.eol (WillEol.elapse lower)) =
    (subbed : ℕ) × (useds : List Used) × (at : Duration) × (ch.stage ≡ closed subbed useds at)
    × (at < lower)
Pays _ _ _ _ = ⊥

abbrev used_total : Stage → ℕ
used_total (opened subbed useds) = total used_amount useds
used_total _ = 0

abbrev subbed_of : Stage → ℕ
subbed_of (opened subbed useds) = subbed
subbed_of _ = 0

-- The sums that a step makes fit in 64 bits.
abbrev pub Fits : Channel → Will → Type 0
Fits ch (Will.cont out (WillCont.add n)) = ch.amount + n < u64_mod
Fits ch (Will.cont out (WillCont.sub squash taken gain)) =
    (squash.body.amount + used_total out.stage < u64_mod)
    × (subbed_of ch.stage + ch.amount < u64_mod)
Fits ch (Will.cont out (WillCont.respond squash taken gain)) = pendings_total out.stage < u64_mod
Fits ch (Will.cont out (WillCont.unlock unpends gain)) = pendings_total ch.stage < u64_mod
Fits ch (Will.cont out (WillCont.expire unpends)) = pendings_total ch.stage < u64_mod
Fits ch _ = Unit

gain_of-IsGain :
    (ch : Channel) (owed subbed : ℕ) → IsGain ch.amount owed subbed (gain_of ch owed subbed)
gain_of-IsGain ch owed subbed = ground arith

gain_of-le : (ch : Channel) (owed subbed : ℕ) → gain_of ch owed subbed ≤ ch.amount
gain_of-le ch owed subbed = ground arith

pub sub-Subs :
    (ch out : Channel) (squash : Squash) (subbed : ℕ) (before after : List Used) (gain : ℕ)
    → squash.body.amount + total used_amount after < u64_mod
    → subbed + ch.amount < u64_mod
    → ch.stage ≡ opened subbed before
    → gain ≡ gain_of ch (add64 squash.body.amount (sum64 used_amount after)) subbed
    → (gain == 0) ≡ false
    → out.amount ≡ ch.amount - gain
    → out.stage ≡ opened (add64 subbed gain) after
    → Subs ch squash out gain
sub-Subs ch out squash subbed before after gain fits room from is some_gain amount stage =
    let owed : add64 squash.body.amount (sum64 used_amount after)
        ≡ squash.body.amount + total used_amount after =
      ap (add64 squash.body.amount) (sum64-eq used_amount after (omega arith))
      ∙ add64-eq squash.body.amount (total used_amount after) fits in
    let so = is ∙ ap (λ o. gain_of ch o subbed) owed in
    let most = gain_of-le ch (squash.body.amount + total used_amount after) subbed in
    let sum = add64-eq subbed gain (omega (arith, so, most)) in
    (
      subbed,
      before,
      after,
      from,
      stage ∙ ap (λ n. opened n after) sum,
      ground (arith, some_gain),
      subst (IsGain ch.amount (squash.body.amount + total used_amount after) subbed) (sym so)
          (gain_of-IsGain ch (squash.body.amount + total used_amount after) subbed),
      omega (arith, amount, so, most),
    )

pub remaining-filter :
    (at : Duration) (ps : List Pending)
    → remaining ps (map (expire_unpend at) ps) ≡ filter (λ p. leb at p.timeout) ps
remaining-filter at [] = refl
remaining-filter at (p ∷ ps) = elim (Bool-cases (ltb p.timeout at)) [
  | inl e ↦
      let late : leb at p.timeout ≡ false = ground (arith, e) in
      rw (e, late) (remaining-filter at ps)
  | inr e ↦
      let soon : leb at p.timeout ≡ true = ground (arith, e) in
      rw (e, soon) (ap (λ qs. p ∷ qs) (remaining-filter at ps))
]

pub total-filter :
    (p : Pending → Bool) (ps : List Pending)
    → total pending_amount (filter p ps) ≤ total pending_amount ps
total-filter p [] = omega arith
total-filter p (x ∷ xs) = elim (Bool-cases (p x)) [
  | inl e ↦ rw e (omega (arith, total-filter p xs))
  | inr e ↦ rw e (omega (arith, total-filter p xs))
]

pub unlock-Unlocking :
    (ch : Channel) (f : Pending → Unpend) (amount : ℕ) (ps : List Pending) (out : Channel)
    (gain : ℕ)
    → total pending_amount ps < u64_mod
    → ch.stage ≡ responded amount ps
    → gain ≡ pendings_amount (resolved ps (map f ps))
    → out.amount ≡ ch.amount - gain
    → out.stage ≡ responded (pendings_amount (remaining ps (map f ps))) (remaining ps (map f ps))
    → Unlocking ch out gain
unlock-Unlocking ch f amount ps out gain fits from is left stage =
    let split = total-remaining-resolved f ps in
    let paid = sum64-eq pending_amount (resolved ps (map f ps)) (omega (arith, split)) in
    let kept = sum64-eq pending_amount (remaining ps (map f ps)) (omega (arith, split)) in
    (
      amount,
      ps,
      remaining ps (map f ps),
      from,
      stage ∙ ap (λ n. responded n (remaining ps (map f ps))) kept,
      omega (arith, split, paid, is),
      left,
    )
