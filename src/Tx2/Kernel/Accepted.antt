-- ===== src/Tx2/Kernel/Accepted.antt =====
-- packages/konduit/tx2/src/channel.rs against packages/kernel/lib/konduit/steps: the script accepts
-- what `resolve` makes of a wish.
use konduit.Base.{
  ℕ, ◌+◌, ◌*◌, ◌<◌, ◌≤◌, ◌≡◌, refl, subst, false, Option, none, some, List, [], ◌∷◌, map, ok, total,
  All, arith, ltb, u64_mod, add64, add64-eq, sum64-eq, ◌==◌, Bool-cases, inl, inr,
}
use konduit.Data.Duration.{Duration, as_millis}
use konduit.Data.Primitives.{Primitives}
use konduit.Data.Stage.{responded, Pending, Unpend}
use konduit.Tx2.Interval.{Interval}
use konduit.Tx2.Step.{Channel, Want, Will, WillCont, signer, is_adaptor}
use konduit.Tx2.Channel.{stepped, buffered_amount, min_ada_buffer, pending_amount}
use konduit.Tx2.Closing.{pendings_amount}
use konduit.Tx2.Pendings.{expire_with, expire_unpend, remaining, resolved}
use konduit.Tx2.Pendings.Split.{total-remaining-resolved, pendings_total, IsBalanced}
use konduit.Tx2.Resolve.{resolve}
use konduit.Tx2.Resolve.Inversion.{resolve-Outcome}
use konduit.Tx2.Resolve.Outcome.{TimedOut}
use konduit.Tx2.Kernel.{Add, Close, Elapse, End, Expire, Account, Expires, Pend, datum, pend_of}

-- A time whose milliseconds fit in a word.
abbrev pub InClock : Duration → Type 0
InClock d = d < u64_mod * 1000000

abbrev pub bound_of : Option Duration → Option ℕ
bound_of none = none
bound_of (some d) = some (as_millis d)

pub as_millis_mono : (a b : Duration) → a ≤ b → InClock b → as_millis a ≤ as_millis b
unfolding as_millis
as_millis_mono a b h in_clock = omega arith

-- The time at which a close lets the channel elapse.
abbrev close_time : Option Duration → Duration → Duration
close_time none period = 0
close_time (some upper) period = upper + period

abbrev expired : Channel → Duration → List Pending → Channel
expired ch lower ps =
    let kept = remaining ps (map (expire_unpend lower) ps) in
    stepped ch (pendings_amount kept) (responded (pendings_amount kept) kept)

-- An expiry leaves the amount and the pendings that the script computes.
expire-Account :
    (lower : Duration) (ps : List Pending)
    → InClock lower
    → Account
        (Expires (some (as_millis lower)))
        (map (expire_unpend lower) ps)
        (map pend_of ps)
        (map pend_of (remaining ps (map (expire_unpend lower) ps)))
        (total pending_amount (resolved ps (map (expire_unpend lower) ps)))
expire-Account lower [] in_clock = (refl, refl)
expire-Account lower (p ∷ ps) in_clock =
    let rest = expire-Account lower ps in_clock in
    elim (Bool-cases (ltb p.timeout lower)) [
      | inl e ↦ rw e (as_millis_mono p.timeout lower (ground arith) in_clock, _, refl, rest)
      | inr e ↦ rw e (_, refl, rest)
    ]

add-grows :
    (ch : Channel) (amount : ℕ)
    → (amount == 0) ≡ false
    → ch.amount + amount + min_ada_buffer < u64_mod
    → add64 ch.amount min_ada_buffer < add64 (add64 ch.amount amount) min_ada_buffer
add-grows ch amount guard fits = ground (
  arith,
  add64-eq ch.amount amount (omega arith),
  add64-eq ch.amount min_ada_buffer (omega arith),
  add64-eq (ch.amount + amount) min_ada_buffer (omega arith),
)

close-later :
    (upper period : Duration)
    → InClock (upper + period)
    → as_millis upper + as_millis period ≤ as_millis (upper + period)
unfolding as_millis
close-later upper period in_clock = omega arith

expired-Expire :
    (ch : Channel) (lower : Duration) (amount : ℕ) (ps : List Pending)
    → InClock lower
    → amount ≡ total pending_amount ps
    → total pending_amount ps + min_ada_buffer < u64_mod
    → Expire min_ada_buffer
        (some (as_millis lower))
        ch.constants
        (datum (responded amount ps))
        (buffered_amount (expired ch lower ps))
        (datum (expired ch lower ps).stage)
        (map (expire_unpend lower) ps)
        ch.constants.add_vkey
unfolding buffered_amount
expired-Expire ch lower amount ps in_clock balanced fits =
    let us = map (expire_unpend lower) ps in
    let split = total-remaining-resolved (expire_unpend lower) ps in
    let kept = sum64-eq pending_amount (remaining ps us) (omega (arith, split)) in
    (
      _,
      expire-Account lower ps in_clock,
      omega (arith, split, kept),
      omega (arith, split, kept, add64-eq (pendings_amount (remaining ps us)) min_ada_buffer),
      refl,
    )

-- The script on chain accepts every addition that resolve makes, where the amount with the buffer
-- fits in 64 bits.
add-accepted :
    (P : Primitives) (ch : Channel) (i : Interval) (amount : ℕ) (w : Will)
    → ch.amount + amount + min_ada_buffer < u64_mod
    → resolve P ch (Want.add amount) i ≡ ok w
    → (out : Channel) × (w ≡ Will.cont out (WillCont.add amount))
      × Add ch.constants
          (buffered_amount ch)
          (datum ch.stage)
          (buffered_amount out)
          (datum out.stage)
          (signer w ch.constants)
unfolding buffered_amount signer is_adaptor
add-accepted P ch i amount w fits h =
    let (subbed, useds, stage, guard, made) = resolve-Outcome P ch (Want.add amount) i w h in
    let grow = add-grows ch amount guard fits in (_, made, rw made (rw stage (refl, grow, refl)))

-- The script on chain accepts every close that resolve makes, where the time at which the channel
-- may elapse fits in 64 bits as milliseconds.
close-accepted :
    (P : Primitives) (ch : Channel) (i : Interval) (w : Will)
    → InClock (close_time i.upper ch.constants.close_period)
    → resolve P ch Want.close i ≡ ok w
    → (out : Channel) × (w ≡ Will.cont out WillCont.close)
      × Close
          (bound_of i.upper)
          ch.constants
          (buffered_amount ch)
          (datum ch.stage)
          (buffered_amount out)
          (datum out.stage)
          (signer w ch.constants)
unfolding signer is_adaptor buffered_amount
close-accepted P ch i w fits h =
    let (subbed, useds, upper, stage, u, _, made) = resolve-Outcome P ch Want.close i w h in
    let in_clock = subst (λ o. InClock (close_time o ch.constants.close_period)) u fits in
    let later = close-later upper ch.constants.close_period in_clock in
    (_, made, rw made (rw (stage, u) (refl, refl, omega arith, later, refl)))

-- The script on chain accepts every elapse that resolve makes, for a lower bound that fits in 64
-- bits as milliseconds.
elapse-accepted :
    (P : Primitives) (ch : Channel) (i : Interval) (lower : Duration) (w : Will)
    → i.lower ≡ some lower
    → InClock lower
    → resolve P ch Want.elapse i ≡ ok w
    → Elapse (some (as_millis lower)) ch.constants (datum ch.stage) (signer w ch.constants)
unfolding signer is_adaptor
elapse-accepted P ch i lower w bounded in_clock h =
    let (subbed, useds, at, l, stage, e, late, made) = resolve-Outcome P ch Want.elapse i w h in
    let same : l ≡ lower = cc in
    let as_late = as_millis_mono at lower (omega arith) in_clock in
    rw made (rw stage (as_late, refl))

TimedOut-All :
    (lower : Duration) (ps : List Pending)
    → InClock lower
    → All (TimedOut (some lower)) ps
    → All (λ (p : Pend). p.timeout ≤ as_millis lower) (map pend_of ps)
TimedOut-All lower [] in_clock h = tt
TimedOut-All lower (p ∷ ps) in_clock h = (
  as_millis_mono p.timeout lower (omega (arith, h.0)) in_clock,
  TimedOut-All lower ps in_clock h.1,
)

-- The script on chain accepts every end that resolve makes, for a lower bound that fits in 64 bits
-- as milliseconds.
end-accepted :
    (P : Primitives) (ch : Channel) (i : Interval) (lower : Duration) (w : Will)
    → i.lower ≡ some lower
    → InClock lower
    → resolve P ch Want.end i ≡ ok w
    → End (some (as_millis lower)) ch.constants (datum ch.stage) (signer w ch.constants)
unfolding signer is_adaptor
end-accepted P ch i lower w bounded in_clock h =
    let (amount, ps, stage, timed_out, made) = resolve-Outcome P ch Want.end i w h in
    let passed = subst (λ o. All (TimedOut o) ps) bounded timed_out in
    rw made (rw stage (TimedOut-All lower ps in_clock passed, refl))

-- The script on chain accepts every expiry that resolve makes, where the stage holds the total of
-- its pendings, that total with the buffer fits in 64 bits, and the lower bound fits in 64 bits as
-- milliseconds.
pub expire-accepted :
    (P : Primitives) (ch : Channel) (i : Interval) (lower : Duration) (w : Will)
    → i.lower ≡ some lower
    → InClock lower
    → IsBalanced ch.stage
    → pendings_total ch.stage + min_ada_buffer < u64_mod
    → resolve P ch Want.expire i ≡ ok w
    → (out : Channel) × (us : List Unpend) × (w ≡ Will.cont out (WillCont.expire us))
      × Expire min_ada_buffer
          (some (as_millis lower))
          ch.constants
          (datum ch.stage)
          (buffered_amount out)
          (datum out.stage)
          us
          (signer w ch.constants)
unfolding buffered_amount signer is_adaptor expire_with
expire-accepted P ch i lower w bounded in_clock balanced fits h =
    let (amount, ps, l, stage, e, _, made) = resolve-Outcome P ch Want.expire i w h in
    let same : l ≡ lower = cc in
    let made_at = subst (λ b. w ≡ expire_with ch ps (map (expire_unpend b) ps)) same made in
    let even = subst IsBalanced stage balanced in
    let room = subst (λ s. pendings_total s + min_ada_buffer < u64_mod) stage fits in
    (
      expired ch lower ps,
      map (expire_unpend lower) ps,
      made_at,
      rw made_at (rw stage (expired-Expire ch lower amount ps in_clock even room)),
    )
