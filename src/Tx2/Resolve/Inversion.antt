-- ===== src/Tx2/Resolve/Inversion.antt =====
-- packages/konduit/tx2/src/channel.rs: a step that `resolve` makes is the one that its wish describes.
use konduit.Base.{
  subst, sym, ℕ, ◌+◌, ◌≤◌, ◌<◌, ◌≡◌, refl, Bool, true, false, Option, none, some, List, [], ◌∷◌,
  map, Result, ok, err, panic, All, ◌>>=◌, ◌>>◌, refuse_if, ok_or, ◌==◌, ltb, leb, any, all, arith,
  if◌then◌else◌,
}
use konduit.Data.Duration
use konduit.Data.Duration.{Duration, max_duration}
use konduit.Data.Primitives.{Primitives}
use konduit.Data.Cheque.{Cheque, Secret, Unlocked}
use konduit.Data.Signed.{Squash}
use konduit.Data.Stage.{Stage, opened, closed, responded, Pending, is_continue}
use konduit.Tx2.Interval.{Interval}
use konduit.Tx2.Step.{Channel, Want, Will, WillEol, Error, pair, bound, no_step, label}
use konduit.Tx2.Channel.{want_add, add_at, want_sub, sub_at, sub_from, lower_of}
use konduit.Tx2.Closing.{want_close, close_at, want_respond, respond_at, want_elapse, elapse_at}
use konduit.Tx2.Pendings.{
  want_end, end_at, want_unlock, unlock_at, want_expire, expire_at, expire_unpend,
}
use konduit.Tx2.Resolve.{resolve}
use konduit.Tx2.Resolve.Outcome.{
  Added, Subbed, Closed, Responded, Elapsed, TimedOut, Ended, Unlocks, Expired, Outcome,
}

-- Inversion of a test, of a bound that must be there, and of a guard.
if-err-eq-ok :
    (c : Bool) (e : Error) (m : Result Error Will) (w : Will)
    → (if c then err e else m) ≡ ok w
    → (c ≡ false) × (m ≡ ok w)
if-err-eq-ok true e m w h = cc
if-err-eq-ok false e m w h = (refl, h)

ok-injective : {A : Type 0} {a b : A} → ◌≡◌ {A = Result Error A} (ok a) (ok b) → b ≡ a
ok-injective h = cc

bounded-eq-ok :
    (o : Option Duration) (e : Error) (k : Duration → Result Error Will) (w : Will)
    → ((elim o [ none ↦ err e | some b ↦ ok b ]) >>= k) ≡ ok w
    → (b : Duration) × (o ≡ some b) × (k b ≡ ok w)
bounded-eq-ok none e k w h = cc
bounded-eq-ok (some b) e k w h = (b, refl, h)

guarded-eq-ok :
    (c : Bool) (e : Error) (m : Result Error Will) (w : Will)
    → (refuse_if c e >> m) ≡ ok w
    → (c ≡ false) × (m ≡ ok w)
guarded-eq-ok true e m w h = cc
guarded-eq-ok false e m w h = (refl, h)

added : (ch : Channel) (amount : ℕ) (w : Will) → want_add ch amount ≡ ok w → Added ch amount w
unfolding want_add
added ch amount w h = at ch.stage refl h
  where
    at : (s : Stage) → ch.stage ≡ s → add_at ch amount s ≡ ok w → Added ch amount w
    at (opened subbed useds) e k =
        let (guard, made) = if-err-eq-ok (amount == 0) no_step _ w k in
        (subbed, useds, e, guard, rw e (ok-injective made))
    at (closed _ _ _) e k = cc
    at (responded _ _) e k = cc

subbed :
    (ch : Channel) (i : Interval) (squash : Squash) (cheques : List Unlocked) (w : Will)
    → want_sub ch squash cheques i ≡ ok w
    → Subbed ch i squash cheques w
unfolding want_sub sub_from
subbed ch i squash cheques w h = at ch.stage refl h
  where
    at :
        (s : Stage)
        → ch.stage ≡ s
        → sub_at ch squash cheques i s ≡ ok w
        → Subbed ch i squash cheques w
    at (opened before useds) e k =
        let (upper, u, rest) = bounded-eq-ok i.upper _ _ w k in
        let (guard, made) = if-err-eq-ok _ no_step _ w rest in
        (before, useds, upper, e, u, guard, ok-injective made)
    at (closed _ _ _) e k = cc
    at (responded _ _) e k = cc

add-eq-ok :
    (a b : Duration) (k : Duration → Result Error Will) (w : Will)
    → (Duration.add a b >>= k) ≡ ok w
    → (a + b ≤ max_duration) × (k (a + b) ≡ ok w)
unfolding Duration.add
add-eq-ok a b k w h = fit (ltb max_duration (a + b)) refl h
  where
    fit :
        (c : Bool)
        → ltb max_duration (a + b) ≡ c
        → ((if c then panic else ok (a + b)) >>= k) ≡ ok w
        → (a + b ≤ max_duration) × (k (a + b) ≡ ok w)
    fit true e m = cc
    fit false e m = (ground arith, m)

want_close-Closed :
    (ch : Channel) (i : Interval) (w : Will) → want_close ch i ≡ ok w → Closed ch i w
unfolding want_close
want_close-Closed ch i w h = at ch.stage refl h
  where
    at : (s : Stage) → ch.stage ≡ s → close_at ch i s ≡ ok w → Closed ch i w
    at (opened before useds) e k =
        let (upper, u, rest) = bounded-eq-ok i.upper _ _ w k in
        let (fits, made) = add-eq-ok upper ch.constants.close_period _ w rest in
        (before, useds, upper, e, u, fits, ok-injective made)
    at (closed _ _ _) e k = cc
    at (responded _ _) e k = cc

leb-false : (a b : ℕ) → leb a b ≡ false → b < a
leb-false a b h = ground arith

want_respond-Responded :
    (ch : Channel) (i : Interval) (squash : Squash) (cheques : List Cheque) (w : Will)
    → want_respond ch squash cheques i ≡ ok w
    → Responded ch i squash cheques w
unfolding want_respond
want_respond-Responded ch i squash cheques w h = at ch.stage refl h
  where
    at :
        (s : Stage)
        → ch.stage ≡ s
        → respond_at ch squash cheques i s ≡ ok w
        → Responded ch i squash cheques w
    at (closed before useds elapse_at) e k =
        let (upper, u, rest) = bounded-eq-ok i.upper _ _ w k in
        let (guard, made) = guarded-eq-ok (leb elapse_at upper) _ _ w rest in
        (before, useds, elapse_at, upper, e, u, leb-false elapse_at upper guard, ok-injective made)
    at (opened _ _) e k = cc
    at (responded _ _) e k = cc

want_elapse-Elapsed :
    (ch : Channel) (i : Interval) (w : Will) → want_elapse ch i ≡ ok w → Elapsed ch i w
unfolding want_elapse
want_elapse-Elapsed ch i w h = at ch.stage refl h
  where
    at :
        (s : Stage)
        → ch.stage ≡ s
        → (ok_or (elapse_at s) (pair (label s) "Elapse") >>= λ at.
            lower_of i "elapse requires an interval lower bound" >>= λ lower.
            refuse_if (leb lower at) (bound "elapse lower not strictly after elapse_at")
            >> ok (Will.eol (WillEol.elapse lower)))
          ≡ ok w
        → Elapsed ch i w
    at (closed before useds elapse_at) e k =
        let (lower, l, rest) = bounded-eq-ok i.lower _ _ w k in
        let (guard, made) = guarded-eq-ok (leb lower elapse_at) _ _ w rest in
        (before, useds, elapse_at, lower, e, l, leb-false lower elapse_at guard, ok-injective made)
    at (opened _ _) e k = cc
    at (responded _ _) e k = cc

any-leb-false :
    (lower : Duration) (ps : List Pending)
    → any (λ (q : Pending). leb lower q.timeout) ps ≡ false
    → All (TimedOut (some lower)) ps
any-leb-false lower [] h = tt
any-leb-false lower (p ∷ ps) h = (ground arith, any-leb-false lower ps (ground arith))

want_end-Ended : (ch : Channel) (i : Interval) (w : Will) → want_end ch i ≡ ok w → Ended ch i w
unfolding want_end
want_end-Ended ch i w h = at ch.stage refl h
  where
    at : (s : Stage) → ch.stage ≡ s → end_at i s ≡ ok w → Ended ch i w
    at (responded amount []) e k = (amount, [], e, tt, ok-injective k)
    at (responded amount (p ∷ ps)) e k =
        let (lower, l, rest) = bounded-eq-ok i.lower _ _ w k in
        let (guard, made) =
          guarded-eq-ok (any (λ (q : Pending). leb lower q.timeout) (p ∷ ps)) _ _ w rest in
        (
          amount,
          p ∷ ps,
          e,
          subst (λ o. All (TimedOut o) (p ∷ ps)) (sym l) (any-leb-false lower (p ∷ ps) guard),
          ok-injective made,
        )
    at (opened _ _) e k = cc
    at (closed _ _ _) e k = cc

want_unlock-Unlocks :
    (P : Primitives) (ch : Channel) (i : Interval) (secrets : List Secret) (w : Will)
    → want_unlock P ch secrets i ≡ ok w
    → Unlocks P ch i secrets w
unfolding want_unlock
want_unlock-Unlocks P ch i secrets w h = at ch.stage refl h
  where
    at : (s : Stage) → ch.stage ≡ s → unlock_at P ch secrets i s ≡ ok w → Unlocks P ch i secrets w
    at (responded amount ps) e k =
        let (upper, u, made) = bounded-eq-ok i.upper _ _ w k in
        (amount, ps, upper, e, u, ok-injective made)
    at (opened _ _) e k = cc
    at (closed _ _ _) e k = cc

want_expire-Expired :
    (ch : Channel) (i : Interval) (w : Will) → want_expire ch i ≡ ok w → Expired ch i w
unfolding want_expire
want_expire-Expired ch i w h = at ch.stage refl h
  where
    at : (s : Stage) → ch.stage ≡ s → expire_at ch i s ≡ ok w → Expired ch i w
    at (responded amount ps) e k =
        let (lower, l, rest) = bounded-eq-ok i.lower _ _ w k in
        let (guard, made) =
          guarded-eq-ok (all is_continue (map (expire_unpend lower) ps)) no_step _ w rest in
        (amount, ps, lower, e, l, guard, ok-injective made)
    at (opened _ _) e k = cc
    at (closed _ _ _) e k = cc

pub resolve-Outcome :
    (P : Primitives) (ch : Channel) (want : Want) (i : Interval) (w : Will)
    → resolve P ch want i ≡ ok w
    → Outcome P ch want i w
unfolding resolve
resolve-Outcome P ch (Want.add amount) i w h = added ch amount w h
resolve-Outcome P ch (Want.sub squash cheques) i w h = subbed ch i squash cheques w h
resolve-Outcome P ch Want.close i w h = want_close-Closed ch i w h
resolve-Outcome P ch (Want.respond squash cheques) i w h =
    want_respond-Responded ch i squash cheques w h
resolve-Outcome P ch Want.end i w h = want_end-Ended ch i w h
resolve-Outcome P ch Want.elapse i w h = want_elapse-Elapsed ch i w h
resolve-Outcome P ch (Want.unlock secrets) i w h = want_unlock-Unlocks P ch i secrets w h
resolve-Outcome P ch Want.expire i w h = want_expire-Expired ch i w h
