-- ===== src/Tx2/Resolve/Kept.antt =====
-- packages/konduit/tx2/src/channel.rs: what its steps keep of a channel, and the totals that they write down.
use konduit.Base.{◌<◌, ◌≡◌, refl, subst, ok, u64_mod, sum64-eq}
use konduit.Data.Primitives.{Primitives}
use konduit.Tx2.Interval.{Interval}
use konduit.Tx2.Step.{Channel, Want, Will}
use konduit.Tx2.Channel.{pending_amount}
use konduit.Tx2.Closing.{respond_from}
use konduit.Tx2.Pendings.{unlock_with, expire_with}
use konduit.Tx2.Pendings.Split.{pendings_total, IsBalanced}
use konduit.Tx2.Resolve.{resolve}
use konduit.Tx2.Resolve.Inversion.{resolve-Outcome}

-- What a continuing step keeps: the constants, the delegation and the currency.
abbrev Keeps : Channel → Will → Type 0
Keeps ch (Will.cont out step) =
    (out.constants ≡ ch.constants) × (out.delegation ≡ ch.delegation) × (out.currency ≡ ch.currency)
Keeps ch (Will.eol step) = Unit

-- A step that continues keeps the constants, the delegation and the currency of the channel.
resolve-Keeps :
    (P : Primitives) (ch : Channel) (want : Want) (i : Interval) (w : Will)
    → resolve P ch want i ≡ ok w
    → Keeps ch w
unfolding respond_from unlock_with expire_with
resolve-Keeps P ch (Want.add amount) i w h =
    let (_, _, _, _, made) = resolve-Outcome P ch (Want.add amount) i w h in
    rw made (refl, refl, refl)
resolve-Keeps P ch (Want.sub squash cheques) i w h =
    let (_, _, _, _, _, _, made) = resolve-Outcome P ch (Want.sub squash cheques) i w h in
    rw made (refl, refl, refl)
resolve-Keeps P ch Want.close i w h =
    let (_, _, _, _, _, _, made) = resolve-Outcome P ch Want.close i w h in
    rw made (refl, refl, refl)
resolve-Keeps P ch (Want.respond squash cheques) i w h =
    let (_, _, _, _, _, _, _, made) = resolve-Outcome P ch (Want.respond squash cheques) i w h in
    rw made (refl, refl, refl)
resolve-Keeps P ch Want.end i w h =
    let (_, _, _, _, made) = resolve-Outcome P ch Want.end i w h in rw made tt
resolve-Keeps P ch Want.elapse i w h =
    let (_, _, _, _, _, _, _, made) = resolve-Outcome P ch Want.elapse i w h in rw made tt
resolve-Keeps P ch (Want.unlock secrets) i w h =
    let (_, _, _, _, _, made) = resolve-Outcome P ch (Want.unlock secrets) i w h in
    rw made (refl, refl, refl)
resolve-Keeps P ch Want.expire i w h =
    let (_, _, _, _, _, _, made) = resolve-Outcome P ch Want.expire i w h in
    rw made (refl, refl, refl)

abbrev PendingsFit : Will → Type 0
PendingsFit (Will.cont out step) = pendings_total out.stage < u64_mod
PendingsFit (Will.eol step) = Unit

abbrev Balanced : Will → Type 0
Balanced (Will.cont out step) = IsBalanced out.stage
Balanced (Will.eol step) = Unit

-- A step that resolve makes writes down the total of the pendings beside them, where that total fits
-- in 64 bits.
pub resolve-Balanced :
    (P : Primitives) (ch : Channel) (want : Want) (i : Interval) (w : Will)
    → PendingsFit w
    → resolve P ch want i ≡ ok w
    → Balanced w
unfolding respond_from unlock_with expire_with
resolve-Balanced P ch (Want.add amount) i w fits h =
    let o = resolve-Outcome P ch (Want.add amount) i w h in rw o.4 (rw o.2 tt)
resolve-Balanced P ch (Want.sub squash cheques) i w fits h =
    let o = resolve-Outcome P ch (Want.sub squash cheques) i w h in rw o.6 tt
resolve-Balanced P ch Want.close i w fits h =
    let o = resolve-Outcome P ch Want.close i w h in rw o.6 tt
resolve-Balanced P ch (Want.respond squash cheques) i w fits h =
    let o = resolve-Outcome P ch (Want.respond squash cheques) i w h in
    let room = subst PendingsFit o.7 fits in rw o.7 (sum64-eq pending_amount _ room)
resolve-Balanced P ch Want.end i w fits h = let o = resolve-Outcome P ch Want.end i w h in rw o.4 tt
resolve-Balanced P ch Want.elapse i w fits h =
    let o = resolve-Outcome P ch Want.elapse i w h in rw o.7 tt
resolve-Balanced P ch (Want.unlock secrets) i w fits h =
    let o = resolve-Outcome P ch (Want.unlock secrets) i w h in
    let room = subst PendingsFit o.5 fits in rw o.5 (sum64-eq pending_amount _ room)
resolve-Balanced P ch Want.expire i w fits h =
    let o = resolve-Outcome P ch Want.expire i w h in
    let room = subst PendingsFit o.6 fits in rw o.6 (sum64-eq pending_amount _ room)
