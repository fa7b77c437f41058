-- ===== src/Tx2/Resolve/Legal.antt =====
-- packages/konduit/tx2/src/channel.rs: which wish a stage allows, which `can` lists and `resolve` decides.
use Prim.Native.String.{String}
use konduit.Base.{◌≡◌, refl, Bool, true, false, List, ok, err, any}
use konduit.Data.Primitives.{Primitives}
use konduit.Data.Cheque.{Cheque}
use konduit.Data.Signed.{Squash}
use konduit.Data.Stage.{Stage, opened, closed, responded}
use konduit.Tx2.Interval.{Interval}
use konduit.Tx2.Step.{Channel, Can, Want, Will, WillCont, WillEol, pair, label, from_claim}
use konduit.Tx2.Channel.{can, want_add, want_sub}
use konduit.Tx2.Closing.{want_close, want_respond, want_elapse}
use konduit.Tx2.Pendings.{want_end, want_unlock, want_expire, unlock_with, expire_with}
use konduit.Tx2.Closing.{respond_from}
use konduit.Tx2.Resolve.{resolve}
use konduit.Tx2.Resolve.Inversion.{resolve-Outcome}

-- The wish that an entry of `can` stands for.
abbrev pub offers : Can → Want → Bool
offers Can.add (Want.add _) = true
offers (Can.sub _) (Want.sub _ _) = true
offers Can.close Want.close = true
offers (Can.respond _ _) (Want.respond _ _) = true
offers Can.end Want.end = true
offers (Can.elapse _) Want.elapse = true
offers Can.unlock (Want.unlock _) = true
offers Can.expire Want.expire = true
offers _ _ = false

abbrev IsOffered : Channel → Want → Type 0
IsOffered ch want = any (λ c. offers c want) (can ch) ≡ true

-- A wish that `resolve` fulfils is one that `can` offers.
resolve-IsOffered :
    (P : Primitives) (ch : Channel) (want : Want) (i : Interval) (w : Will)
    → resolve P ch want i ≡ ok w
    → IsOffered ch want
unfolding can
resolve-IsOffered P ch (Want.add amount) i w h =
    let stage = (resolve-Outcome P ch (Want.add amount) i w h).2 in rw stage refl
resolve-IsOffered P ch (Want.sub squash cheques) i w h =
    let stage = (resolve-Outcome P ch (Want.sub squash cheques) i w h).3 in rw stage refl
resolve-IsOffered P ch Want.close i w h =
    let stage = (resolve-Outcome P ch Want.close i w h).3 in rw stage refl
resolve-IsOffered P ch (Want.respond squash cheques) i w h =
    let stage = (resolve-Outcome P ch (Want.respond squash cheques) i w h).4 in rw stage refl
resolve-IsOffered P ch Want.end i w h =
    let stage = (resolve-Outcome P ch Want.end i w h).2 in rw stage refl
resolve-IsOffered P ch Want.elapse i w h =
    let stage = (resolve-Outcome P ch Want.elapse i w h).4 in rw stage refl
resolve-IsOffered P ch (Want.unlock secrets) i w h =
    let stage = (resolve-Outcome P ch (Want.unlock secrets) i w h).3 in rw stage refl
resolve-IsOffered P ch Want.expire i w h =
    let stage = (resolve-Outcome P ch Want.expire i w h).3 in rw stage refl

abbrev want_label : Want → String
want_label (Want.add _) = "Add"
want_label (Want.sub _ _) = "Sub"
want_label Want.close = "Close"
want_label (Want.respond _ _) = "Respond"
want_label Want.end = "End"
want_label Want.elapse = "Elapse"
want_label (Want.unlock _) = "Unlock"
want_label Want.expire = "Expire"

-- A wish that can does not offer is refused by resolve with the labels of the stage and of the wish.
pub resolve-not-offered :
    (P : Primitives) (ch : Channel) (want : Want) (i : Interval)
    → any (λ c. offers c want) (can ch) ≡ false
    → resolve P ch want i ≡ err (pair (label ch.stage) (want_label want))
unfolding can resolve want_add want_sub want_close want_respond want_end want_elapse want_unlock
    want_expire
resolve-not-offered P ch want i h = at want ch.stage h
  where
    at :
        (v : Want) (s : Stage)
        → any (λ c. offers c v) (can (record ch { stage = s })) ≡ false
        → resolve P (record ch { stage = s }) v i ≡ err (pair (label s) (want_label v))
    at (Want.add n) (opened _ _) k = cc
    at (Want.add n) (closed _ _ _) k = refl
    at (Want.add n) (responded _ _) k = refl
    at (Want.sub q cs) (opened _ _) k = cc
    at (Want.sub q cs) (closed _ _ _) k = refl
    at (Want.sub q cs) (responded _ _) k = refl
    at Want.close (opened _ _) k = cc
    at Want.close (closed _ _ _) k = refl
    at Want.close (responded _ _) k = refl
    at (Want.respond q cs) (opened _ _) k = refl
    at (Want.respond q cs) (closed _ _ _) k = cc
    at (Want.respond q cs) (responded _ _) k = refl
    at Want.elapse (opened _ _) k = refl
    at Want.elapse (closed _ _ _) k = cc
    at Want.elapse (responded _ _) k = refl
    at Want.end (opened _ _) k = refl
    at Want.end (closed _ _ _) k = refl
    at Want.end (responded _ _) k = cc
    at (Want.unlock ss) (opened _ _) k = refl
    at (Want.unlock ss) (closed _ _ _) k = refl
    at (Want.unlock ss) (responded _ _) k = cc
    at Want.expire (opened _ _) k = refl
    at Want.expire (closed _ _ _) k = refl
    at Want.expire (responded _ _) k = cc

-- The wish that a claim makes at the stage of a channel is one that can offers.
from_claim-IsOffered :
    (ch : Channel) (squash : Squash) (cheques : List Cheque)
    → IsOffered ch (from_claim ch.stage squash cheques)
unfolding can from_claim
from_claim-IsOffered ch squash cheques = at ch.stage
  where
    at :
        (s : Stage)
        → any (λ c. offers c (from_claim s squash cheques)) (can (record ch { stage = s })) ≡ true
    at (opened _ _) = refl
    at (closed _ _ _) = refl
    at (responded _ _) = refl

abbrev IsOpened : Stage → Type 0
IsOpened (opened _ _) = Unit
IsOpened _ = ⊥

abbrev IsClosed : Stage → Type 0
IsClosed (closed _ _ _) = Unit
IsClosed _ = ⊥

abbrev IsResponded : Stage → Type 0
IsResponded (responded _ _) = Unit
IsResponded _ = ⊥

-- The stages before and after a step.
abbrev Follows : Stage → Will → Type 0
Follows (opened _ _) (Will.cont out (WillCont.add _)) = IsOpened out.stage
Follows (opened _ _) (Will.cont out (WillCont.sub _ _ _)) = IsOpened out.stage
Follows (opened _ _) (Will.cont out WillCont.close) = IsClosed out.stage
Follows (closed _ _ _) (Will.cont out (WillCont.respond _ _ _)) = IsResponded out.stage
Follows (closed _ _ _) (Will.eol (WillEol.elapse _)) = Unit
Follows (responded _ _) (Will.cont out (WillCont.unlock _ _)) = IsResponded out.stage
Follows (responded _ _) (Will.cont out (WillCont.expire _)) = IsResponded out.stage
Follows (responded _ _) (Will.eol WillEol.end) = Unit
Follows _ _ = ⊥

-- A step that resolve makes leads from its stage to the stage that follows: add and sub keep a
-- channel open, close closes it, respond answers a closed one, unlock and expire keep a channel
-- responded, elapse ends a closed and end a responded one.
resolve-Follows :
    (P : Primitives) (ch : Channel) (want : Want) (i : Interval) (w : Will)
    → resolve P ch want i ≡ ok w
    → Follows ch.stage w
unfolding respond_from unlock_with expire_with
resolve-Follows P ch (Want.add amount) i w h =
    let o = resolve-Outcome P ch (Want.add amount) i w h in rw o.4 (rw o.2 tt)
resolve-Follows P ch (Want.sub squash cheques) i w h =
    let o = resolve-Outcome P ch (Want.sub squash cheques) i w h in rw (o.6, o.3) tt
resolve-Follows P ch Want.close i w h =
    let o = resolve-Outcome P ch Want.close i w h in rw (o.6, o.3) tt
resolve-Follows P ch (Want.respond squash cheques) i w h =
    let o = resolve-Outcome P ch (Want.respond squash cheques) i w h in rw (o.7, o.4) tt
resolve-Follows P ch Want.end i w h =
    let o = resolve-Outcome P ch Want.end i w h in rw (o.4, o.2) tt
resolve-Follows P ch Want.elapse i w h =
    let o = resolve-Outcome P ch Want.elapse i w h in rw (o.7, o.4) tt
resolve-Follows P ch (Want.unlock secrets) i w h =
    let o = resolve-Outcome P ch (Want.unlock secrets) i w h in rw (o.5, o.3) tt
resolve-Follows P ch Want.expire i w h =
    let o = resolve-Outcome P ch Want.expire i w h in rw (o.6, o.3) tt
