-- ===== src/Tx2/Pendings/Split.antt =====
-- packages/konduit/tx2/src/channel.rs: how an unlock and an expiry divide the pendings of a channel.
use konduit.Base.{ℕ, ◌+◌, ◌≡◌, refl, List, [], ◌∷◌, map, total, arith}
use konduit.Data.Stage.{Stage, responded, Pending, Unpend, continue, expire, unlock}
use konduit.Tx2.Channel.{pending_amount}
use konduit.Tx2.Pendings.{remaining, resolved}

step_split :
    (u : Unpend) (p : Pending) (ps : List Pending) (us : List Unpend)
    → total pending_amount (remaining (p ∷ ps) (u ∷ us))
        + total pending_amount (resolved (p ∷ ps) (u ∷ us))
      ≡ p.amount + (total pending_amount (remaining ps us) + total pending_amount (resolved ps us))
step_split continue p ps us = omega arith
step_split expire p ps us = omega arith
step_split (unlock b) p ps us = omega arith

-- Each pending continues or is resolved, once.
pub total-remaining-resolved :
    (f : Pending → Unpend) (ps : List Pending)
    → total pending_amount (remaining ps (map f ps)) + total pending_amount (resolved ps (map f ps))
      ≡ total pending_amount ps
total-remaining-resolved f [] = refl
total-remaining-resolved f (p ∷ ps) =
    omega (arith, step_split (f p) p ps (map f ps), total-remaining-resolved f ps)

-- The total of a stage that has responded is that of its pendings.
abbrev pub pendings_total : Stage → ℕ
pendings_total (responded amount pendings) = total pending_amount pendings
pendings_total _ = 0

abbrev pub IsBalanced : Stage → Type 0
IsBalanced (responded amount pendings) = amount ≡ total pending_amount pendings
IsBalanced _ = Unit
