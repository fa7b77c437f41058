-- ===== src/Tx2/Pendings.antt =====
-- packages/konduit/tx2/src/channel.rs: the steps of a channel that has responded.
pub mod Split
use konduit.Base.{
  ℕ, ◌-◌, Bool, true, false, not, Option, none, some, List, [], ◌∷◌, map, Result, ok, err, ◌>>=◌,
  ◌>>◌, ltb, leb, if◌then◌else◌, sum64, refuse_if, is_empty, all, any, filter, zip,
}
use konduit.Data.Duration.{Duration}
use konduit.Data.Primitives.{Primitives}
use konduit.Data.Cheque.{Lock, Secret, lock_eq, lock_of}
use konduit.Data.Stage.{
  Stage, opened, closed, responded, Pending, Unpend, continue, expire, is_continue, unpend_of,
}
use konduit.Tx2.Interval.{Interval}
use konduit.Tx2.Step.{Channel, Will, WillCont, WillEol, Error, pair, no_step, bound, label}
use konduit.Tx2.Channel.{stepped, upper_of, lower_of, pending_amount}
use konduit.Tx2.Closing.{pendings_amount}

abbrev pub end_at : Interval → Stage → Result Error Will
end_at interval (responded amount []) = ok (Will.eol WillEol.end)
end_at interval (responded amount (p ∷ ps)) = do
  lower ← lower_of interval "end with pending secrets requires an interval lower bound"
  refuse_if (any (λ (q : Pending). leb lower q.timeout) (p ∷ ps))
      (bound "pending not yet timed out for interval lower")
  ok (Will.eol WillEol.end)
end_at interval stage = err (pair (label stage) "End")

unfoldable pub want_end : Channel → Interval → Result Error Will
want_end ch interval = end_at interval ch.stage

-- The pendings that continue, and those that do not.
abbrev pub remaining : List Pending → List Unpend → List Pending
remaining pendings unpends =
    map (λ pu. pu.0) (filter (λ pu. is_continue pu.1) (zip pendings unpends))

abbrev pub resolved : List Pending → List Unpend → List Pending
resolved pendings unpends =
    map (λ pu. pu.0) (filter (λ pu. not (is_continue pu.1)) (zip pendings unpends))

unfoldable pub unlock_with : Channel → List Pending → List Unpend → Will
unlock_with ch pendings unpends =
    let gain = pendings_amount (resolved pendings unpends) in
    let kept = remaining pendings unpends in
    Will.cont (stepped ch (ch.amount - gain) (responded (pendings_amount kept) kept))
      (WillCont.unlock unpends gain)

abbrev pub expire_unpend : Duration → Pending → Unpend
expire_unpend lower p = if ltb p.timeout lower then expire else continue

unfoldable pub expire_with : Channel → List Pending → List Unpend → Will
expire_with ch pendings unpends =
    let kept = remaining pendings unpends in
    let amount = pendings_amount kept in
    Will.cont (stepped ch amount (responded amount kept)) (WillCont.expire unpends)

abbrev pub expire_at : Channel → Interval → Stage → Result Error Will
expire_at ch interval (responded amount pendings) = do
  lower ← lower_of interval "expire requires an interval lower bound"
  refuse_if (all is_continue (map (expire_unpend lower) pendings)) no_step
  ok (expire_with ch pendings (map (expire_unpend lower) pendings))
expire_at ch interval stage = err (pair (label stage) "Expire")

unfoldable pub want_expire : Channel → Interval → Result Error Will
want_expire ch interval = expire_at ch interval ch.stage

module _ (P : Primitives) where
  -- The map from locks to secrets: of two secrets with one lock, the later stays.
  unfoldable pub lookup : List Secret → Lock → Option Secret
  lookup [] lock = none
  lookup (s ∷ ss) lock = elim (lookup ss lock) [
    | some t ↦ some t
    | none ↦ if lock_eq (lock_of P s) lock then some s else none
  ]

  abbrev pub unlock_unpend : List Secret → Duration → Pending → Unpend
  unlock_unpend secrets upper p =
      if leb upper p.timeout
      then continue
      else (elim (lookup secrets p.lock) [ none ↦ continue | some s ↦ unpend_of s ])

  abbrev pub unlock_at : Channel → List Secret → Interval → Stage → Result Error Will
  unlock_at ch secrets interval (responded amount pendings) = do
    upper ← upper_of interval "unlock requires an interval upper bound"
    ok (unlock_with ch pendings (map (unlock_unpend secrets upper) pendings))
  unlock_at ch secrets interval stage = err (pair (label stage) "Unlock")

  unfoldable pub want_unlock : Channel → List Secret → Interval → Result Error Will
  want_unlock ch secrets interval = unlock_at ch secrets interval ch.stage
