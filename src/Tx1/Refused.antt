-- ===== src/Tx1/Refused.antt =====
-- packages/konduit/tx/src/channel.rs, `unlock_with_secrets`, against packages/kernel/lib/konduit/steps/unlock.ak.
use konduit.Base.{
  ℕ, ◌-◌, ◌<◌, ◌≡◌, refl, ap, subst, true, some, List, [], ◌∷◌, map, ok, all, u64_mod, Bytes,
}
use konduit.Data.Duration.{Duration, from_millis}
use konduit.Data.Primitives.{Primitives}
use konduit.Data.Cheque.{Secret}
use konduit.Data.Redeemer.{Cont}
use konduit.Data.Stage.{
  Constants, responded, Pending, Unpend, continue, expire, unlock, is_continue,
}
use konduit.Tx2.Kernel.{Account, Unlock, Unlocks, Pend, pend_of, datum}
use konduit.Tx2.Kernel.Refused.{unpend, Account-all-continue}
use konduit.Tx2.Pendings.{resolved}
use konduit.Tx1.Variables.{Variables, StepTo, variables, amounts, from_upper}
use konduit.Tx1.Channel.{Channel, Stepped, SteppedElseChannel, stepped, unlock_with_secrets}

-- Where all pendings continue, the script wants all of them back, and none is resolved.
Account-continues :
    (Settles : Pend → Unpend → Type 0) (us : List Unpend) (ins outs : List Pend) (n : ℕ)
    → all is_continue us ≡ true
    → Account Settles us ins outs n
    → ins ≡ outs
Account-continues Settles [] ins outs n h (same, _) = same
Account-continues Settles (continue ∷ us) [] outs n h account = absurd account
Account-continues Settles (continue ∷ us) (p ∷ ps) outs n h (rest, made, account) =
    let same = Account-continues Settles us ps rest n h account in cc
Account-continues Settles (expire ∷ us) ins outs n h account = cc
Account-continues Settles (unlock b ∷ us) ins outs n h account = cc

resolved-continues :
    (ps : List Pending) (us : List Unpend) → all is_continue us ≡ true → resolved ps us ≡ []
resolved-continues [] us h = refl
resolved-continues (p ∷ ps) [] h = refl
resolved-continues (p ∷ ps) (continue ∷ us) h = resolved-continues ps us h
resolved-continues (p ∷ ps) (expire ∷ us) h = cc
resolved-continues (p ∷ ps) (unlock b ∷ us) h = cc

-- What a step that is made is of.
unlocks-step :
    (ch : Channel) (us vs : List Unpend) (v w : Variables) (upper : Duration) (s : Stepped)
    → ◌≡◌ {A = SteppedElseChannel}
        (ok (stepped ch (StepTo.cont (Cont.unlock vs) w) (from_upper upper)))
        (ok s)
    → s.step_to ≡ StepTo.cont (Cont.unlock us) v
    → (us ≡ vs) × (v ≡ w)
unlocks-step ch us vs v w upper s made named = (cc, cc)

-- The script on chain refuses every unlock that the first version makes of a channel with pendings,
-- whether it resolves some of them or none, whatever the amounts and the key, where the upper bound is
-- whole milliseconds that fit in 64 bits.
pub unlock_with_secrets-refused :
    (P : Primitives) (constants : Constants) (held owed : ℕ) (p : Pending) (ps : List Pending)
    (secrets : List Secret) (millis : ℕ) (s : Stepped) (us : List Unpend) (v : Variables)
    (value_in value_out : ℕ) (key : Bytes)
    → millis < u64_mod
    → unlock_with_secrets P
        (record { constants = constants; variables = variables held (responded owed (p ∷ ps)) })
        secrets
        (from_millis millis)
      ≡ ok s
    → s.step_to ≡ StepTo.cont (Cont.unlock us) v
    → ¬ Unlock P
        (some millis)
        constants
        value_in
        (datum (responded owed (p ∷ ps)))
        value_out
        (datum v.stage)
        us
        key
unfolding unlock_with_secrets
unlock_with_secrets-refused P constants held owed p ps secrets millis s us v value_in value_out key
      in_clock made named accepted =
    let start : Channel = record {
      constants = constants;
      variables = variables held (responded owed (p ∷ ps));
    } in
    let unpends = map (unpend P secrets millis) (p ∷ ps) in
    let kept = resolved (p ∷ ps) unpends in
    let after : Variables = variables (held - amounts kept) (responded (amounts kept) kept) in
    let (same_us, same_v) =
      unlocks-step start us unpends v after (from_millis millis) s made named in
    let Demands : List Unpend → Variables → Type 0 = λ xs w.
      Unlock P (some millis) constants value_in (datum (responded owed (p ∷ ps))) value_out
        (datum w.stage) xs key in
    let (n, account, _, _, _) =
      subst (λ xs. Demands xs after) same_us (subst (λ w. Demands us w) same_v accepted) in
    let continues =
      Account-all-continue P secrets millis (p ∷ ps) (map pend_of kept) n in_clock account in
    let none_left : map pend_of kept ≡ [] =
      ap (map pend_of) (resolved-continues (p ∷ ps) unpends continues) in
    let all_back =
      Account-continues (Unlocks P (some millis)) unpends (map pend_of (p ∷ ps)) (map pend_of kept)
        n continues account in
    cc
