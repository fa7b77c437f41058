-- ===== src/Tx2/Kernel/Refused.antt =====
-- packages/konduit/tx2/src/channel.rs, `want_unlock`, against packages/kernel/lib/konduit/steps/unlock.ak:
-- the two read the timeout of a pending in opposite directions.
use konduit.Base.{
  ℕ, ◌<◌, ◌≡◌, refl, subst, true, false, some, List, [], ◌∷◌, map, ok, all, arith, u64_mod, Bytes,
}
use konduit.Data.Duration.{Duration, as_millis, from_millis}
use konduit.Data.Primitives.{Primitives}
use konduit.Data.Cheque.{Secret}
use konduit.Data.Stage.{responded, Pending, Unpend, continue, expire, unlock, is_continue}
use konduit.Tx2.Interval.{Interval}
use konduit.Tx2.Step.{Channel, Want, Will, WillCont}
use konduit.Tx2.Pendings.{unlock_unpend, unlock_with}
use konduit.Tx2.Resolve.{resolve}
use konduit.Tx2.Resolve.Inversion.{resolve-Outcome}
use konduit.Tx2.Kernel.{Account, Unlock, Unlocks, Datum, Pend, pend_of, datum}

module _ (P : Primitives) (secrets : List Secret) (millis : ℕ) where
  abbrev pub unpend : Pending → Unpend
  unpend p = unlock_unpend P secrets (from_millis millis) p

  -- What does not continue has timed out before the bound.
  unlock-late : (p : Pending) (b : Bytes) → unpend p ≡ unlock b → p.timeout < from_millis millis
  unlock-late p b e = ground (arith, e)

  expire-absent : (p : Pending) → unpend p ≡ expire → ⊥
  expire-absent p e = ground (arith, e)

  millis-late : (d : Duration) → millis < u64_mod → d < from_millis millis → as_millis d < millis
  unfolding as_millis
  millis-late d h k = omega arith

  pub Account-all-continue :
      (ps : List Pending) (pends_out : List Pend) (n : ℕ)
      → millis < u64_mod
      → Account (Unlocks P (some millis)) (map unpend ps) (map pend_of ps) pends_out n
      → all is_continue (map unpend ps) ≡ true
  Account-all-continue [] pends_out n in_clock h = refl
  Account-all-continue (p ∷ ps) pends_out n in_clock h =
      go (unpend p) refl (λ out m k. Account-all-continue ps out m in_clock k) h
    where
      go :
          (u : Unpend)
          → unpend p ≡ u
          → ((out : List Pend) (m : ℕ)
              → Account (Unlocks P (some millis)) (map unpend ps) (map pend_of ps) out m
              → all is_continue (map unpend ps) ≡ true)
          → Account (Unlocks P (some millis)) (u ∷ map unpend ps) (map pend_of (p ∷ ps)) pends_out n
          → all is_continue (u ∷ map unpend ps) ≡ true
      go continue e rest (out, _, k) = rest out n k
      go expire e rest k = absurd (expire-absent p e)
      go (unlock b) e rest ((_, _, late), _, _, _) =
          absurd (omega (arith, late, millis-late p.timeout in_clock (unlock-late p b e)))

  -- What the script demands of an unlock has the fold over the unpends in it.
  Unlock-Account :
      (ch : Channel) (amount value_in value_out : ℕ) (ps : List Pending) (stage_out : Datum)
      (us : List Unpend) (key : Bytes)
      → Unlock P
          (some millis)
          ch.constants
          value_in
          (datum (responded amount ps))
          value_out
          stage_out
          us
          key
      → (out : List Pend) × (n : ℕ) × Account (Unlocks P (some millis)) us (map pend_of ps) out n
  Unlock-Account ch amount value_in value_out ps (Datum.responded a out) us key
        (n, account, _, _, _) =
      (out, n, account)
  Unlock-Account ch amount value_in value_out ps (Datum.opened _ _) us key h = absurd h
  Unlock-Account ch amount value_in value_out ps (Datum.closed _ _ _) us key h = absurd h

unlocks-unpends :
    (ch out : Channel) (us vs : List Unpend) (ps : List Pending) (gain : ℕ)
    → Will.cont out (WillCont.unlock us gain) ≡ unlock_with ch ps vs
    → us ≡ vs
unfolding unlock_with
unlocks-unpends ch out us vs ps gain h = cc

-- The script on chain refuses every unlock that resolve makes and that resolves at least one
-- pending, whatever the amounts and the key, where the upper bound is whole milliseconds that fit in
-- 64 bits.
pub unlock-refused :
    (P : Primitives) (ch : Channel) (i : Interval) (secrets : List Secret) (millis : ℕ)
    (out : Channel) (us : List Unpend) (gain value_in value_out : ℕ) (key : Bytes)
    → i.upper ≡ some (from_millis millis)
    → millis < u64_mod
    → resolve P ch (Want.unlock secrets) i ≡ ok (Will.cont out (WillCont.unlock us gain))
    → all is_continue us ≡ false
    → ¬ Unlock P
        (some millis)
        ch.constants
        value_in
        (datum ch.stage)
        value_out
        (datum out.stage)
        us
        key
unfolding unlock_with
unlock-refused P ch i secrets millis out us gain value_in value_out key bounded in_clock h
      some_resolved accepted =
    let (amount, ps, upper, stage, u, made) = resolve-Outcome P ch (Want.unlock secrets) i _ h in
    let same : upper ≡ from_millis millis = cc in
    let unpends : us ≡ map (unpend P secrets millis) ps =
      subst (λ b. us ≡ map (unlock_unpend P secrets b) ps) same
        (unlocks-unpends ch out us _ ps gain made) in
    let (pends, n, account) =
      Unlock-Account P secrets millis ch amount value_in value_out ps (datum out.stage) us key (
        subst
          (λ s.
            Unlock P (some millis) ch.constants value_in (datum s) value_out (datum out.stage) us
              key)
          stage accepted) in
    let continues =
      Account-all-continue P secrets millis ps pends n in_clock (
        subst (λ v. Account (Unlocks P (some millis)) v (map pend_of ps) pends n) unpends
          account) in
    cc
