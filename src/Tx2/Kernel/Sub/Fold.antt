-- ===== src/Tx2/Kernel/Sub/Fold.antt =====
-- packages/kernel/lib/konduit/steps/sub.ak, `account`: the fold goes through on a history that is woven.
use konduit.Base.{
  ℕ, ◌+◌, ◌<◌, ◌≡◌, refl, true, Option, some, List, [], ◌∷◌, All, Bytes, arith, total,
}
use konduit.Base.Ascending.{IsAscending}
use konduit.Data.Duration.{as_millis}
use konduit.Data.Primitives.{Primitives}
use konduit.Data.Cheque.{Unlocked}
use konduit.Data.Stage.{Used, used_of}
use konduit.Tx2.Channel.{used_amount}
use konduit.Tx2.Kernel.Evidence.{
  Later, Allows, next_index, next_index-Allows, is_unlocked, is_before,
}
use konduit.Tx2.Kernel.Sub.{State, state, drop_until, taken, with_used, with_state, fold}
use konduit.Tx2.Kernel.Sub.Weave.{Weave, done, skip, keep, take}

drop_until-Later : (i : ℕ) (us : List Used) → Later i us → drop_until i us ≡ us
unfolding drop_until
drop_until-Later i [] h = refl
drop_until-Later i (u ∷ us) h = ground (arith, h.0)

drop_until-first : (u : Used) (us : List Used) → drop_until u.index (u ∷ us) ≡ u ∷ us
unfolding drop_until
drop_until-first u us = ground arith

drop_until-lower :
    (u : Used) (i : ℕ) (us : List Used) → u.index < i → drop_until i (u ∷ us) ≡ drop_until i us
unfolding drop_until
drop_until-lower u i us h = ground arith

module _ (P : Primitives) (upper : Option ℕ) (key tag : Bytes) where
  -- A cheque that the script takes.
  abbrev pub IsGood : Unlocked → Type 0
  IsGood w = (is_unlocked P key tag w ≡ true) × (is_before upper (as_millis w.body.timeout) ≡ true)

  persisted :
      (u : Used) (owed : ℕ) (us : List Used) (ws : List Unlocked) (index : ℕ) (exclude : List ℕ)
      → with_used P upper key tag u owed (u ∷ us) ws index exclude
        ≡ taken (owed + u.amount) us ws (next_index index exclude u.index)
  persisted u owed us ws index exclude = ground arith

  handled :
      (w : Unlocked) (owed : ℕ) (us : List Used) (ws : List Unlocked) (index : ℕ) (exclude : List ℕ)
      → IsGood w
      → Later w.body.index us
      → with_used P upper key tag (used_of w) owed us (w ∷ ws) index exclude
        ≡ taken (w.body.amount + owed) us ws (next_index index exclude w.body.index)
  handled w owed [] ws index exclude (good, soon) h = ground (arith, good, soon)
  handled w owed (u ∷ us) ws index exclude (good, soon) h = ground (arith, good, soon, h.0)

  -- What has been added to what is owed once the fold is over.
  abbrev pub Folds : List Used → State → ℕ → Type 0
  Folds outs s n = (t : State) × (fold P upper key tag outs s ≡ some t) × (t.owed ≡ s.owed + n)

  Folds-skip :
      (u : Used) (outs ins : List Used) (ws : List Unlocked) (owed index n : ℕ) (exclude : List ℕ)
      → Later u.index outs
      → Folds outs (state owed ins ws index exclude) n
      → Folds outs (state owed (u ∷ ins) ws index exclude) n
  unfolding fold
  Folds-skip u [] ins ws owed index n exclude h (t, e, sum) =
      let same : owed ≡ t.owed = cc in (_, refl, omega (arith, same, sum))
  Folds-skip u (o ∷ outs) ins ws owed index n exclude h (t, e, sum) =
      (t, rw (fold, drop_until-lower u o.index ins h.0) e, sum)

  Folds-step :
      (o : Used) (outs : List Used) (s : State) (t : State) (n m : ℕ)
      → with_state P upper key tag o s ≡ some t
      → t.owed ≡ s.owed + m
      → Folds outs t n
      → Folds (o ∷ outs) s (m + n)
  unfolding fold
  Folds-step o outs s t n m e sum (last, f, more) = (last, rw (fold, e) f, omega (arith, sum, more))

  -- A woven history goes through, and all that it holds is added.
  pub weave-Folds :
      {ins : List Used} {ws : List Unlocked} {outs : List Used} (owed index : ℕ) (exclude : List ℕ)
      → IsAscending exclude
      → Allows index exclude outs
      → All IsGood ws
      → Weave ins ws outs
      → Folds outs (state owed ins ws index exclude) (total used_amount outs)
  unfolding fold
  weave-Folds owed index exclude a h good done = (_, refl, omega arith)
  weave-Folds owed index exclude a h good (skip u {ins} {ws} {outs} later rest) =
      Folds-skip u outs ins ws owed index (total used_amount outs) exclude later
        (weave-Folds owed index exclude a h good rest)
  weave-Folds owed index exclude a h good (keep u {ins} {ws} {outs} later rest) =
      let (i, ex, next, up, allows) =
        next_index-Allows index exclude u.index outs a h.0 later h.1 in
      let s = state owed (u ∷ ins) ws index exclude in
      Folds-step u outs s (state (owed + u.amount) ins ws i ex) (total used_amount outs) u.amount
        (rw (drop_until-first u ins) (rw (persisted u owed ins ws index exclude) (rw next refl)))
        refl (weave-Folds (owed + u.amount) i ex up allows good rest)
  weave-Folds owed index exclude a h good (take w {ins} {ws} {outs} below later rest) =
      let (i, ex, next, up, allows) =
        next_index-Allows index exclude w.body.index outs a h.0 later h.1 in
      let s = state owed ins (w ∷ ws) index exclude in
      Folds-step (used_of w) outs s (state (w.body.amount + owed) ins ws i ex)
        (total used_amount outs) w.body.amount
        (rw (drop_until-Later w.body.index ins below)
          (rw (handled w owed ins ws index exclude good.0 below) (rw next refl)))
        (omega arith) (weave-Folds (w.body.amount + owed) i ex up allows good.1 rest)
