-- ===== src/Tx2/Kernel/Respond/Fold.antt =====
-- packages/kernel/lib/konduit/steps/respond.ak, `account`: the fold goes through on cheques and used items
-- that are threaded.
use konduit.Base.{
  ℕ, ◌+◌, ◌<◌, ◌≡◌, refl, ap, true, Option, some, List, [], ◌∷◌, map, All, Bytes, bytes_eq_self,
  filter_map, ◌==◌, arith, total,
}
use konduit.Base.Ascending.{IsAscending}
use konduit.Data.Duration.{as_millis}
use konduit.Data.Primitives.{Primitives}
use konduit.Data.Cheque
use konduit.Data.Cheque.{Cheque, Locked, Unlocked, locked, unlocked, as_locked}
use konduit.Data.Signed.{Squash, cheque_verifies, squash_verifies}
use konduit.Data.Stage.{Used, pending_of}
use konduit.Tx2.Channel.{used_amount}
use konduit.Tx2.Kernel.{Pend, pend_of}
use konduit.Tx2.Kernel.Evidence.{
  Later, Allows, next_index, next_index-Allows, is_unlocked, is_before,
}
use konduit.Tx2.Kernel.Respond.{State, state, reduce_useds, is_pend_of, with_cheque, fold, account}
use konduit.Tx2.Kernel.Respond.Thread.{Thread, done, before, next}

reduce_useds-Later :
    (useds : List Used) (ub owed index : ℕ) (exclude : List ℕ)
    → Later ub useds
    → reduce_useds useds ub owed index exclude ≡ some (owed, useds, index, exclude)
unfolding reduce_useds
reduce_useds-Later [] ub owed index exclude h = refl
reduce_useds-Later (u ∷ useds) ub owed index exclude h = ground (arith, h.0)

reduce_useds-before :
    (u : Used) (useds : List Used) (ub owed index i : ℕ) (exclude ex : List ℕ)
    → u.index < ub
    → next_index index exclude u.index ≡ some (i, ex)
    → reduce_useds (u ∷ useds) ub owed index exclude ≡ reduce_useds useds ub (owed + u.amount) i ex
unfolding reduce_useds
reduce_useds-before u useds ub owed index i exclude ex h e = ground (arith, e)

abbrev pub locked_pend : Locked → Pend
locked_pend l = pend_of (pending_of l)

abbrev pub pends_of : List Cheque → List Pend
pends_of cs = map locked_pend (filter_map as_locked cs)

abbrev pub locked_amount : Locked → ℕ
locked_amount l = l.body.amount

module _ (P : Primitives) (upper : Option ℕ) (key tag : Bytes) where
  -- A cheque that the script takes.
  abbrev pub IsGood : Cheque → Type 0
  IsGood (unlocked w) =
      (is_unlocked P key tag w ≡ true) × (is_before upper (as_millis w.body.timeout) ≡ true)
  IsGood (locked l) = cheque_verifies P key tag l.body l.signature ≡ true

  abbrev start : ℕ → List Used → ℕ → List ℕ → ℕ → List Cheque → State
  start owed useds index exclude pending cs = state owed useds index exclude pending (pends_of cs)

  with_cheque-before :
      (c : Cheque) (u : Used) (useds : List Used) (owed index i pending : ℕ) (exclude ex : List ℕ)
      (pends : List Pend)
      → u.index < Cheque.index c
      → next_index index exclude u.index ≡ some (i, ex)
      → with_cheque P upper key tag c (state owed (u ∷ useds) index exclude pending pends)
        ≡ with_cheque P upper key tag c (state (owed + u.amount) useds i ex pending pends)
  with_cheque-before (unlocked w) u useds owed index i pending exclude ex pends h e =
      rw (reduce_useds-before u useds w.body.index owed index i exclude ex h e) refl
  with_cheque-before (locked l) u useds owed index i pending exclude ex pends h e =
      rw (reduce_useds-before u useds l.body.index owed index i exclude ex h e) refl

  -- What the fold ends in: what has been added to what is owed and to what is pending.
  abbrev pub Folds : List Cheque → State → ℕ → ℕ → Type 0
  Folds cs s n m =
      (t : State) × (fold P upper key tag cs s ≡ some t)
      × (t.owed ≡ s.owed + n)
      × (t.pending ≡ s.pending + m)
      × (t.pends ≡ [])

  Folds-before :
      (c : Cheque) (cs : List Cheque) (u : Used) (useds : List Used) (owed index i pending n m : ℕ)
      (exclude ex : List ℕ) (pends : List Pend)
      → u.index < Cheque.index c
      → next_index index exclude u.index ≡ some (i, ex)
      → Folds (c ∷ cs) (state (owed + u.amount) useds i ex pending pends) n m
      → Folds (c ∷ cs) (state owed (u ∷ useds) index exclude pending pends) (u.amount + n) m
  unfolding fold
  Folds-before c cs u useds owed index i pending n m exclude ex pends h e
        (t, made, sum, more, rest) =
      (
        t,
        rw (fold, with_cheque-before c u useds owed index i pending exclude ex pends h e) made,
        omega (arith, sum),
        more,
        rest,
      )

  Folds-next :
      (c : Cheque) (cs : List Cheque) (s t : State) (n m a b x y : ℕ)
      → with_cheque P upper key tag c s ≡ some t
      → t.owed ≡ s.owed + a
      → t.pending ≡ s.pending + b
      → Folds cs t n m
      → x ≡ a + n
      → y ≡ b + m
      → Folds (c ∷ cs) s x y
  unfolding fold
  Folds-next c cs s t n m a b x y e owes pends (last, f, sum, more, left) ex ey =
      (last, rw (fold, e) f, omega (arith, owes, sum, ex), omega (arith, pends, more, ey), left)

  with_cheque-unlocked :
      (w : Unlocked) (useds : List Used) (owed index i pending : ℕ) (exclude ex : List ℕ)
      (pends : List Pend)
      → IsGood (unlocked w)
      → Later w.body.index useds
      → next_index index exclude w.body.index ≡ some (i, ex)
      → with_cheque P upper key tag (unlocked w) (state owed useds index exclude pending pends)
        ≡ some (state (owed + w.body.amount) useds i ex pending pends)
  with_cheque-unlocked w useds owed index i pending exclude ex pends (good, soon) h e =
      rw (good, reduce_useds-Later useds w.body.index owed index exclude h, soon, e) refl

  with_cheque-locked :
      (l : Locked) (useds : List Used) (owed index i pending : ℕ) (exclude ex : List ℕ)
      (pends : List Pend)
      → IsGood (locked l)
      → Later l.body.index useds
      → next_index index exclude l.body.index ≡ some (i, ex)
      → with_cheque P upper key tag
          (locked l)
          (state owed useds index exclude pending (locked_pend l ∷ pends))
        ≡ some (state owed useds i ex (pending + l.body.amount) pends)
  with_cheque-locked l useds owed index i pending exclude ex pends good h e =
      let same : is_pend_of l (locked_pend l) ≡ true =
        ground (arith, bytes_eq_self l.body.latch.bytes) in
      rw (good, reduce_useds-Later useds l.body.index owed index exclude h, same, e) refl

  pub thread-Folds :
      {useds : List Used} {cs : List Cheque} {outs : List Used} (owed index pending : ℕ)
      (exclude : List ℕ)
      → IsAscending exclude
      → Allows index exclude outs
      → All IsGood cs
      → Thread useds cs outs
      → Folds cs
          (start owed useds index exclude pending cs)
          (total used_amount outs)
          (total locked_amount (filter_map as_locked cs))
  unfolding fold
  thread-Folds owed index pending exclude a h good done = (_, refl, omega arith, omega arith, refl)
  thread-Folds owed index pending exclude a h good
        (before u c {useds} {cs} {outs} below later rest) =
      let (i, ex, taken, up, allows) =
        next_index-Allows index exclude u.index outs a h.0 later h.1 in
      Folds-before c cs u useds owed index i pending (total used_amount outs)
        (total locked_amount (filter_map as_locked (c ∷ cs))) exclude ex (pends_of (c ∷ cs)) below
        taken (thread-Folds (owed + u.amount) i pending ex up allows good rest)
  thread-Folds owed index pending exclude a h good
        (next (unlocked w) {useds} {cs} {outs} below later rest) =
      let (i, ex, taken, up, allows) =
        next_index-Allows index exclude w.body.index outs a h.0 later h.1 in
      Folds-next (unlocked w) cs _ (start (owed + w.body.amount) useds i ex pending cs)
        (total used_amount outs) (total locked_amount (filter_map as_locked cs)) w.body.amount 0 _ _
        (with_cheque-unlocked w useds owed index i pending exclude ex (pends_of cs) good.0 below
          taken)
        refl (omega arith) (thread-Folds (owed + w.body.amount) i pending ex up allows good.1 rest)
        refl (omega arith)
  thread-Folds owed index pending exclude a h good
        (next (locked l) {useds} {cs} {outs} below later rest) =
      let (i, ex, taken, up, allows) =
        next_index-Allows index exclude l.body.index outs a h.0 later h.1 in
      Folds-next (locked l) cs _ (start owed useds i ex (pending + l.body.amount) cs)
        (total used_amount outs) (total locked_amount (filter_map as_locked cs)) 0 l.body.amount _ _
        (with_cheque-locked l useds owed index i pending exclude ex (pends_of cs) good.0 below
          taken)
        (omega arith) refl (thread-Folds owed i (pending + l.body.amount) ex up allows good.1 rest)
        (omega arith) refl

  -- A fold that leaves no pending, with the total of the datum, gives what is owed.
  pub Folds-account :
      (squash : Squash) (cs : List Cheque) (useds : List Used) (pends : List Pend) (n m : ℕ)
      → squash_verifies P key tag squash ≡ true
      → Folds cs (state squash.body.amount useds squash.body.index squash.body.excludes 0 pends) n m
      → account P upper key tag useds squash cs m pends ≡ some (squash.body.amount + n)
  unfolding account
  Folds-account squash cs useds pends n m signed (t, made, owed, pending, left) =
      let even : (t.pending == m) ≡ true = ground (arith, pending) in
      rw (signed, made, left, even) (ap (λ x. some x) owed)
