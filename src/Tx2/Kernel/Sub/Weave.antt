-- ===== src/Tx2/Kernel/Sub/Weave.antt =====
-- packages/konduit/tx2/src/channel.rs, `prep_sub`: the history that a sub leaves is the history before and the
-- cheques that it spends, woven together by index.
use konduit.Base.{
  ℕ, ◌<◌, ◌≡◌, ◌≢◌, refl, subst, sym, List, [], ◌∷◌, ◌++◌, map, All, ltb, arith, ltb→lt, Bool-cases,
  inl, inr,
}
use konduit.Data.Cheque.{Unlocked}
use konduit.Data.Signed.{Squash, is_index_squashed}
use konduit.Data.Stage.{Used, used_of}
use konduit.Tx2.Channel.{insert_used, sort_useds, owed_useds}
use konduit.Tx2.Channel.Useds.{All-insert_used}
use konduit.Tx2.Kernel.Evidence.{Later}

-- All cheques come after an index.
abbrev LaterThan : ℕ → List Unlocked → Type 0
LaterThan i = All (λ (w : Unlocked). i < w.body.index)

abbrev pub UsedsAscend : List Used → Type 0
UsedsAscend [] = Unit
UsedsAscend (u ∷ us) = Later u.index us × UsedsAscend us

abbrev pub UnlockedsAscend : List Unlocked → Type 0
UnlockedsAscend [] = Unit
UnlockedsAscend (w ∷ ws) = LaterThan w.body.index ws × UnlockedsAscend ws

-- No cheque has the index of a used item.
abbrev pub Unused : List Used → List Unlocked → Type 0
Unused useds = All (λ (w : Unlocked). All (λ (u : Used). u.index ≢ w.body.index) useds)

-- The items before, the cheques, and the items after: of the items before some are dropped.
pub data Weave : List Used → List Unlocked → List Used → Type 0 where
  done : Weave [] [] []
  skip :
      (u : Used) {ins : List Used} {ws : List Unlocked} {outs : List Used}
      → Later u.index outs
      → Weave ins ws outs
      → Weave (u ∷ ins) ws outs
  keep :
      (u : Used) {ins : List Used} {ws : List Unlocked} {outs : List Used}
      → Later u.index outs
      → Weave ins ws outs
      → Weave (u ∷ ins) ws (u ∷ outs)
  take :
      (w : Unlocked) {ins : List Used} {ws : List Unlocked} {outs : List Used}
      → Later w.body.index ins
      → Later w.body.index outs
      → Weave ins ws outs
      → Weave ins (w ∷ ws) (used_of w ∷ outs)

insert_used-first : (u : Used) (us : List Used) → Later u.index us → insert_used u us ≡ u ∷ us
unfolding insert_used
insert_used-first u [] h = refl
insert_used-first u (v ∷ vs) h = ground (arith, h.0)

insert_used-later :
    (a x : Used) (us : List Used)
    → x.index < a.index
    → insert_used a (x ∷ us) ≡ x ∷ insert_used a us
unfolding insert_used
insert_used-later a x us h = ground arith

All-sort_useds : (C : Used → Type 0) (us : List Used) → All C us → All C (sort_useds us)
unfolding sort_useds
All-sort_useds C [] h = tt
All-sort_useds C (u ∷ us) h = All-insert_used C u (sort_useds us) h.0 (All-sort_useds C us h.1)

All-append : (C : Used → Type 0) (us vs : List Used) → All C us → All C vs → All C (us ++ vs)
All-append C [] vs h k = k
All-append C (u ∷ us) vs h k = (h.0, All-append C us vs h.1 k)

-- An item below all others is the first of the sorted list.
sort_useds-middle :
    (x : Used) (us vs : List Used)
    → Later x.index us
    → Later x.index vs
    → sort_useds (us ++ x ∷ vs) ≡ x ∷ sort_useds (us ++ vs)
unfolding sort_useds
sort_useds-middle x [] vs h k =
    insert_used-first x (sort_useds vs) (All-sort_useds (λ v. x.index < v.index) vs k)
sort_useds-middle x (u ∷ us) vs h k =
    rw (sort_useds-middle x us vs h.1 k) (insert_used-later u x (sort_useds (us ++ vs)) h.0)

Later-mono : (i j : ℕ) (us : List Used) → i < j → Later j us → Later i us
Later-mono i j [] h k = tt
Later-mono i j (u ∷ us) h k = (omega (arith, k.0), Later-mono i j us h k.1)

LaterThan-mono : (i j : ℕ) (ws : List Unlocked) → i < j → LaterThan j ws → LaterThan i ws
LaterThan-mono i j [] h k = tt
LaterThan-mono i j (w ∷ ws) h k = (omega (arith, k.0), LaterThan-mono i j ws h k.1)

Later-used_of : (i : ℕ) (ws : List Unlocked) → LaterThan i ws → Later i (map used_of ws)
Later-used_of i [] h = tt
Later-used_of i (w ∷ ws) h = (h.0, Later-used_of i ws h.1)

module _ (squash : Squash) where
  abbrev pub woven : List Used → List Unlocked → List Used
  woven ins ws = sort_useds (owed_useds ins squash ++ map used_of ws)

  All-owed_useds : (C : Used → Type 0) (us : List Used) → All C us → All C (owed_useds us squash)
  unfolding owed_useds
  All-owed_useds C [] h = tt
  All-owed_useds C (u ∷ us) h = elim (Bool-cases (is_index_squashed squash u.index)) [
    | inl e ↦ rw e (All-owed_useds C us h.1)
    | inr e ↦ rw e (h.0, All-owed_useds C us h.1)
  ]

  Later-woven :
      (i : ℕ) (ins : List Used) (ws : List Unlocked)
      → Later i ins
      → LaterThan i ws
      → Later i (woven ins ws)
  Later-woven i ins ws h k =
      All-sort_useds (λ v. i < v.index) (owed_useds ins squash ++ map used_of ws)
        (All-append (λ v. i < v.index) (owed_useds ins squash) (map used_of ws)
          (All-owed_useds (λ v. i < v.index) ins h) (Later-used_of i ws k))

  weave-used :
      (u : Used) (ins : List Used) (ws : List Unlocked)
      → Later u.index ins
      → LaterThan u.index ws
      → Weave ins ws (woven ins ws)
      → Weave (u ∷ ins) ws (woven (u ∷ ins) ws)
  unfolding owed_useds
  weave-used u ins ws h k rest =
      let later = Later-woven u.index ins ws h k in
      elim (Bool-cases (is_index_squashed squash u.index)) [
        | inl e ↦ rw e (skip u later rest)
        | inr e ↦ rw e (
            subst (Weave (u ∷ ins) ws)
              (sym (
                sort_useds-middle u [] (owed_useds ins squash ++ map used_of ws) tt (
                  All-append (λ v. u.index < v.index) (owed_useds ins squash) (map used_of ws)
                    (All-owed_useds (λ v. u.index < v.index) ins h) (Later-used_of u.index ws k))))
              (keep u later rest))
      ]

  weave-spent :
      (w : Unlocked) (ins : List Used) (ws : List Unlocked)
      → Later w.body.index ins
      → LaterThan w.body.index ws
      → Weave ins ws (woven ins ws)
      → Weave ins (w ∷ ws) (woven ins (w ∷ ws))
  weave-spent w ins ws h k rest =
      subst (Weave ins (w ∷ ws))
        (sym (
          sort_useds-middle (used_of w) (owed_useds ins squash) (map used_of ws)
            (All-owed_useds (λ v. w.body.index < v.index) ins h) (Later-used_of w.body.index ws k)))
        (take w h (Later-woven w.body.index ins ws h k) rest)

  Unused-rest :
      (u : Used) (ins : List Used) (ws : List Unlocked) → Unused (u ∷ ins) ws → Unused ins ws
  Unused-rest u ins [] h = tt
  Unused-rest u ins (w ∷ ws) h = (h.0.1, Unused-rest u ins ws h.1)

  -- With both in order and apart, the history that a sub leaves is woven from the two.
  pub weave :
      (ins : List Used) (ws : List Unlocked)
      → UsedsAscend ins
      → UnlockedsAscend ws
      → Unused ins ws
      → Weave ins ws (woven ins ws)
  unfolding owed_useds sort_useds
  weave [] [] h k apart = done
  weave (u ∷ ins) [] h k apart = weave-used u ins [] h.0 tt (weave ins [] h.1 tt tt)
  weave [] (w ∷ ws) h k apart = weave-spent w [] ws tt k.0 (weave [] ws tt k.1 apart.1)
  weave (u ∷ ins) (w ∷ ws) h k apart = elim (Bool-cases (ltb u.index w.body.index)) [
    | inl e ↦
        let lt = ltb→lt u.index w.body.index e in
        weave-used u ins (w ∷ ws) h.0 (lt, LaterThan-mono u.index w.body.index ws lt k.0)
          (weave ins (w ∷ ws) h.1 k (Unused-rest u ins (w ∷ ws) apart))
    | inr e ↦
        let gt : w.body.index < u.index = ground (arith, e, apart.0.0) in
        weave-spent w (u ∷ ins) ws (gt, Later-mono w.body.index u.index ins gt h.0) k.0
          (weave (u ∷ ins) ws h k.1 apart.1)
  ]

  pub All-woven :
      (C : Used → Type 0) (ins : List Used) (ws : List Unlocked)
      → All C (owed_useds ins squash)
      → All C (map used_of ws)
      → All C (woven ins ws)
  All-woven C ins ws h k =
      All-sort_useds C (owed_useds ins squash ++ map used_of ws)
        (All-append C (owed_useds ins squash) (map used_of ws) h k)

-- A woven history is in order again.
pub Weave-UsedsAscend :
    {ins : List Used} {ws : List Unlocked} {outs : List Used} → Weave ins ws outs → UsedsAscend outs
Weave-UsedsAscend done = tt
Weave-UsedsAscend (skip u later rest) = Weave-UsedsAscend rest
Weave-UsedsAscend (keep u later rest) = (later, Weave-UsedsAscend rest)
Weave-UsedsAscend (take w below later rest) = (later, Weave-UsedsAscend rest)
