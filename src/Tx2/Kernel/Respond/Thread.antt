-- ===== src/Tx2/Kernel/Respond/Thread.antt =====
-- packages/kernel/lib/konduit/steps/respond.ak: the order in which the script takes the used items of a channel
-- and the cheques of a respond, where every used item comes before some cheque.
use konduit.Base.{
  ℕ, ◌+◌, ◌<◌, ◌≡◌, ◌≢◌, refl, Bool, true, List, [], ◌∷◌, map, filter_map, All, any, ltb, arith,
  ltb→lt, Bool-cases, inl, inr, total,
}
use konduit.Data.Cheque
use konduit.Data.Cheque.{Cheque, Unlocked, locked, unlocked, as_unlocked}
use konduit.Data.Stage.{Used}
use konduit.Tx2.Channel.{used_amount}
use konduit.Tx2.Kernel.Evidence.{Later}
use konduit.Tx2.Kernel.Sub.Weave.{UsedsAscend}

-- What a cheque adds to what is owed, at its index.
abbrev pub ghost : Cheque → Used
ghost (unlocked w) = record { index = w.body.index; amount = w.body.amount }
ghost (locked l) = record { index = l.body.index; amount = 0 }

pub data Thread : List Used → List Cheque → List Used → Type 0 where
  done : Thread [] [] []
  before :
      (u : Used) (c : Cheque) {useds : List Used} {cs : List Cheque} {outs : List Used}
      → u.index < Cheque.index c
      → Later u.index outs
      → Thread useds (c ∷ cs) outs
      → Thread (u ∷ useds) (c ∷ cs) (u ∷ outs)
  next :
      (c : Cheque) {useds : List Used} {cs : List Cheque} {outs : List Used}
      → Later (Cheque.index c) useds
      → Later (Cheque.index c) outs
      → Thread useds cs outs
      → Thread useds (c ∷ cs) (ghost c ∷ outs)

abbrev pub After : ℕ → List Cheque → Type 0
After i = All (λ (c : Cheque). i < Cheque.index c)

abbrev pub ChequesAscend : List Cheque → Type 0
ChequesAscend [] = Unit
ChequesAscend (c ∷ cs) = After (Cheque.index c) cs × ChequesAscend cs

abbrev pub UnusedBy : List Used → List Cheque → Type 0
UnusedBy useds = All (λ (c : Cheque). All (λ (u : Used). u.index ≢ Cheque.index c) useds)

-- Whether some cheque comes after a used item.
abbrev is_covered : List Cheque → Used → Bool
is_covered cs u = any (λ (c : Cheque). ltb u.index (Cheque.index c)) cs

abbrev pub IsCovered : List Cheque → List Used → Type 0
IsCovered cs = All (λ u. is_covered cs u ≡ true)

abbrev pub unlocked_amount : Unlocked → ℕ
unlocked_amount w = w.body.amount

UnusedBy-rest :
    (u : Used) (useds : List Used) (cs : List Cheque) → UnusedBy (u ∷ useds) cs → UnusedBy useds cs
UnusedBy-rest u useds [] h = tt
UnusedBy-rest u useds (c ∷ cs) h = (h.0.1, UnusedBy-rest u useds cs h.1)

After-mono : (i j : ℕ) (cs : List Cheque) → i < j → After j cs → After i cs
After-mono i j [] h k = tt
After-mono i j (c ∷ cs) h k = (omega (arith, k.0), After-mono i j cs h k.1)

Later-mono : (i j : ℕ) (us : List Used) → i < j → Later j us → Later i us
Later-mono i j [] h k = tt
Later-mono i j (u ∷ us) h k = (omega (arith, k.0), Later-mono i j us h k.1)

After-ghost : (i : ℕ) (cs : List Cheque) → After i cs → Later i (map ghost cs)
After-ghost i [] h = tt
After-ghost i (unlocked w ∷ cs) h = (h.0, After-ghost i cs h.1)
After-ghost i (locked l ∷ cs) h = (h.0, After-ghost i cs h.1)

-- A cheque below all used items covers none of them.
IsCovered-rest :
    (c : Cheque) (cs : List Cheque) (us : List Used)
    → Later (Cheque.index c) us
    → IsCovered (c ∷ cs) us
    → IsCovered cs us
IsCovered-rest c cs [] h k = tt
IsCovered-rest c cs (u ∷ us) h k = (ground (arith, h.0, k.0), IsCovered-rest c cs us h.1 k.1)

total-ghost :
    (c : Cheque) (cs : List Cheque)
    → (ghost c).amount + total unlocked_amount (filter_map as_unlocked cs)
      ≡ total unlocked_amount (filter_map as_unlocked (c ∷ cs))
total-ghost (unlocked w) cs = refl
total-ghost (locked l) cs = omega arith

-- All that is threaded, with what is known of all used items and of all cheques, and their sum.
abbrev Threaded : List Used → List Cheque → Type 1
Threaded useds cs =
    (outs : List Used) × Thread useds cs outs
    × ((C : Used → Type 0) → All C useds → All C (map ghost cs) → All C outs)
    × (total used_amount outs
        ≡ total used_amount useds + total unlocked_amount (filter_map as_unlocked cs))

thread-before :
    (u : Used) (c : Cheque) (useds : List Used) (cs : List Cheque)
    → u.index < Cheque.index c
    → Later u.index useds
    → Later u.index (map ghost (c ∷ cs))
    → Threaded useds (c ∷ cs)
    → Threaded (u ∷ useds) (c ∷ cs)
thread-before u c useds cs lt later ghosts (outs, rest, all_of, sum) = (
  u ∷ outs,
  before u c lt (all_of (λ v. u.index < v.index) later ghosts) rest,
  (λ C h k. (h.0, all_of C h.1 k)),
  omega (arith, sum),
)

thread-next :
    (c : Cheque) (useds : List Used) (cs : List Cheque)
    → Later (Cheque.index c) useds
    → After (Cheque.index c) cs
    → Threaded useds cs
    → Threaded useds (c ∷ cs)
thread-next c useds cs later afterwards (outs, rest, all_of, sum) = (
  ghost c ∷ outs,
  next c later
      (all_of (λ v. Cheque.index c < v.index) later (After-ghost (Cheque.index c) cs afterwards))
      rest,
  (λ C h k. (k.0, all_of C h k.1)),
  omega (arith, sum, total-ghost c cs),
)

-- With both in order and apart, and every used item before some cheque, all of both is threaded.
pub thread :
    (useds : List Used) (cs : List Cheque)
    → UsedsAscend useds
    → ChequesAscend cs
    → UnusedBy useds cs
    → IsCovered cs useds
    → Threaded useds cs
thread [] [] h k apart covered = ([], done, (λ C a b. tt), refl)
thread (u ∷ useds) [] h k apart covered = cc (covered.0)
thread [] (c ∷ cs) h k apart covered = thread-next c [] cs tt k.0 (thread [] cs tt k.1 apart.1 tt)
thread (u ∷ useds) (c ∷ cs) h k apart covered = elim (Bool-cases (ltb u.index (Cheque.index c))) [
  | inl e ↦
      let lt = ltb→lt u.index (Cheque.index c) e in
      thread-before u c useds cs lt h.0
        (After-ghost u.index (c ∷ cs) (lt, After-mono u.index (Cheque.index c) cs lt k.0))
        (thread useds (c ∷ cs) h.1 k (UnusedBy-rest u useds (c ∷ cs) apart) covered.1)
  | inr e ↦
      let gt : Cheque.index c < u.index = ground (arith, e, apart.0.0) in
      let later : Later (Cheque.index c) (u ∷ useds) =
        (gt, Later-mono (Cheque.index c) u.index useds gt h.0) in
      thread-next c (u ∷ useds) cs later k.0
        (thread (u ∷ useds) cs h k.1 apart.1 (IsCovered-rest c cs (u ∷ useds) later covered))
]
