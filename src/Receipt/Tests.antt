-- ===== src/Receipt/Tests.antt =====
-- Runs of packages/konduit/tmp/src/receipt.rs on concrete receipts.
use konduit.Base.{
  ℕ, ◌+◌, ◌≤◌, ◌<◌, ◌≡◌, refl, ◌↔◌, Bool, true, false, not, List, [], ◌∷◌, map, filter, any, total,
  Result, ok, err, arith, if◌then◌else◌, All, u64_mod,
}
use konduit.Data.Primitives.{Primitives}
use konduit.Data.Cheque
use konduit.Data.Cheque.{Cheque, Locked, Unlocked, Secret, locked, unlocked, lock_of}
use konduit.Data.Signed.{Squash}
use konduit.Data.Indexes
use konduit.Data.SquashBody
use konduit.Data.SquashBody.{SquashBody}
use konduit.Receipt.{
  Receipt, Error, squash_amount_less, unchanged, IsValid, max_index, settles, opens, is_live,
  unlockeds, owed, committed, apply_locked, apply_secret, apply_timeout, apply_replace,
  apply_squash, propose_squash_body, squash_all,
}
use konduit.Receipt.Order.{apply_squash-IsValid}
use konduit.Receipt.Proposal.{locked_cheques, apply_squash-proposal}

-- Primitives that are simple to run: the hash is the identity, and every signature holds.
abbrev pub plain : Primitives
plain = record {
  sha256 = λ b. b;
  verify = λ m k s. true;
  write_tag = λ n. n ∷ [];
  write_u64 = λ n. n ∷ [];
  write_bytes = λ b. b;
  write_array = λ n. n ∷ [];
  write_begin_array = [];
  write_end = [];
  write_begin_bytes = [];
}

abbrev pub lock7 : Cheque.Lock
lock7 = record { bytes = 7 ∷ [] }

abbrev pub secret7 : Secret
secret7 = record { bytes = 7 ∷ [] }

abbrev pub lock8 : Cheque.Lock
lock8 = record { bytes = 8 ∷ [] }

abbrev pub cheque_of : ℕ → ℕ → ℕ → Cheque.Lock → Locked
cheque_of index amount timeout lock = record {
  body = record { index = index; amount = amount; timeout = timeout; latch = lock };
  signature = [];
}

abbrev pub open_of : ℕ → ℕ → ℕ → Secret → Unlocked
open_of index amount timeout secret = record {
  body = record { index = index; amount = amount; timeout = timeout; latch = secret };
  signature = [];
}

abbrev pub squash_of : ℕ → ℕ → List ℕ → Squash
squash_of amount index excludes = record {
  body = record { amount = amount; index = index; excludes = excludes };
  signature = [];
}

-- Nothing squashed yet; one cheque locked, one unlocked.
abbrev pub mixed : Receipt
mixed = record {
  squash = squash_of 0 0 [];
  cheques =
      locked (cheque_of 1 5 100 lock7)
      ∷ unlocked (open_of 2 6 200 (record { bytes = 8 ∷ [] }))
      ∷ [];
}

mixed-unsettled : All (λ c. settles mixed.squash c ≡ false) mixed.cheques
unfolding SquashBody.is_index_squashed
mixed-unsettled = (refl, (refl, tt))

mixed-room : max_index mixed + 1 < u64_mod
unfolding max_index
mixed-room = omega arith

mixed-IsValid : IsValid mixed
mixed-IsValid = record {
  body_valid = record { ascending = tt; below = tt; bounded = omega arith };
  ascending = (omega arith, tt);
  unsettled = mixed-unsettled;
}

-- The squash that the adaptor proposes for it.
abbrev proposed : Squash
proposed = squash_of 6 2 (1 ∷ [])

mixed-proposal : propose_squash_body mixed ≡ ok proposed.body
unfolding propose_squash_body squash_all SquashBody.squash SquashBody.squash_beyond Indexes.remove
    Indexes.binary_search Indexes.extend Indexes.extend_by Indexes.range konduit.Base.Words.add64
mixed-proposal = refl

apply_squash-proposal_example :
    let r' : Receipt = record { squash = proposed; cheques = locked_cheques mixed.cheques } in
    (apply_squash mixed proposed ≡ ok r')
    × (unlockeds r' ≡ [])
    × (owed r' ≡ owed mixed)
    × (committed r' ≡ committed mixed)
apply_squash-proposal_example =
    apply_squash-proposal mixed proposed mixed-IsValid (omega arith) (omega arith, tt)
      mixed-proposal

abbrev pub next : Locked
next = cheque_of 3 4 300 lock8

abbrev pub with_next : Receipt
with_next = record {
  squash = squash_of 0 0 [];
  cheques =
      locked (cheque_of 1 5 100 lock7)
      ∷ unlocked (open_of 2 6 200 (record { bytes = 8 ∷ [] }))
      ∷ locked next
      ∷ [];
}

mixed-next : apply_locked mixed next ≡ ok with_next
unfolding apply_locked konduit.Base.Words.add64 konduit.Receipt.max_index
mixed-next = refl

abbrev pub opened : Receipt
opened = record {
  squash = squash_of 0 0 [];
  cheques =
      unlocked (open_of 1 5 100 secret7)
      ∷ unlocked (open_of 2 6 200 (record { bytes = 8 ∷ [] }))
      ∷ [];
}

mixed-secret : apply_secret plain mixed secret7 ≡ ok opened
unfolding apply_secret konduit.Receipt.open_cheques konduit.Receipt.open_cheque
    Cheque.try_from_locked
mixed-secret = refl

abbrev raised : Locked
raised = cheque_of 1 9 101 lock7

abbrev with_raised : Receipt
with_raised = record {
  squash = squash_of 0 0 [];
  cheques = locked raised ∷ unlocked (open_of 2 6 200 (record { bytes = 8 ∷ [] })) ∷ [];
}

mixed-raised : apply_replace mixed raised ≡ ok with_raised
unfolding apply_replace
mixed-raised = refl

-- A squash of the unlocked cheque, for more than its amount.
abbrev pub generous : Squash
generous = squash_of 8 2 (1 ∷ [])

abbrev pub advanced : Receipt
advanced = record { squash = generous; cheques = locked (cheque_of 1 5 100 lock7) ∷ [] }

mixed-generous : apply_squash mixed generous ≡ ok advanced
unfolding apply_squash konduit.Base.Words.add64 konduit.Base.Words.sum64
    SquashBody.is_index_squashed konduit.Data.Indexes.has
mixed-generous = refl

generous-IsValid : SquashBody.IsValid generous.body
generous-IsValid = record { ascending = tt; below = (omega arith, tt); bounded = omega arith }

apply_squash-IsValid_example : IsValid advanced
apply_squash-IsValid_example =
    apply_squash-IsValid mixed generous mixed-IsValid generous-IsValid mixed-generous
