-- ===== src/Tx2/Kernel.antt =====
-- packages/kernel/lib/konduit: what the script on chain demands of the steps of packages/konduit/tx2,
-- read off its steps/{add,close,elapse,end,expire,unlock}.ak, as conditions on the two data, the two
-- amounts of lovelace and the bounds of the transaction, all times in milliseconds. A difference of
-- the script stands on the other side of its equation, and `Finite` is `some`.
pub mod Evidence
pub mod Sub
pub mod Respond
pub mod Accepted
pub mod Refused
pub mod Tests
use konduit.Base.{
  ℕ, ◌+◌, ◌≤◌, ◌<◌, ◌≡◌, Bool, true, false, Option, none, some, List, [], ◌∷◌, map, Bytes, length,
  All,
}
use konduit.Data.Duration.{as_millis}
use konduit.Data.Primitives.{Primitives}
use konduit.Data.Stage
use konduit.Data.Stage.{Constants, Used, Unpend, continue, expire, unlock}

pub record Pend : Type 0 where
  pub amount : ℕ
  pub timeout : ℕ
  pub lock : Bytes

pub data Datum : Type 0 where
  opened : ℕ → List Used → Datum
  closed : ℕ → List Used → ℕ → Datum
  responded : ℕ → List Pend → Datum

-- The stage of packages/konduit/data, as the datum holds it.
abbrev pub pend_of : Stage.Pending → Pend
pend_of p = record { amount = p.amount; timeout = as_millis p.timeout; lock = p.lock.bytes }

abbrev pub datum : Stage.Stage → Datum
datum (Stage.opened subbed useds) = opened subbed useds
datum (Stage.closed subbed useds elapse_at) = closed subbed useds (as_millis elapse_at)
datum (Stage.responded amount pendings) = responded amount (map pend_of pendings)

-- `expect Finite(bound) = bound`, and a condition on it.
abbrev Finite : Option ℕ → (ℕ → Type 0) → Type 0
Finite none C = ⊥
Finite (some bound) C = C bound

-- steps/add.ak
abbrev pub Add : Constants → ℕ → Datum → ℕ → Datum → Bytes → Type 0
Add constants amount_in (opened subbed useds) amount_out stage_out key =
    (stage_out ≡ opened subbed useds) × (amount_in < amount_out) × (key ≡ constants.add_vkey)
Add _ _ _ _ _ _ = ⊥

-- steps/close.ak
abbrev pub Close : Option ℕ → Constants → ℕ → Datum → ℕ → Datum → Bytes → Type 0
Close upper constants amount_in (opened subbed useds) amount_out (closed subbed2 useds2 elapse_at)
      key =
    (subbed2 ≡ subbed)
    × (useds2 ≡ useds)
    × (amount_in ≤ amount_out)
    × Finite upper (λ b. b + as_millis constants.close_period ≤ elapse_at)
    × (key ≡ constants.add_vkey)
Close _ _ _ _ _ _ _ = ⊥

-- steps/elapse.ak
abbrev pub Elapse : Option ℕ → Constants → Datum → Bytes → Type 0
Elapse lower constants (closed _ _ elapse_at) key =
    Finite lower (λ b. elapse_at ≤ b) × (key ≡ constants.add_vkey)
Elapse _ _ _ _ = ⊥

-- steps/end.ak
abbrev pub End : Option ℕ → Constants → Datum → Bytes → Type 0
End lower constants (responded _ pends) key =
    All (λ (p : Pend). Finite lower (λ b. p.timeout ≤ b)) pends × (key ≡ constants.add_vkey)
End _ _ _ _ = ⊥

-- The fold of `with_` over the unpends, which steps/expire.ak and steps/unlock.ak share but for the
-- condition on a pending that does not continue: the amount of those, and nothing left at the end.
abbrev pub Account : (Pend → Unpend → Type 0) → List Unpend → List Pend → List Pend → ℕ → Type 0
Account Settles [] pends_in pends_out n = (pends_in ≡ pends_out) × (n ≡ 0)
Account Settles (u ∷ us) [] pends_out n = ⊥
Account Settles (continue ∷ us) (p ∷ ps) pends_out n =
    (rest : List Pend) × (pends_out ≡ p ∷ rest) × Account Settles us ps rest n
Account Settles (u ∷ us) (p ∷ ps) pends_out n =
    Settles p u × (m : ℕ) × (n ≡ p.amount + m) × Account Settles us ps pends_out m

abbrev pub Expires : Option ℕ → Pend → Unpend → Type 0
Expires lower p u = Finite lower (λ b. p.timeout ≤ b)

-- steps/expire.ak, with `env.min_ada_buffer` as the argument `buffer`
abbrev pub Expire : ℕ → Option ℕ → Constants → Datum → ℕ → Datum → List Unpend → Bytes → Type 0
Expire buffer lower constants (responded amount_in pends_in) value_out
      (responded amount_out pends_out) us key =
    (n : ℕ) × Account (Expires lower) us pends_in pends_out n
    × (amount_out + n ≡ amount_in)
    × (amount_out + buffer ≤ value_out)
    × (key ≡ constants.add_vkey)
Expire _ _ _ _ _ _ _ _ = ⊥

module _ (P : Primitives) where
  abbrev pub Unlocks : Option ℕ → Pend → Unpend → Type 0
  Unlocks upper p (unlock secret) =
      (P.sha256 secret ≡ p.lock) × (length secret ≡ 32) × Finite upper (λ b. b ≤ p.timeout)
  Unlocks upper p _ = ⊥

  -- steps/unlock.ak
  abbrev pub Unlock : Option ℕ → Constants → ℕ → Datum → ℕ → Datum → List Unpend → Bytes → Type 0
  Unlock upper constants value_in (responded amount_in pends_in) value_out
        (responded amount_out pends_out) us key =
      (n : ℕ) × Account (Unlocks upper) us pends_in pends_out n
      × (amount_out + n ≡ amount_in)
      × (value_in ≤ n + value_out)
      × (key ≡ constants.sub_vkey)
  Unlock _ _ _ _ _ _ _ _ = ⊥
