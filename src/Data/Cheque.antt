-- ===== src/Data/Cheque.antt =====
-- packages/konduit/data/src/{lock,secret,cheque_body,cheque_signed,locked,unlocked,cheque}.rs.
-- The markers `Verified` and `Unverified` hold no data: a cheque is modelled once, and what the marker
-- stands for is a predicate of Data.Signed. So `skip_verify`, `into_unverified` and
-- `new_with_state` are the identity.
use konduit.Base.{ℕ, Bool, Option, none, some, Bytes, bytes_eq, if◌then◌else◌}
use konduit.Data.Duration.{Duration}
use konduit.Data.Primitives.{Primitives}

pub record Lock : Type 0 where
  pub bytes : Bytes

pub record Secret : Type 0 where
  pub bytes : Bytes

abbrev pub lock_eq : Lock → Lock → Bool
lock_eq a b = bytes_eq a.bytes b.bytes

pub record ChequeBody (T : Type 0) : Type 0 where
  pub index : ℕ
  pub amount : ℕ
  pub timeout : Duration
  pub latch : T

pub record ChequeSigned (T : Type 0) : Type 0 where
  pub body : ChequeBody T
  pub signature : Bytes

abbrev pub Locked : Type 0
Locked = ChequeSigned Lock

abbrev pub Unlocked : Type 0
Unlocked = ChequeSigned Secret

pub data Cheque : Type 0 where
  unlocked : Unlocked → Cheque
  locked : Locked → Cheque

-- `Cheque::body`, of which the accessors read these two.
abbrev pub index : Cheque → ℕ
index (unlocked u) = u.body.index
index (locked l) = l.body.index

abbrev pub amount : Cheque → ℕ
amount (unlocked u) = u.body.amount
amount (locked l) = l.body.amount

abbrev pub timeout : Cheque → Duration
timeout (unlocked u) = u.body.timeout
timeout (locked l) = l.body.timeout

abbrev pub as_unlocked : Cheque → Option Unlocked
as_unlocked (unlocked u) = some u
as_unlocked (locked l) = none

abbrev pub as_locked : Cheque → Option Locked
as_locked (unlocked u) = none
as_locked (locked l) = some l

module _ (p : Primitives) where
  open p use {sha256}

  -- `impl From<Secret> for Lock`
  abbrev pub lock_of : Secret → Lock
  lock_of s = record { bytes = sha256 s.bytes }

  -- `ChequeBody::<Lock>::try_unlocked`
  try_unlocked : ChequeBody Lock → Secret → Option (ChequeBody Secret)
  try_unlocked b s =
      if lock_eq (lock_of s) b.latch
      then some (record { index = b.index; amount = b.amount; timeout = b.timeout; latch = s })
      else none

  -- `ChequeBody::<Secret>::locked`
  abbrev pub locked_body : ChequeBody Secret → ChequeBody Lock
  locked_body b = record {
    index = b.index;
    amount = b.amount;
    timeout = b.timeout;
    latch = lock_of b.latch;
  }

  -- `Unlocked::try_from_locked`
  unfoldable pub try_from_locked : Locked → Secret → Option Unlocked
  unfolding try_unlocked
  try_from_locked l s = elim (try_unlocked l.body s) [
    | none ↦ none
    | some b ↦ some (record { body = b; signature = l.signature })
  ]
