-- ===== src/Server/Channel.antt =====
-- packages/konduit/server/src/channel.rs: a channel according to the server. `&mut self` becomes a new
-- channel. Every caller throws the channel away on an error, so an error carries none.
pub mod Inversion
pub mod Verified
pub mod Funds
pub mod Retention
pub mod Tests
use konduit.Base.{
  ℕ, ◌-◌, max, min, Bool, true, false, not, ◌&&◌, ◌||◌, Option, none, some, List, [], ◌∷◌, map,
  Result, ok, err, ◌>>=◌, ◌>>◌, ok_or, map_err, refuse_if, ltb, leb, ◌==◌, if◌then◌else◌, last,
  Bytes,
}
use konduit.Data.Primitives.{Primitives}
use konduit.Data.Cheque.{Secret, Locked}
use konduit.Data.Signed.{Squash, try_verify_locked, try_verify_squash}
use konduit.Data.Stage.{Used}
use konduit.Receipt
use konduit.Receipt.{Receipt, SquashProposal}

pub record Retainer : Type 0 where
  pub amount : ℕ
  pub subbed : ℕ
  pub useds : List Used

pub data Error : Type 0 where
  not_active no_retainer no_receipt capacity funds input verify : Error
  receipt_error : Receipt.Error → Error

pub record Channel : Type 0 where
  pub key : Bytes
  pub tag : Bytes
  pub retainer : Option Retainer
  pub receipt : Option Receipt
  pub is_active : Bool

abbrev pub new : Bytes → Bytes → Channel
new key tag = record { key = key; tag = tag; retainer = none; receipt = none; is_active = true }

abbrev assert_active : Channel → Result Error (Unit {0})
assert_active ch = refuse_if (not ch.is_active) not_active

unfoldable pub uncommitted : Channel → Result Error ℕ
uncommitted ch = do
  assert_active ch
  retainer ← ok_or ch.retainer no_retainer
  receipt ← ok_or ch.receipt no_receipt
  refuse_if (Receipt.capacity receipt == 0) capacity
  ok (retainer.amount - (Receipt.committed receipt - retainer.subbed))

abbrev pub last_used_index : Retainer → ℕ
last_used_index r = elim (last r.useds) [ none ↦ 0 | some u ↦ u.index ]

unfoldable pub next_index : Channel → Result Error ℕ
next_index ch = do
  assert_active ch
  retainer ← ok_or ch.retainer no_retainer
  receipt ← ok_or ch.receipt no_receipt
  ok (max (last_used_index retainer) (Receipt.propose_index receipt))

unfoldable pub can_commit : Channel → ℕ → Result Error ℕ
can_commit ch x = do
  available ← uncommitted ch
  if ltb x available then next_index ch else err funds

pub propose_squash : Channel → Result Error SquashProposal
propose_squash ch = do
  receipt ← ok_or ch.receipt no_receipt
  map_err receipt_error (Receipt.propose_squash receipt)

-- `Iterator::max_by_key`, by the order of the keys: of equal greatest items the last is taken.
max_from : {A : Type 0} → (A → A → Bool) → A → List A → A
max_from le best [] = best
max_from le best (x ∷ xs) = max_from le (if le best x then x else best) xs

unfoldable pub max_by : {A : Type 0} → (A → A → Bool) → List A → Option A
unfolding max_from
max_by le [] = none
max_by le (x ∷ xs) = some (max_from le x xs)

-- The key of a candidate beside a receipt: what it can pay of what is committed.
abbrev coverage : Receipt → Retainer → ℕ
coverage r c = min (Receipt.committed r - c.subbed) c.amount

-- The order of the two keys, which is lexicographic for the pair.
abbrev pub retainer_le : Option Receipt → Retainer → Retainer → Bool
retainer_le none a b = leb a.amount b.amount
retainer_le (some r) a b =
    ltb (coverage r a) (coverage r b) || (coverage r a == coverage r b && leb a.amount b.amount)

unfoldable pub apply_retainer : Channel → List Retainer → Result Error Channel
unfolding max_by
apply_retainer ch candidates =
    ok (record ch { retainer = max_by (retainer_le ch.receipt) candidates })

-- The `match` of `apply_squash`: the first squash makes the receipt.
pub squash_receipt : Option Receipt → Squash → Result Error Receipt
squash_receipt none squash = ok (Receipt.new squash)
squash_receipt (some r) squash = map_err receipt_error (Receipt.apply_squash r squash)

module _ (p : Primitives) where
  pub apply_squash : Channel → Squash → Result Error Channel
  apply_squash ch unverified = do
    squash ← map_err (λ _. verify) (try_verify_squash p ch.key ch.tag unverified)
    r' ← squash_receipt ch.receipt squash
    ok (record ch { receipt = some r' })

  unfoldable pub apply_locked : Channel → Locked → Result Error Channel
  apply_locked ch unverified = do
    l ← map_err (λ _. verify) (try_verify_locked p ch.key ch.tag unverified)
    available ← uncommitted ch
    refuse_if (ltb available l.body.amount) funds
    r ← ok_or ch.receipt no_receipt
    r' ← map_err receipt_error (Receipt.apply_locked r l)
    ok (record ch { receipt = some r' })

  unfoldable pub apply_secret : Channel → Secret → Result Error Channel
  apply_secret ch s = do
    r ← ok_or ch.receipt no_receipt
    r' ← map_err receipt_error (Receipt.apply_secret p r s)
    ok (record ch { receipt = some r' })

  unfoldable pub apply_secrets : Channel → List Secret → Result Error Channel
  unfolding apply_secret
  apply_secrets ch [] = ok ch
  apply_secrets ch (s ∷ ss) = do ch' ← apply_secret ch s; apply_secrets ch' ss
