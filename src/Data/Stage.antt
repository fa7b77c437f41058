-- ===== src/Data/Stage.antt =====
-- packages/konduit/data/src/{used,pending,unpend,stage,constants}.rs: the datum of a channel.
use konduit.Base.{ℕ, Bool, true, false, List, Bytes}
use konduit.Data.Duration.{Duration}
use konduit.Data.Cheque.{Lock, Secret, Locked, Unlocked}

pub record Used : Type 0 where
  pub index : ℕ
  pub amount : ℕ

-- `impl From<&Unlocked> for Used`
abbrev pub used_of : Unlocked → Used
used_of u = record { index = u.body.index; amount = u.body.amount }

pub record Pending : Type 0 where
  pub amount : ℕ
  pub timeout : Duration
  pub lock : Lock

-- `impl From<Locked> for Pending`
abbrev pub pending_of : Locked → Pending
pending_of l = record { amount = l.body.amount; timeout = l.body.timeout; lock = l.body.latch }

pub data Unpend : Type 0 where
  continue : Unpend
  expire : Unpend
  unlock : Bytes → Unpend

abbrev pub is_continue : Unpend → Bool
is_continue continue = true
is_continue _ = false

-- `impl From<&Secret> for Unpend`
abbrev pub unpend_of : Secret → Unpend
unpend_of s = unlock s.bytes

pub data Stage : Type 0 where
  opened : ℕ → List Used → Stage
  closed : ℕ → List Used → Duration → Stage
  responded : ℕ → List Pending → Stage

pub record Constants : Type 0 where
  pub tag : Bytes
  pub add_vkey : Bytes
  pub sub_vkey : Bytes
  pub close_period : Duration
