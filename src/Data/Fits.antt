-- ===== src/Data/Fits.antt =====
-- The values that the program has in its types: words of 64 bits, byte strings of a fixed length, times
-- of whole milliseconds, and the checks of `Indexes::new` and `SquashBody::new`.
use konduit.Base.{ℕ, ◌<◌, ◌≡◌, Bytes, length, All, u64_mod}
use konduit.Data.Duration.{Duration, as_millis, from_millis}
use konduit.Data.Cheque.{ChequeBody, ChequeSigned, Cheque, unlocked, locked, Lock, Secret, Unlocked}
use konduit.Data.SquashBody.{SquashBody}
use konduit.Data.SquashBody
use konduit.Data.Signed.{Squash}
use konduit.Data.Stage.{Used, Pending, Unpend, unlock, Stage, opened, closed, responded, Constants}
use konduit.Data.Datum.{Datum}
use konduit.Data.Redeemer.{Cont, Step, Redeemer}

abbrev pub IsU64 : ℕ → Type 0
IsU64 n = n < u64_mod

-- A span of whole milliseconds that fit in a word, which is what the encoding can hold.
abbrev pub IsMillis : Duration → Type 0
IsMillis d = from_millis (as_millis d) ≡ d

abbrev pub HasLength : ℕ → Bytes → Type 0
HasLength n s = length s ≡ n

abbrev pub UsedFits : Used → Type 0
UsedFits u = IsU64 u.index × IsU64 u.amount

abbrev pub PendingFits : Pending → Type 0
PendingFits d = IsU64 d.amount × IsMillis d.timeout × HasLength 32 d.lock.bytes

abbrev pub UnpendFits : Unpend → Type 0
UnpendFits (unlock secret) = HasLength 32 secret
UnpendFits _ = Unit

abbrev pub StageFits : Stage → Type 0
StageFits (opened amount useds) = IsU64 amount × All UsedFits useds
StageFits (closed amount useds deadline) = IsU64 amount × All UsedFits useds × IsMillis deadline
StageFits (responded amount pendings) = IsU64 amount × All PendingFits pendings

abbrev pub ConstantsFit : Constants → Type 0
ConstantsFit c = HasLength 32 c.add_vkey × HasLength 32 c.sub_vkey × IsMillis c.close_period

abbrev pub DatumFits : Datum → Type 0
DatumFits d = HasLength 28 d.own_hash × ConstantsFit d.constants × StageFits d.stage

abbrev pub LockFits : Lock → Type 0
LockFits l = HasLength 32 l.bytes

abbrev pub SecretFits : Secret → Type 0
SecretFits s = HasLength 32 s.bytes

abbrev pub BodyFits : {T : Type 0} → (T → Type 0) → ChequeBody T → Type 0
BodyFits LatchFits b = IsU64 b.index × IsU64 b.amount × IsMillis b.timeout × LatchFits b.latch

abbrev pub SignedFits : {T : Type 0} → (T → Type 0) → ChequeSigned T → Type 0
SignedFits LatchFits c = BodyFits LatchFits c.body × HasLength 64 c.signature

abbrev pub UnlockedFits : Unlocked → Type 0
UnlockedFits = SignedFits SecretFits

abbrev pub ChequeFits : Cheque → Type 0
ChequeFits (unlocked u) = SignedFits SecretFits u
ChequeFits (locked l) = SignedFits LockFits l

abbrev pub SquashBodyFits : SquashBody → Type 0
SquashBodyFits b = IsU64 b.amount × IsU64 b.index × All IsU64 b.excludes × SquashBody.IsValid b

abbrev pub SquashFits : Squash → Type 0
SquashFits s = SquashBodyFits s.body × HasLength 64 s.signature

abbrev pub ContFits : Cont → Type 0
ContFits (Cont.sub squash unlockeds) = SquashFits squash × All UnlockedFits unlockeds
ContFits (Cont.respond squash cheques) = SquashFits squash × All ChequeFits cheques
ContFits (Cont.unlock unpends) = All UnpendFits unpends
ContFits (Cont.expire unpends) = All UnpendFits unpends
ContFits _ = Unit

abbrev pub StepFits : Step → Type 0
StepFits (Step.cont c) = ContFits c
StepFits (Step.eol e) = Unit

abbrev pub RedeemerFits : Redeemer → Type 0
RedeemerFits (Redeemer.main steps) = All StepFits steps
RedeemerFits _ = Unit
