-- ===== src/Tx1/Variables.antt =====
-- packages/konduit/tx/src/{variables,bounds,step_to,step_error}.rs: the part of a channel that a step
-- changes, and what a step does to it.
use Prim.Native.String.{String}
use konduit.Base.{
  ℕ, ◌-◌, max, min, Option, none, some, List, Result, ok, err, ◌>>=◌, ◌==◌, leb, if◌then◌else◌,
  add64, sum64,
}
use konduit.Base.Words.{sub64}
use konduit.Data.Duration
use konduit.Data.Duration.{Duration}
use konduit.Data.Redeemer.{Cont, Eol, Step}
use konduit.Data.Stage.{Stage, opened, closed, responded, Used, Pending}
use konduit.Tx2.Step.{label}

pub record Bounds : Type 0 where
  pub lower : Option Duration
  pub upper : Option Duration

abbrev pub unbounded : Bounds
unbounded = record { lower = none; upper = none }

abbrev pub from_lower : Duration → Bounds
from_lower lower = record { lower = some lower; upper = none }

abbrev pub from_upper : Duration → Bounds
from_upper upper = record { lower = none; upper = some upper }

abbrev later : Option Duration → Option Duration → Option Duration
later (some a) (some b) = some (max a b)
later (some a) none = some a
later none b = b

abbrev earlier : Option Duration → Option Duration → Option Duration
earlier (some a) (some b) = some (min a b)
earlier (some a) none = some a
earlier none b = b

abbrev intersect : Bounds → Bounds → Bounds
intersect a b = record { lower = later a.lower b.lower; upper = earlier a.upper b.upper }

pub data StepError : Type 0 where
  no_step no_lower : StepError
  early : Duration → Duration → StepError
  pair : String → String → StepError
  terminal_expire : StepError
  other : String → StepError

pub record Variables : Type 0 where
  pub amount : ℕ
  pub stage : Stage

abbrev pub variables : ℕ → Stage → Variables
variables amount stage = record { amount = amount; stage = stage }

pub data StepTo : Type 0 where
  cont : Cont → Variables → StepTo
  eol : Eol → StepTo

abbrev pub step_of : StepTo → Step
step_of (StepTo.cont step v) = Step.cont step
step_of (StepTo.eol step) = Step.eol step

abbrev pub variables_of : StepTo → Option Variables
variables_of (StepTo.cont step v) = some v
variables_of (StepTo.eol step) = none

abbrev pub amounts : List Pending → ℕ
amounts pendings = sum64 (λ (p : Pending). p.amount) pendings

-- Each operation reads the stage first.
abbrev add_at : ℕ → ℕ → Stage → Result StepError Variables
add_at held amount (opened subbed useds) =
    if amount == 0 then err no_step else ok (variables (add64 held amount) (opened subbed useds))
add_at held amount stage = err (pair (label stage) "Add")

abbrev pub add : Variables → ℕ → Result StepError Variables
add v amount = add_at v.amount amount v.stage

abbrev sub_at : ℕ → ℕ → List Used → Stage → Result StepError Variables
sub_at held gain useds (opened subbed before) =
    ok (variables (sub64 held gain) (opened (add64 subbed gain) useds))
sub_at held gain useds stage = err (pair (label stage) "Sub")

abbrev pub sub : Variables → ℕ → List Used → Result StepError Variables
sub v gain useds = sub_at v.amount gain useds v.stage

abbrev close_at : ℕ → Duration → Duration → Stage → Result StepError Variables
close_at held upper period (opened subbed useds) = do
  elapse_at ← Duration.add upper period
  ok (variables held (closed subbed useds elapse_at))
close_at held upper period stage = err (pair (label stage) "Close")

abbrev pub close : Variables → Duration → Duration → Result StepError Variables
close v upper period = close_at v.amount upper period v.stage

abbrev elapse_from : Duration → Stage → Result StepError (Unit {0})
elapse_from lower (closed subbed useds at) = if leb lower at then err (early lower at) else ok tt
elapse_from lower stage = err (pair (label stage) "Elapse")

abbrev pub elapse : Variables → Duration → Result StepError (Unit {0})
elapse v lower = elapse_from lower v.stage

abbrev respond_at : ℕ → ℕ → List Pending → Stage → Result StepError Variables
respond_at held gain pendings (closed subbed useds at) =
    ok (variables (sub64 held gain) (responded (amounts pendings) pendings))
respond_at held gain pendings stage = err (pair (label stage) "Respond")

abbrev pub respond : Variables → ℕ → List Pending → Result StepError Variables
respond v gain pendings = respond_at v.amount gain pendings v.stage

abbrev unlock_at : ℕ → ℕ → List Pending → Stage → Result StepError Variables
unlock_at held gain pendings (responded amount before) =
    ok (variables (held - gain) (responded (amounts pendings) pendings))
unlock_at held gain pendings stage = err (pair (label stage) "Unlock")

abbrev pub unlock : Variables → ℕ → List Pending → Result StepError Variables
unlock v gain pendings = unlock_at v.amount gain pendings v.stage

abbrev expire_at : List Pending → Stage → Result StepError Variables
expire_at pendings (responded amount before) =
    ok (variables (amounts pendings) (responded (amounts pendings) pendings))
expire_at pendings stage = err (pair (label stage) "Expire")

abbrev pub expire : Variables → List Pending → Result StepError Variables
expire v pendings = expire_at pendings v.stage
