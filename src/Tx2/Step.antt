-- ===== src/Tx2/Step.antt =====
-- packages/konduit/tx2/src/step.rs and currency.rs, with the struct of channel.rs that they name: what
-- is wanted of a channel, and what will be done to it.
use Prim.Native.String.{String}
use konduit.Base.{ℕ, Bool, true, false, Option, List, Bytes, map, filter_map, if◌then◌else◌}
use konduit.Data.Duration.{Duration}
use konduit.Data.Cheque.{Secret, Unlocked, Cheque, as_unlocked}
use konduit.Data.Signed.{Squash}
pub use konduit.Data.Redeemer.{Cont, Eol, Step}
use konduit.Data.Stage.{Constants, Stage, opened, closed, responded, Unpend}

pub data Currency : Type 0 where
  ada : Currency
  asset : Bytes → Bytes → Currency

-- `delegation` is a credential of the SDK, which is only carried along.
pub record Channel : Type 0 where
  pub delegation : Option Bytes
  pub constants : Constants
  pub amount : ℕ
  pub stage : Stage
  pub currency : Currency

pub data Can : Type 0 where
  add : Can
  sub : ℕ → Can
  close : Can
  respond : Duration → ℕ → Can
  end : Can
  elapse : Duration → Can
  unlock : Can
  expire : Can

pub data Want : Type 0 where
  add : ℕ → Want
  sub : Squash → List Unlocked → Want
  close : Want
  respond : Squash → List Cheque → Want
  end : Want
  elapse : Want
  unlock : List Secret → Want
  expire : Want

-- `Want::from_claim`
unfoldable pub from_claim : Stage → Squash → List Cheque → Want
from_claim (opened _ _) squash cheques = Want.sub squash (filter_map as_unlocked cheques)
from_claim (closed _ _ _) squash cheques = Want.respond squash cheques
from_claim (responded _ _) squash cheques = Want.unlock (secrets cheques)
  where
    secrets : List Cheque → List Secret
    secrets cs = map (λ (u : Unlocked). u.body.latch) (filter_map as_unlocked cs)

pub data WillCont : Type 0 where
  add : ℕ → WillCont
  sub : Squash → List Unlocked → ℕ → WillCont
  close : WillCont
  respond : Squash → List Cheque → ℕ → WillCont
  unlock : List Unpend → ℕ → WillCont
  expire : List Unpend → WillCont

pub data WillEol : Type 0 where
  end : WillEol
  elapse : Duration → WillEol

pub data Will : Type 0 where
  cont : Channel → WillCont → Will
  eol : WillEol → Will

-- `WillCont::to_step`
abbrev cont_step : WillCont → Cont
cont_step (WillCont.add _) = Cont.add
cont_step (WillCont.sub squash unlockeds _) = Cont.sub squash unlockeds
cont_step WillCont.close = Cont.close
cont_step (WillCont.respond squash cheques _) = Cont.respond squash cheques
cont_step (WillCont.unlock unpends _) = Cont.unlock unpends
cont_step (WillCont.expire unpends) = Cont.expire unpends

-- `WillEol::to_step`
abbrev eol_step : WillEol → Eol
eol_step WillEol.end = Eol.end
eol_step (WillEol.elapse _) = Eol.elapse

-- `Will::to_step`
unfoldable pub to_step : Will → Step
to_step (Will.cont _ step) = Step.cont (cont_step step)
to_step (Will.eol step) = Step.eol (eol_step step)

-- `Will::is_adaptor`, with that of `WillCont`
unfoldable pub is_adaptor : Will → Bool
is_adaptor (Will.cont _ (WillCont.sub _ _ _)) = true
is_adaptor (Will.cont _ (WillCont.respond _ _ _)) = true
is_adaptor (Will.cont _ (WillCont.unlock _ _)) = true
is_adaptor _ = false

-- `Will::signer`
unfoldable pub signer : Will → Constants → Bytes
unfolding is_adaptor
signer w constants = if is_adaptor w then constants.sub_vkey else constants.add_vkey

pub data Error : Type 0 where
  pair : String → String → Error
  no_step : Error
  bound : String → Error

-- `Stage::label`
abbrev pub label : Stage → String
label (opened _ _) = "Opened"
label (closed _ _ _) = "Closed"
label (responded _ _) = "Responded"
