-- ===== src/Data/Redeemer.antt =====
-- packages/konduit/data/src/redeemer.rs: what the script is given to do.
use konduit.Base.{Bool, true, false, not, List}
use konduit.Data.Cheque.{Unlocked, Cheque}
use konduit.Data.Signed.{Squash}
use konduit.Data.Stage.{Unpend}

pub data Cont : Type 0 where
  add : Cont
  sub : Squash → List Unlocked → Cont
  close : Cont
  respond : Squash → List Cheque → Cont
  unlock : List Unpend → Cont
  expire : List Unpend → Cont

pub data Eol : Type 0 where
  end elapse : Eol

pub data Step : Type 0 where
  cont : Cont → Step
  eol : Eol → Step

pub data Redeemer : Type 0 where
  defer : Redeemer
  main : List Step → Redeemer
  mutuals : Redeemer

-- `Step::is_adaptor` and `Step::is_consumer`
unfoldable pub is_adaptor : Step → Bool
is_adaptor (Step.cont (Cont.sub _ _)) = true
is_adaptor (Step.cont (Cont.respond _ _)) = true
is_adaptor (Step.cont (Cont.unlock _)) = true
is_adaptor _ = false

is_consumer : Step → Bool
unfolding is_adaptor
is_consumer s = not (is_adaptor s)
