-- ===== src/Data/Datum.antt =====
-- packages/konduit/data/src/datum.rs.
use konduit.Base.{Bytes}
use konduit.Data.Stage.{Constants, Stage}

pub record Datum : Type 0 where
  pub own_hash : Bytes
  pub constants : Constants
  pub stage : Stage
