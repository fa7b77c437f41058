-- ===== src/Server/Admin/Retained.antt =====
-- packages/konduit/server/src/admin/service.rs, `retainers` and `sync_retainers`: from the channels on chain to those
-- of the database.
use konduit.Base.{◌≡◌, ◌⊎◌, some, Bytes, Result, ok, err}
use konduit.Data.Duration.{Duration}
use konduit.Tx1.Channel as Tx1
use konduit.Server.Channel.{Retainer}
use konduit.Server.Db.{Table, channel_at}
use konduit.Server.Admin.{SyncError, storage, Storage}
use konduit.Server.Admin.Synced.{WriteFault}
use konduit.Server.Admin.Latest.{Latest}

-- Where the storage fails: as it gives the keys of the table, or as it writes.
abbrev pub Fault : Storage → Table → Bytes → Type 0
Fault S t e = (S.keys_fault t ≡ some e) ⊎ WriteFault S e

-- How a run ends and what becomes of the channels, for what is offered on chain.
abbrev pub Outcome :
    Storage → Table → (Bytes → Retainer → Type 0) → Table × Result SyncError (Unit {0}) → Type 0
Outcome S t Offered run =
    ((run.1 ≡ ok tt) × ((k : Bytes) → Latest (Offered k) k (channel_at t k) (channel_at run.0 k)))
    ⊎ ((e : Bytes) × Fault S t e
        × (run.1 ≡ err (storage e))
        × ((k : Bytes)
            → (channel_at run.0 k ≡ channel_at t k)
              ⊎ Latest (Offered k) k (channel_at t k) (channel_at run.0 k)))
