-- ===== src/Server/Admin/Tests.antt =====
-- Runs of packages/konduit/server/src/admin on a table of one channel and three channels on chain.
use konduit.Base.{
  ℕ, ◌≡◌, refl, List, [], ◌∷◌, ◌++◌, map, Bytes, Result, ok, err, arith, Option, none, some,
  is_empty, if◌then◌else◌,
}
use konduit.Base.Maps.{Map}
use konduit.Data.Duration.{from_millis}
use konduit.Data.Stage.{opened, Constants}
use konduit.Data.Cheque.{locked}
use konduit.Receipt.{Receipt, unchanged}
use konduit.Receipt.Tests.{plain, mixed, squash_of, cheque_of, lock7}
use konduit.Tx1.Channel as Tx1
use konduit.Server.Channel.{Channel, Retainer, receipt_error}
use konduit.Server.Db
use konduit.Server.Db.{Table, channel_at, to_channel}
use konduit.Server.Data.Tests.{table_of, value_of}
use konduit.Server.Admin.{
  keys, retainers, coiter, left, right, both, storage, Storage, sync_retainers,
}
use konduit.Server.Admin.Unlocks.{get_secrets, unlocks_from, unlocks, db, unlocks-stuck}

abbrev constants : Bytes → Bytes → Constants
constants add_vkey sub_vkey = record {
  tag = [];
  add_vkey = add_vkey;
  sub_vkey = sub_vkey;
  close_period = from_millis 50;
}

abbrev on_chain : Bytes → Bytes → ℕ → Tx1.Channel
on_chain add_vkey sub_vkey amount = record {
  constants = constants add_vkey sub_vkey;
  variables = record { amount = amount; stage = opened 0 [] };
}

-- Two for the channel of the table, a new one, and one of another adaptor.
abbrev chain : List Tx1.Channel
chain =
    on_chain [] (2 ∷ []) 5000
    ∷ on_chain (9 ∷ []) (2 ∷ []) 100
    ∷ on_chain [] (2 ∷ []) 7000
    ∷ on_chain [] (3 ∷ []) 9000
    ∷ []

abbrev retainer_of : ℕ → Retainer
retainer_of amount = record { amount = amount; subbed = 0; useds = [] }

chain-retainers :
    retainers (2 ∷ []) (from_millis 40) 16 chain
    ≡ ([], retainer_of 5000 ∷ retainer_of 7000 ∷ []) ∷ (9 ∷ [], retainer_of 100 ∷ []) ∷ []
unfolding konduit.Server.Admin.grouped konduit.Base.Maps.Entries.insert konduit.Base.Maps.get
chain-retainers = refl

chain-coiter :
    coiter (keys (table_of mixed)) (retainers (2 ∷ []) (from_millis 40) 16 chain)
    ≡ both [] (retainer_of 5000 ∷ retainer_of 7000 ∷ [])
      ∷ right (9 ∷ []) (retainer_of 100 ∷ [])
      ∷ []
unfolding coiter konduit.Server.Admin.grouped konduit.Base.Maps.Entries.insert konduit.Base.Maps.get
chain-coiter = refl

-- A storage that does not take the new keytag.
abbrev full : Storage
full = record {
  keys_fault = λ t. none;
  write_fault = λ t k. if is_empty k then none else some (0 ∷ []);
}

full-run :
    (sync_retainers full (2 ∷ []) (from_millis 40) 16 (ok chain) (table_of mixed)).1
    ≡ err (storage (0 ∷ []))
unfolding sync_retainers konduit.Server.Admin.sync_from konduit.Server.Admin.sync_one coiter
    konduit.Server.Admin.grouped konduit.Base.Maps.Entries.insert konduit.Base.Maps.get Db.upsert
    konduit.Server.Channel.apply_retainer konduit.Server.Channel.max_by
full-run = refl

-- A receipt with two cheques under one lock, whose secret the node reveals, and one without cheques.
abbrev doubled_receipt : Receipt
doubled_receipt = record {
  squash = squash_of 0 0 [];
  cheques = locked (cheque_of 1 5 100 lock7) ∷ locked (cheque_of 2 6 200 lock7) ∷ [];
}

abbrev no_cheques : Receipt
no_cheques = record { squash = squash_of 0 0 []; cheques = [] }

abbrev three : Table
three =
    (8 ∷ [], value_of no_cheques)
    ∷ (9 ∷ [], value_of doubled_receipt)
    ∷ (10 ∷ [], value_of no_cheques)
    ∷ []

abbrev reveal : Bytes → Result Bytes (Option Bytes)
reveal lock = ok (some lock)

abbrev held : Channel
held = to_channel (value_of doubled_receipt) (9 ∷ [])

three-held : channel_at three (9 ∷ []) ≡ some held
unfolding konduit.Base.Maps.get
three-held = refl

three-served : unlocks_from plain reveal three ((8 ∷ []) ∷ []) ≡ (three, ok tt)
unfolding unlocks_from konduit.Server.Admin.Unlocks.unlocks_one get_secrets konduit.Base.Maps.get
three-served = refl

no_more : get_secrets plain reveal [] ≡ ok []
unfolding get_secrets
no_more = refl

unlocks-stuck_example :
    unlocks plain reveal three ≡ (three, err (db (Db.channel (receipt_error unchanged))))
unlocks-stuck_example =
    unlocks-stuck plain reveal three three (9 ∷ []) ((8 ∷ []) ∷ []) ((10 ∷ []) ∷ []) held
      doubled_receipt lock7 [] (7 ∷ []) [] refl three-served three-held refl refl refl no_more
