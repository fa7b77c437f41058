-- ===== src/Server/Admin.antt =====
-- packages/konduit/server/src/admin: coiter.rs, and of service.rs the retainers that are taken over from the chain.
-- What the chain answers and where the storage fails are parameters.
pub mod Merged
pub mod Synced
pub mod Grouped
pub mod Offered
pub mod Latest
pub mod Retained
pub mod Unlocks
pub mod Tests
use konduit.Base.{
  ℕ, Bool, true, false, ◌&&◌, Option, none, some, List, [], ◌∷◌, ◌++◌, map, filter, filter_map,
  length, leb, Bytes, bytes_eq, Result, ok, err, panic, ◌>>=◌, ◌>>◌, map_err, if◌then◌else◌,
}
use konduit.Base.Maps.{Map, get}
use konduit.Base.Maps.Entries.{bytes_ltb, insert}
use konduit.Data.Duration.{Duration}
use konduit.Data.Stage.{Stage, opened, closed, responded}
use konduit.Tx1.Channel as Tx1
use konduit.Server.Channel.{Retainer, apply_retainer}
use konduit.Server.Db
use konduit.Server.Db.{Table, upsert}

pub data CoItem {ℓ} (V : Type ℓ) : Type ℓ where
  left : Bytes → CoItem V
  right : Bytes → V → CoItem V
  both : Bytes → V → CoItem V

-- The items that `CoIter` gives, one after the other. The order of keys is that of their bytes.
unfoldable pub coiter {ℓ} : {V : Type ℓ} → List Bytes → Map V → List (CoItem V)
coiter [] [] = []
coiter [] ((r, v) ∷ rs) = right r v ∷ coiter [] rs
coiter (l ∷ ls) [] = left l ∷ coiter ls []
coiter (l ∷ ls) ((r, v) ∷ rs) =
    let less = coiter ls ((r, v) ∷ rs) in
    let greater = coiter (l ∷ ls) rs in
    let equal = coiter ls rs in
    if bytes_ltb l r
    then left l ∷ less
    else (if bytes_ltb r l then right r v ∷ greater else both l v ∷ equal)

-- `Db::keys`
abbrev pub keys : Table → List Bytes
keys t = map (λ e. e.0) t

-- The `match` of `sync_retainers`.
abbrev pub entry_of : CoItem (List Retainer) → Bytes × List Retainer
entry_of (left k) = (k, [])
entry_of (right k v) = (k, v)
entry_of (both k v) = (k, v)

pub data SyncError : Type 0 where
  snapshot : Bytes → SyncError
  storage : Bytes → SyncError
  db : Db.Error → SyncError

-- Where the storage fails: as it gives the keys of a table, and as it writes what is at a key. A write that
-- fails leaves the table.
pub record Storage : Type 0 where
  pub keys_fault : Table → Option Bytes
  pub write_fault : Table → Bytes → Option Bytes

abbrev pub unless : Option Bytes → Result SyncError (Unit {0})
unless none = ok tt
unless (some e) = err (storage e)

-- A step, and what comes after it: what was written to the table before stays where the step fails.
abbrev pub after_one :
    {A E : Type 0}
    → Table
    → (A → Table × Result E (Unit {0}))
    → Result E A
    → Table × Result E (Unit {0})
after_one t next (ok a) = next a
after_one t next (err e) = (t, err e)
after_one t next panic = (t, panic)

module _ (S : Storage) where
  -- The body of the loop of `sync_retainers`
  unfoldable pub sync_one : Table → CoItem (List Retainer) → Result SyncError Table
  sync_one t item = do
    t' ← map_err db (upsert t (entry_of item).0 (λ ch. apply_retainer ch (entry_of item).1))
    unless (S.write_fault t (entry_of item).0)
    ok t'

  -- The table that the loop leaves, and how it ends.
  unfoldable pub sync_from :
      Table → List (CoItem (List Retainer)) → Table × Result SyncError (Unit {0})
  sync_from t [] = (t, ok tt)
  sync_from t (item ∷ items) = after_one t (λ t'. sync_from t' items) (sync_one t item)

-- `TryFrom<&Channel> for Retainer`
abbrev retainer_of : Tx1.Channel → Option Retainer
retainer_of ch = elim ch.variables.stage [
  | opened subbed useds ↦
      some (record { amount = ch.variables.amount; subbed = subbed; useds = useds })
  | closed _ _ _ ↦ none
  | responded _ _ ↦ none
]

abbrev with_keytag : Tx1.Channel → Option (Bytes × Retainer)
with_keytag ch = elim (retainer_of ch) [
  | none ↦ none
  | some r ↦ some (ch.constants.add_vkey ++ ch.constants.tag, r)
]

-- `Stage::is_opened`
abbrev pub is_opened : Stage → Bool
is_opened (opened subbed useds) = true
is_opened (closed subbed useds elapse_at) = false
is_opened (responded amount pendings) = false

-- The parameters of a service: the key of its wallet, its close period and the length of a tag.
module _ (own_vkey : Bytes) (close_period : Duration) (tag_length : ℕ) where
  abbrev pub is_candidate : Tx1.Channel → Bool
  is_candidate ch =
      bytes_eq ch.constants.sub_vkey own_vkey
      && leb close_period ch.constants.close_period
      && leb (length ch.constants.tag) tag_length
      && is_opened ch.variables.stage

  abbrev pub candidates : List Tx1.Channel → List (Bytes × Retainer)
  candidates chs = filter_map with_keytag (filter is_candidate chs)

abbrev pub or_empty : Option (List Retainer) → List Retainer
or_empty none = []
or_empty (some v) = v

-- `entry(keytag).or_insert_with(Vec::new).push(retainer)`
abbrev pub push : Map (List Retainer) → Bytes → Retainer → Map (List Retainer)
push m k r = insert m k (or_empty (get m k) ++ r ∷ [])

unfoldable pub grouped : Map (List Retainer) → List (Bytes × Retainer) → Map (List Retainer)
grouped m [] = m
grouped m ((k, r) ∷ cs) = grouped (push m k r) cs

-- `Service::retainers`, of the channels that are read from the outputs
abbrev pub retainers : Bytes → Duration → ℕ → List Tx1.Channel → Map (List Retainer)
retainers own_vkey close_period tag_length chs =
    grouped [] (candidates own_vkey close_period tag_length chs)

-- What comes before the loop of `sync_retainers`: the snapshot, and the keys of the table.
abbrev pub channels_read :
    Storage → Result Bytes (List Tx1.Channel) → Table → Result SyncError (List Tx1.Channel)
channels_read S found t = do chs ← map_err snapshot found; unless (S.keys_fault t); ok chs

-- `sync_retainers`, of a service with its storage
unfoldable pub sync_retainers :
    Storage
    → Bytes
    → Duration
    → ℕ
    → Result Bytes (List Tx1.Channel)
    → Table
    → Table × Result SyncError (Unit {0})
sync_retainers S own_vkey close_period tag_length found t =
    after_one t
      (λ chs. sync_from S t (coiter (keys t) (retainers own_vkey close_period tag_length chs)))
      (channels_read S found t)
