-- ===== src/Server/Admin/Synced.antt =====
-- packages/konduit/server/src/admin/service.rs, `sync_retainers`: what becomes of each channel.
use konduit.Base.{
  ◌≡◌, refl, sym, ap, ◌∙◌, subst, ◌⊎◌, inl, inr, false, Option, none, some, List, [], ◌∷◌, ◌++◌,
  map, Bytes, bytes_eq, Result, ok, err, Bool-cases,
}
use konduit.Base.Maps.{Map, get, Lacks, HasKeys}
use konduit.Base.Maps.Entries.{insert, get-insert_same, get-insert_other, AllValues-Unit}
use konduit.Base.Maps.Loops.{each, each-view}
use konduit.Server.Channel.{Channel, Retainer, retainer_le, max_by, apply_retainer}
use konduit.Server.Db.{Table, Value, channel_at, from_channel, or_default, with_keytag, upsert}
use konduit.Server.Admin.{
  CoItem, coiter, keys, entry_of, SyncError, storage, Storage, sync_one, sync_from,
}
use konduit.Server.Admin.Merged.{Ascend, keys_of, seen, entries, get-entries, entries-HasKeys}

-- A channel with the best of the candidates as its retainer.
abbrev pub refreshed : Channel → List Retainer → Channel
refreshed ch candidates = record ch { retainer = max_by (retainer_le ch.receipt) candidates }

abbrev store : Table → Bytes → List Retainer → Table
store t k candidates =
    insert t k (from_channel (refreshed (or_default (channel_at t k) k) candidates))

stored_again :
    (k : Bytes) (v : Option Value) (candidates : List Retainer)
    → with_keytag k (some (from_channel (refreshed (or_default (with_keytag k v) k) candidates)))
      ≡ some (refreshed (or_default (with_keytag k v) k) candidates)
stored_again k none candidates = refl
stored_again k (some v) candidates = refl

store_same :
    (t : Table) (k : Bytes) (candidates : List Retainer)
    → channel_at (store t k candidates) k
      ≡ some (refreshed (or_default (channel_at t k) k) candidates)
store_same t k candidates =
    ap (with_keytag k)
      (get-insert_same t k (from_channel (refreshed (or_default (channel_at t k) k) candidates)))
    ∙ stored_again k (get t k) candidates

store_other :
    (t : Table) (j k : Bytes) (candidates : List Retainer)
    → bytes_eq j k ≡ false
    → channel_at (store t j candidates) k ≡ channel_at t k
store_other t j k candidates differs = ap (with_keytag k) (
    get-insert_other t j k (from_channel (refreshed (or_default (channel_at t j) j) candidates))
      differs)

-- The channel of a keytag, once it has been brought up to date with what is found for it.
abbrev pub synced : Bytes → Option Channel → Option (List Retainer) → Option Channel
synced k before found = elim found [
  | none ↦ before
  | some candidates ↦ some (refreshed (or_default before k) candidates)
]

each-synced :
    (t : Table) (m : Map (List Retainer)) (k : Bytes)
    → HasKeys m
    → channel_at (each store t m) k ≡ synced k (channel_at t k) (get m k)
each-synced t m k h =
    let one =
      each-view store (λ s. Unit {0}) (λ x. Unit {0}) (λ s i x a b. tt) (λ s. channel_at s k) k
        (λ v x. some (refreshed (or_default v k) x)) (λ s x a b. store_same s k x)
        (λ s i x a differs. store_other s i k x differs) m t h (AllValues-Unit m) tt in
    one

-- Where the storage fails as it writes.
abbrev pub WriteFault : Storage → Bytes → Type 0
WriteFault S e = (u : Table) × (j : Bytes) × (S.write_fault u j ≡ some e)

-- How a loop ends and what it leaves: all the entries are stored, or those before the one at which the
-- storage failed.
abbrev Runs : Storage → Table → Map (List Retainer) → Table × Result SyncError (Unit {0}) → Type 0
Runs S t m run =
    ((run.1 ≡ ok tt) × (run.0 ≡ each store t m))
    ⊎ ((e : Bytes) × (done rest : Map (List Retainer)) × WriteFault S e
        × (run.1 ≡ err (storage e))
        × (m ≡ done ++ rest)
        × (run.0 ≡ each store t done))

Runs-later :
    (S : Storage) (t : Table) (entry : Bytes × List Retainer) (m : Map (List Retainer))
    (run : Table × Result SyncError (Unit {0}))
    → Runs S (store t entry.0 entry.1) m run
    → Runs S t (entry ∷ m) run
unfolding each
Runs-later S t entry m run (inl h) = inl h
Runs-later S t entry m run (inr (e, done, rest, fault, ends, split, leaves)) =
    inr (e, entry ∷ done, rest, fault, ends, ap (λ l. entry ∷ l) split, leaves)

sync_from-Runs :
    (S : Storage) (items : List (CoItem (List Retainer))) (t : Table)
    → Runs S t (map entry_of items) (sync_from S t items)
unfolding sync_from sync_one each upsert apply_retainer
sync_from-Runs S [] t = inl (refl, refl)
sync_from-Runs S (item ∷ items) t =
    let entry = entry_of item in
    let later = sync_from-Runs S items (store t entry.0 entry.1) in
    go (S.write_fault t entry.0) refl later
  where
    go :
        (fault : Option Bytes)
        → S.write_fault t (entry_of item).0 ≡ fault
        → Runs S
            (store t (entry_of item).0 (entry_of item).1)
            (map entry_of items)
            (sync_from S (store t (entry_of item).0 (entry_of item).1) items)
        → Runs S t (map entry_of (item ∷ items)) (sync_from S t (item ∷ items))
    go none e later = rw e (
        Runs-later S t (entry_of item) (map entry_of items)
          (sync_from S (store t (entry_of item).0 (entry_of item).1) items) later)
    go (some fault) e later =
        rw e (
          inr (fault, [], map entry_of (item ∷ items), (t, (entry_of item).0, e), refl, refl, refl))

Lacks-start : (k : Bytes) (done rest : Map (List Retainer)) → Lacks k (done ++ rest) → Lacks k done
Lacks-start k [] rest h = tt
Lacks-start k (e ∷ done) rest h = (h.0, Lacks-start k done rest h.1)

HasKeys-start : (done rest : Map (List Retainer)) → HasKeys (done ++ rest) → HasKeys done
HasKeys-start [] rest h = tt
HasKeys-start (e ∷ done) rest h = (Lacks-start e.0 done rest h.0, HasKeys-start done rest h.1)

get-start :
    (done rest : Map (List Retainer)) (k : Bytes)
    → (get done k ≡ none) ⊎ (get done k ≡ get (done ++ rest) k)
unfolding get
get-start [] rest k = inl refl
get-start ((j, v) ∷ done) rest k = elim (Bool-cases (bytes_eq j k)) [
  | inl e ↦ rw e (inr refl)
  | inr e ↦ rw e (get-start done rest k)
]

-- The loop brings each channel up to date with what is found for its keytag, unless the storage fails: then it
-- has done so with each channel or left it as it was. For maps in the order of their keys.
pub sync_from-synced :
    (S : Storage) (t : Table) (retainers : Map (List Retainer))
    → Ascend (keys t)
    → Ascend (keys_of retainers)
    → (((sync_from S t (coiter (keys t) retainers)).1 ≡ ok tt)
        × ((k : Bytes)
            → channel_at (sync_from S t (coiter (keys t) retainers)).0 k
              ≡ synced k (channel_at t k) (seen (keys t) retainers k)))
      ⊎ ((e : Bytes) × WriteFault S e
          × ((sync_from S t (coiter (keys t) retainers)).1 ≡ err (storage e))
          × ((k : Bytes)
              → (channel_at (sync_from S t (coiter (keys t) retainers)).0 k ≡ channel_at t k)
                ⊎ (channel_at (sync_from S t (coiter (keys t) retainers)).0 k
                    ≡ synced k (channel_at t k) (seen (keys t) retainers k))))
sync_from-synced S t retainers h j =
    let all = entries (keys t) retainers in
    let distinct = entries-HasKeys (keys t) retainers h j in
    elim (sync_from-Runs S (coiter (keys t) retainers) t) [
      | inl (ends, leaves) ↦ inl (
        ends,
        (λ k.
            ap (λ u. channel_at u k) leaves
            ∙ each-synced t all k distinct
            ∙ ap (synced k (channel_at t k)) (get-entries (keys t) retainers k h j)),
      )
      | inr (e, done, rest, fault, ends, split, leaves) ↦ inr (
        e,
        fault,
        ends,
        (λ k.
            let one =
              ap (λ u. channel_at u k) leaves
              ∙ each-synced t done k (HasKeys-start done rest (subst HasKeys split distinct)) in
            elim (get-start done rest k) [
              | inl gone ↦ inl (one ∙ ap (synced k (channel_at t k)) gone)
              | inr found ↦ inr (
                  one
                  ∙ ap (synced k (channel_at t k)) (
                      found ∙ ap (λ m. get m k) (sym split) ∙ get-entries (keys t) retainers k h j))
            ]),
      )
    ]
