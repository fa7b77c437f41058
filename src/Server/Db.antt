-- ===== src/Server/Db.antt =====
-- packages/konduit/server/src/db.rs, with `Keytag::split` of packages/konduit/tmp/src/keytag.rs: the table of
-- channels, as the map from keytags to stored values. A failure of the storage itself aborts the
-- transaction, which leaves the table; only the errors of the source's own are written out.
use konduit.Base.{
  ◌≡◌, sym, ap, subst, ◌∙◌, Bool, true, false, Option, none, some, Bytes, bytes_eq, Result, ok, err,
  ◌>>=◌, map_err, ok_or, >>=-eq-ok, ok_or-eq-ok, map_err-eq-ok,
}
use konduit.Base.Maps.{Map, get, remove}
use konduit.Base.Maps.Entries.{insert, get-insert_same, get-insert_other}
use konduit.Data.Wire.{take, drop}
use konduit.Receipt.{Receipt}
use konduit.Server.Channel
use konduit.Server.Channel.{Channel, Retainer}

pub record Value : Type 0 where
  pub retainer : Option Retainer
  pub receipt : Option Receipt
  pub is_active : Bool

abbrev default : Value
default = record { retainer = none; receipt = none; is_active = true }

pub data Error : Type 0 where
  no_channel : Error
  channel : Channel.Error → Error

-- `Value::to_channel`: the key and the tag are those of the keytag.
abbrev pub to_channel : Value → Bytes → Channel
to_channel v keytag = record {
  key = take 32 keytag;
  tag = drop 32 keytag;
  retainer = v.retainer;
  receipt = v.receipt;
  is_active = v.is_active;
}

abbrev pub from_channel : Channel → Value
from_channel ch = record { retainer = ch.retainer; receipt = ch.receipt; is_active = ch.is_active }

abbrev pub Table : Type 0
Table = Map Value

abbrev pub with_keytag : Bytes → Option Value → Option Channel
with_keytag keytag none = none
with_keytag keytag (some v) = some (to_channel v keytag)

-- `Db::get`
abbrev pub channel_at : Table → Bytes → Option Channel
channel_at t keytag = with_keytag keytag (get t keytag)

-- `Db::update`: what `f` refuses is not written.
unfoldable pub update :
    Table → Bytes → (Channel → Result Channel.Error Channel) → Result Error Table
update t keytag f = do
  current ← ok_or (channel_at t keytag) no_channel
  updated ← map_err channel (f current)
  ok (insert t keytag (from_channel updated))

abbrev pub or_default : Option Channel → Bytes → Channel
or_default none keytag = to_channel default keytag
or_default (some ch) keytag = ch

unfoldable pub upsert :
    Table → Bytes → (Channel → Result Channel.Error Channel) → Result Error Table
upsert t keytag f = do
  updated ← map_err channel (f (or_default (channel_at t keytag) keytag))
  ok (insert t keytag (from_channel updated))

-- `Db::remove`
abbrev drop_channel : Table → Bytes → Result Error Table
drop_channel t keytag = elim (get t keytag) [
  | none ↦ err no_channel
  | some v ↦ ok (remove t keytag)
]

-- What an update that succeeds has done: the channel of the keytag is what `f` made of it, as it is
-- stored, and every other channel is as it was.
pub update-eq-ok :
    (t : Table) (keytag : Bytes) (f : Channel → Result Channel.Error Channel) {t' : Table}
    → update t keytag f ≡ ok t'
    → (c : Channel) × (c' : Channel) × (channel_at t keytag ≡ some c)
      × (f c ≡ ok c')
      × (channel_at t' keytag ≡ some (to_channel (from_channel c') keytag))
      × ((other : Bytes) → bytes_eq keytag other ≡ false → channel_at t' other ≡ channel_at t other)
unfolding update
update-eq-ok t keytag f {t'} h =
    let (c, e₁, f₁) = >>=-eq-ok (ok_or (channel_at t keytag) no_channel) _ h in
    let (c', e₂, f₂) = >>=-eq-ok (map_err channel (f c)) _ f₁ in
    let stored : t' ≡ insert t keytag (from_channel c') = cc in
    (
      c,
      c',
      ok_or-eq-ok (channel_at t keytag) no_channel e₁,
      map_err-eq-ok channel (f c) e₂,
      subst (λ s. channel_at s keytag ≡ some (to_channel (from_channel c') keytag)) (sym stored)
          (ap (with_keytag keytag) (get-insert_same t keytag (from_channel c'))),
      (λ other differs.
          subst (λ s. channel_at s other ≡ channel_at t other) (sym stored)
            (ap (with_keytag other) (get-insert_other t keytag other (from_channel c') differs))),
    )

-- A channel of the table has the key and the tag of its keytag.
pub channel_at-keys :
    (t : Table) (keytag : Bytes) {c : Channel}
    → channel_at t keytag ≡ some c
    → (c.key ≡ take 32 keytag) × (c.tag ≡ drop 32 keytag)
channel_at-keys t keytag {c} h = go (get t keytag) h
  where
    go :
        (v : Option Value)
        → with_keytag keytag v ≡ some c
        → (c.key ≡ take 32 keytag) × (c.tag ≡ drop 32 keytag)
    go none k = cc
    go (some v) k = (cc, cc)

-- Such a channel comes back as it was stored.
pub to_channel-from_channel :
    (c : Channel) (keytag : Bytes)
    → c.key ≡ take 32 keytag
    → c.tag ≡ drop 32 keytag
    → to_channel (from_channel c) keytag ≡ c
to_channel-from_channel c keytag k g =
    let made : Bytes → Bytes → Channel = λ key tag. record c { key = key; tag = tag } in
    ap (λ key. made key (drop 32 keytag)) (sym k) ∙ ap (λ tag. made c.key tag) (sym g)
