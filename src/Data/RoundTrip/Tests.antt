-- ===== src/Data/RoundTrip/Tests.antt =====
-- The round trips, run on the small format of Plain.
use Prim.Native.Nat.{ℕ, zero, suc}
use konduit.Base.{◌≡◌, refl, [], ◌∷◌, ◌++◌, Bytes, ok, arith, ◌≢◌}
use konduit.Data.Fits.{DatumFits, RedeemerFits, BodyFits, LockFits, SquashBodyFits, HasLength}
use konduit.Data.Cheque.{Lock, Secret, ChequeBody, unlocked, Unlocked, Cheque, locked}
use konduit.Data.SquashBody.{SquashBody, IsValid}
use konduit.Data.Signed.{Squash}
use konduit.Data.Stage.{closed, continue, unlock}
use konduit.Data.Datum.{Datum}
use konduit.Data.Redeemer.{Cont, Eol, Step, Redeemer}
use konduit.Data.Wire.{tag_data, encode_cheque_body, encode_squash_body}
use konduit.Data.Encode.{encode_datum, encode_redeemer, encode_squash}
use konduit.Data.Decode.{decode_datum}
use konduit.Data.Decode.Redeemer.{decode_redeemer}
use konduit.Data.Decode.Validity.{decode_squash-IsValid}
use konduit.Data.RoundTrip.Plain.{writer, parser, plain-IsCbor}
use konduit.Data.RoundTrip.Datum.{decode_datum-encode_datum}
use konduit.Data.RoundTrip.Redeemer.{decode_redeemer-encode_redeemer, squash-Reads}
use konduit.Data.RoundTrip.Signing.{cheque_data-injective, cheque_data-squash_data}

abbrev repeat : ℕ → ℕ → Bytes
repeat zero b = []
repeat (suc n) b = b ∷ repeat n b

abbrev sample_tag : Bytes
sample_tag = 1 ∷ []

-- A tag of more than one chunk, and a closed channel.
abbrev sample_datum : Datum
sample_datum = record {
  own_hash = repeat 28 1;
  constants = record {
    tag = repeat 70 9;
    add_vkey = repeat 32 2;
    sub_vkey = repeat 32 3;
    close_period = 5000000;
  };
  stage = closed 100 (record { index = 3; amount = 20 } ∷ []) 8000000;
}

abbrev sample_lock : Lock
sample_lock = record { bytes = repeat 32 7 }

abbrev sample_secret : Secret
sample_secret = record { bytes = repeat 32 7 }

abbrev sample_body : ChequeBody Lock
sample_body = record { index = 5; amount = 30; timeout = 9000000; latch = sample_lock }

abbrev sample_squash_body : SquashBody
sample_squash_body = record { amount = 40; index = 4; excludes = 1 ∷ 3 ∷ [] }

abbrev sample_squash : Squash
sample_squash = record { body = sample_squash_body; signature = repeat 64 8 }

abbrev sample_unlocked : Unlocked
sample_unlocked = record {
  body = record { index = 6; amount = 10; timeout = 9000000; latch = sample_secret };
  signature = repeat 64 8;
}

abbrev sample_locked : Cheque
sample_locked = locked (record { body = sample_body; signature = repeat 64 8 })

abbrev sample_redeemer : Redeemer
sample_redeemer = Redeemer.main (
    Step.cont (Cont.sub sample_squash (sample_unlocked ∷ []))
    ∷ Step.cont (Cont.respond sample_squash (unlocked sample_unlocked ∷ sample_locked ∷ []))
    ∷ Step.cont (Cont.unlock (continue ∷ unlock (repeat 32 7) ∷ []))
    ∷ Step.eol Eol.elapse
    ∷ [])

sample_datum-DatumFits : DatumFits sample_datum
unfolding konduit.Data.Duration.as_millis
sample_datum-DatumFits = ground arith

sample_body-BodyFits : BodyFits LockFits sample_body
unfolding konduit.Data.Duration.as_millis
sample_body-BodyFits = ground arith

sample_squash_body-Fits : SquashBodyFits sample_squash_body
sample_squash_body-Fits = ground arith

sample_redeemer-RedeemerFits : RedeemerFits sample_redeemer
unfolding konduit.Data.Duration.as_millis
sample_redeemer-RedeemerFits = ground arith

decode_datum-encode_datum_example :
    decode_datum parser (encode_datum writer sample_datum ++ (7 ∷ [])) ≡ ok (sample_datum, 7 ∷ [])
decode_datum-encode_datum_example =
    decode_datum-encode_datum writer parser plain-IsCbor sample_datum (7 ∷ [])
      sample_datum-DatumFits

decode_redeemer-encode_redeemer_example :
    decode_redeemer parser (encode_redeemer writer sample_redeemer ++ (7 ∷ []))
    ≡ ok (sample_redeemer, 7 ∷ [])
decode_redeemer-encode_redeemer_example =
    decode_redeemer-encode_redeemer writer parser plain-IsCbor sample_redeemer (7 ∷ [])
      sample_redeemer-RedeemerFits

cheque_data-injective_example : (sample_tag ≡ sample_tag) × (sample_body ≡ sample_body)
cheque_data-injective_example =
    cheque_data-injective writer parser plain-IsCbor sample_tag sample_tag sample_body sample_body
      sample_body-BodyFits sample_body-BodyFits refl

cheque_data-squash_data_example :
    tag_data writer (1 ∷ []) (encode_cheque_body writer sample_body)
    ≢ tag_data writer (1 ∷ []) (encode_squash_body writer sample_squash_body)
cheque_data-squash_data_example =
    cheque_data-squash_data writer parser plain-IsCbor (1 ∷ []) (1 ∷ []) sample_body
      sample_squash_body sample_body-BodyFits sample_squash_body-Fits

decode_squash-IsValid_example : IsValid sample_squash_body × HasLength 64 sample_squash.signature
decode_squash-IsValid_example =
    decode_squash-IsValid parser (encode_squash writer sample_squash ++ []) [] sample_squash
      (squash-Reads writer parser plain-IsCbor sample_squash (sample_squash_body-Fits, refl) [])
