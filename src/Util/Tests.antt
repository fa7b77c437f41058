-- ===== src/Util/Tests.antt =====
-- Runs of packages/util on concrete challenges and tokens.
use konduit.Base.{
  ℕ, ◌<◌, ◌≡◌, ◌⊎◌, ◌%◌, refl, true, Option, none, some, [], ◌∷◌, length, Bytes, ltb, total,
  if◌then◌else◌, ok, ◌>>=◌, arith,
}
use konduit.Util.Powdos
use konduit.Util.Powdos.{
  PowScheme, HashHmac, Challenge, sha256, challenge_of, mac_data, leading_zero_bits, new, solve,
}
use konduit.Util.Powdos.Bits.{bits_of, zeros, leading_zero_bits_lem}
use konduit.Util.Powdos.Solving.{Misses, Solves, solve-verify}
use konduit.Util.Powdos.Binding.{verify-bound}
use konduit.Util.Powdos.Binding
use konduit.Util.Cobbl3
use konduit.Util.Cobbl3.{Token, token_of, Session, issue, to_string, from_str}
use konduit.Util.Cobbl3.Sessions.{issue-accepted, issue-bound}
use konduit.Util.Cobbl3.Sessions

abbrev tenth : Bytes
tenth = 0 ∷ 16 ∷ 255 ∷ []

leading_zero_bits_lem_example : leading_zero_bits tenth ≡ zeros (bits_of tenth) % 256
leading_zero_bits_lem_example =
    leading_zero_bits_lem tenth (omega arith, (omega arith, (omega arith, tt)))

-- A hash with seven zero bits from the nonce 2 on; the code is the data.
abbrev plain : HashHmac
plain = record {
  hash = λ s code n. ok (if ltb n 2 then 128 ∷ [] else 1 ∷ []);
  hmac = λ s k d. ok d;
}

abbrev home : Bytes
home = 7 ∷ []

abbrev asked : Challenge
asked = challenge_of sha256 4 1060 (mac_data sha256 4 1060 home)

asked-new : new plain sha256 4 home (9 ∷ []) 60 1000 ≡ ok asked
unfolding new
asked-new = refl

asked-Solves : Solves plain asked 2
unfolding Powdos.leading_zero_bits_from Powdos.leading_zeros
asked-Solves = (1 ∷ [], refl, omega arith)

asked-Misses : (m : ℕ) → m < 2 → Misses plain asked m
unfolding Powdos.leading_zero_bits_from Powdos.leading_zeros
asked-Misses m h = let low : ltb m 2 ≡ true = ground arith in (128 ∷ [], rw low refl, omega arith)

solve-verify_example :
    (solve plain 3 asked ≡ some (ok 2)) × (Powdos.verify plain asked home (9 ∷ []) 2 1060 ≡ ok tt)
solve-verify_example =
    solve-verify plain sha256 4 home (9 ∷ []) 60 1000 1060 2 asked asked-new (omega arith)
      asked-Solves asked-Misses (omega arith) (omega arith)

asked-verified : Powdos.verify plain asked home (9 ∷ []) 2 1060 ≡ ok tt
unfolding Powdos.verify Powdos.leading_zero_bits_from Powdos.leading_zeros Powdos.be_bytes
asked-verified = refl

verify-bound_example : ((asked ≡ asked) × (home ≡ home)) ⊎ Binding.Collision plain sha256 (9 ∷ [])
verify-bound_example =
    verify-bound plain sha256 4 home home (9 ∷ []) 60 1000 1060 2 asked asked (omega arith)
      asked-new refl asked-verified

abbrev read_token : Bytes → Option (Token ℕ)
read_token [] = none
read_token (b ∷ code) = some (token_of b code)

-- Bodies are numbers; the hash sums the bytes.
abbrev session : Session ℕ
session = record {
  encode = λ b. b ∷ [];
  verify = λ b s. true;
  keyed_hash = λ k d.
      total (λ x. x) d
      ∷ 1
      ∷ 2
      ∷ 3
      ∷ 4
      ∷ 5
      ∷ 6
      ∷ 7
      ∷ 8
      ∷ 9
      ∷ 10
      ∷ 11
      ∷ 12
      ∷ 13
      ∷ 14
      ∷ 15
      ∷ 16
      ∷ 17
      ∷ 18
      ∷ 19
      ∷ 20
      ∷ 21
      ∷ 22
      ∷ 23
      ∷ 24
      ∷ 25
      ∷ 26
      ∷ 27
      ∷ 28
      ∷ 29
      ∷ 30
      ∷ 31
      ∷ [];
  encode_token = λ t. t.body ∷ t.mac;
  decode_token = read_token;
  encode_base64 = λ b. b;
  decode_base64 = λ b. some b;
}

issue-accepted_example :
    (code : Bytes) × (issue session 3 (5 ∷ []) 42 [] ≡ ok code)
    × (length code ≡ 3)
    × ((from_str session (to_string session (token_of 42 code))
          >>= Cobbl3.verify session 3 (5 ∷ []))
        ≡ ok tt)
issue-accepted_example =
    issue-accepted session 3 (5 ∷ []) 42 [] (λ bytes. refl) (λ t. refl) (λ k d. refl) (omega arith)
      refl

abbrev held : Token ℕ
held = token_of 42 (42 ∷ 1 ∷ 2 ∷ [])

held-issued : issue session 3 (5 ∷ []) 42 [] ≡ ok held.mac
unfolding issue Cobbl3.sign Cobbl3.first_bytes
held-issued = refl

held-verified : Cobbl3.verify session 3 (5 ∷ []) held ≡ ok tt
unfolding Cobbl3.verify Cobbl3.sign Cobbl3.first_bytes
held-verified = refl

issue-bound_example :
    (true ≡ true)
    × (length held.mac ≡ 3)
    × (held.mac ≡ Sessions.take 3 (session.keyed_hash (5 ∷ []) (session.encode 42)))
    × ((session.encode 42 ≡ session.encode 42) ⊎ Sessions.Collision session 3 (5 ∷ []) 42 42)
issue-bound_example = issue-bound session 3 (5 ∷ []) 42 [] held held-issued held-verified
