-- ===== src/Util/Powdos/Bits.antt =====
-- packages/util/powdos/src/lib.rs, `leading_zero_bits`, against the bits of the bytes.
use konduit.Base.{
  ℕ, ◌+◌, ◌/◌, ◌%◌, ◌<◌, ◌≡◌, refl, List, [], ◌∷◌, ◌++◌, Bytes, All, ◌==◌, if◌then◌else◌, arith,
  ltb, Bool-cases, inl, inr,
}
use konduit.Util.Powdos.{leading_zeros, leading_zero_bits_from, leading_zero_bits}

-- The bits of a byte, the greatest first.
abbrev pub bits : ℕ → List ℕ
bits b =
    b / 128 % 2
    ∷ b / 64 % 2
    ∷ b / 32 % 2
    ∷ b / 16 % 2
    ∷ b / 8 % 2
    ∷ b / 4 % 2
    ∷ b / 2 % 2
    ∷ b % 2
    ∷ []

unfoldable pub bits_of : Bytes → List ℕ
bits_of [] = []
bits_of (b ∷ bs) = bits b ++ bits_of bs

-- How many bits are zero before the first that is not.
unfoldable pub zeros : List ℕ → ℕ
zeros [] = 0
zeros (x ∷ xs) = let rest = zeros xs in if x == 0 then 1 + rest else 0

zeros-none : zeros [] ≡ 0
unfolding zeros
zeros-none = refl

zeros-one : (x : ℕ) (xs : List ℕ) → x ≡ 1 → zeros (x ∷ xs) ≡ 0
unfolding zeros
zeros-one x xs e = rw e refl

zeros-zero : (x : ℕ) (xs : List ℕ) → x ≡ 0 → zeros (x ∷ xs) ≡ 1 + zeros xs
unfolding zeros
zeros-zero x xs e = rw e refl

-- The zeros of a byte and of what follows it.
abbrev run : ℕ → List ℕ → ℕ
run b rest = if b == 0 then 8 + zeros rest else leading_zeros b

-- A byte below a power of two, from the bit of that power on.
module _ (b : ℕ) (rest : List ℕ) where
  run_2 : b < 2 → 7 + zeros (b % 2 ∷ rest) ≡ run b rest
  unfolding leading_zeros
  run_2 h = elim (Bool-cases (ltb b 1)) [
    | inl e ↦ ground (arith, zeros-zero (b % 2) (rest) (ground arith))
    | inr e ↦ ground (arith, zeros-one (b % 2) (rest) (ground arith), e)
  ]

  run_4 : b < 4 → 6 + zeros (b / 2 % 2 ∷ b % 2 ∷ rest) ≡ run b rest
  unfolding leading_zeros
  run_4 h = elim (Bool-cases (ltb b 2)) [
    | inl e ↦
        omega (arith, zeros-zero (b / 2 % 2) (b % 2 ∷ rest) (ground arith), run_2 (ground arith))
    | inr e ↦ ground (arith, zeros-one (b / 2 % 2) (b % 2 ∷ rest) (ground arith), e)
  ]

  run_8 : b < 8 → 5 + zeros (b / 4 % 2 ∷ b / 2 % 2 ∷ b % 2 ∷ rest) ≡ run b rest
  unfolding leading_zeros
  run_8 h = elim (Bool-cases (ltb b 4)) [
    | inl e ↦ omega (
      arith,
      zeros-zero (b / 4 % 2) (b / 2 % 2 ∷ b % 2 ∷ rest) (ground arith),
      run_4 (ground arith),
    )
    | inr e ↦ ground (arith, zeros-one (b / 4 % 2) (b / 2 % 2 ∷ b % 2 ∷ rest) (ground arith), e)
  ]

  run_16 : b < 16 → 4 + zeros (b / 8 % 2 ∷ b / 4 % 2 ∷ b / 2 % 2 ∷ b % 2 ∷ rest) ≡ run b rest
  unfolding leading_zeros
  run_16 h = elim (Bool-cases (ltb b 8)) [
    | inl e ↦ omega (
      arith,
      zeros-zero (b / 8 % 2) (b / 4 % 2 ∷ b / 2 % 2 ∷ b % 2 ∷ rest) (ground arith),
      run_8 (ground arith),
    )
    | inr e ↦
        ground
          (arith, zeros-one (b / 8 % 2) (b / 4 % 2 ∷ b / 2 % 2 ∷ b % 2 ∷ rest) (ground arith), e)
  ]

  run_32 :
      b < 32
      → 3 + zeros (b / 16 % 2 ∷ b / 8 % 2 ∷ b / 4 % 2 ∷ b / 2 % 2 ∷ b % 2 ∷ rest) ≡ run b rest
  unfolding leading_zeros
  run_32 h = elim (Bool-cases (ltb b 16)) [
    | inl e ↦ omega (
      arith,
      zeros-zero (b / 16 % 2) (b / 8 % 2 ∷ b / 4 % 2 ∷ b / 2 % 2 ∷ b % 2 ∷ rest) (ground arith),
      run_16 (ground arith),
    )
    | inr e ↦ ground (
      arith,
      zeros-one (b / 16 % 2) (b / 8 % 2 ∷ b / 4 % 2 ∷ b / 2 % 2 ∷ b % 2 ∷ rest) (ground arith),
      e,
    )
  ]

  run_64 :
      b < 64
      → 2 + zeros (b / 32 % 2 ∷ b / 16 % 2 ∷ b / 8 % 2 ∷ b / 4 % 2 ∷ b / 2 % 2 ∷ b % 2 ∷ rest)
        ≡ run b rest
  unfolding leading_zeros
  run_64 h = elim (Bool-cases (ltb b 32)) [
    | inl e ↦ omega (
      arith,
      zeros-zero (b / 32 % 2) (b / 16 % 2 ∷ b / 8 % 2 ∷ b / 4 % 2 ∷ b / 2 % 2 ∷ b % 2 ∷ rest)
          (ground arith),
      run_32 (ground arith),
    )
    | inr e ↦ ground (
      arith,
      zeros-one (b / 32 % 2) (b / 16 % 2 ∷ b / 8 % 2 ∷ b / 4 % 2 ∷ b / 2 % 2 ∷ b % 2 ∷ rest)
          (ground arith),
      e,
    )
  ]

  run_128 :
      b < 128
      → 1
          + zeros (
              b / 64 % 2
              ∷ b / 32 % 2
              ∷ b / 16 % 2
              ∷ b / 8 % 2
              ∷ b / 4 % 2
              ∷ b / 2 % 2
              ∷ b % 2
              ∷ rest)
        ≡ run b rest
  unfolding leading_zeros
  run_128 h = elim (Bool-cases (ltb b 64)) [
    | inl e ↦ omega (
      arith,
      zeros-zero (b / 64 % 2)
          (b / 32 % 2 ∷ b / 16 % 2 ∷ b / 8 % 2 ∷ b / 4 % 2 ∷ b / 2 % 2 ∷ b % 2 ∷ rest)
          (ground arith),
      run_64 (ground arith),
    )
    | inr e ↦ ground (
      arith,
      zeros-one (b / 64 % 2)
          (b / 32 % 2 ∷ b / 16 % 2 ∷ b / 8 % 2 ∷ b / 4 % 2 ∷ b / 2 % 2 ∷ b % 2 ∷ rest)
          (ground arith),
      e,
    )
  ]

  run_256 :
      b < 256
      → zeros (
          b / 128 % 2
          ∷ b / 64 % 2
          ∷ b / 32 % 2
          ∷ b / 16 % 2
          ∷ b / 8 % 2
          ∷ b / 4 % 2
          ∷ b / 2 % 2
          ∷ b % 2
          ∷ rest)
        ≡ run b rest
  unfolding leading_zeros
  run_256 h = elim (Bool-cases (ltb b 128)) [
    | inl e ↦ omega (
      arith,
      zeros-zero (b / 128 % 2)
          (b / 64 % 2 ∷ b / 32 % 2 ∷ b / 16 % 2 ∷ b / 8 % 2 ∷ b / 4 % 2 ∷ b / 2 % 2 ∷ b % 2 ∷ rest)
          (ground arith),
      run_128 (ground arith),
    )
    | inr e ↦ ground (
      arith,
      zeros-one (b / 128 % 2)
          (b / 64 % 2 ∷ b / 32 % 2 ∷ b / 16 % 2 ∷ b / 8 % 2 ∷ b / 4 % 2 ∷ b / 2 % 2 ∷ b % 2 ∷ rest)
          (ground arith),
      e,
    )
  ]

leading_zero_bits_from-zeros :
    (count : ℕ) (bs : Bytes)
    → count < 256
    → All (λ b. b < 256) bs
    → leading_zero_bits_from count bs ≡ (count + zeros (bits_of bs)) % 256
unfolding leading_zero_bits_from bits_of
leading_zero_bits_from-zeros count [] h k = omega (arith, zeros-none)
leading_zero_bits_from-zeros count (b ∷ bs) h (byte, others) =
    let first = run_256 b (bits_of bs) byte in
    let rest = leading_zero_bits_from-zeros ((count + 8) % 256) bs (omega arith) others in
    elim (Bool-cases (b == 0)) [
      | inl e ↦ rw e (omega (arith, rest, rw e at first))
      | inr e ↦ rw e (omega (arith, rw e at first))
    ]

-- What is counted is the number of zero bits before the first bit that is one, modulo 256. For bytes, numbers
-- below 256.
pub leading_zero_bits_lem :
    (bs : Bytes) → All (λ b. b < 256) bs → leading_zero_bits bs ≡ zeros (bits_of bs) % 256
leading_zero_bits_lem bs h = omega (arith, leading_zero_bits_from-zeros 0 bs (omega arith) h)
