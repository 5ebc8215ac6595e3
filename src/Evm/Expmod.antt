-- ===== src/Evm/Expmod.antt =====
-- The precompiled contract of modular exponentiation (core/silkworm/execution/precompiled.cpp).
use native.Mathlib.Nat.{pow-suc, pow-le-pow_right}
use silkworm.Common.{
  ℕ, zero, suc, ◌+◌, ◌-◌, ◌*◌, ◌^◌, ◌≤◌, ◌<◌, ◌≡◌, refl, sym, ◌∙◌, ap, some, [], ◌∷◌, append-nil,
  ◌==◌, if◌then◌else◌, Bool-cases, inl, inr, length, length-take, length-replicate, take, drop,
  replicate, Bytes, All, arith,
}
use silkworm.Rlp.Endian.{
  IsByte, to_be, from_be, from_be_onto, length-to_be, from_be-to_be, from_be-zeros,
}
use silkworm.Rlp.BigEndian.{All-append, All-take, All-drop}
use silkworm.Evm.Contracts.{right_pad, load, expmod_numbers, expmod_run}

from_be_onto-lt :
    (k acc : ℕ) (bs : Bytes)
    → acc < 256 ^ k
    → All IsByte bs
    → from_be_onto acc bs < 256 ^ (k + length bs)
unfolding from_be_onto
from_be_onto-lt k acc [] h bytes = rw (sum k) h
  where
    sum : (k : ℕ) → k + 0 ≡ k
    sum k = omega arith
from_be_onto-lt k acc (b ∷ bs) h (byte, bytes) =
    let grown : acc * 256 + b < 256 ^ suc k = omega (arith, pow-suc 256 k, h, byte) in
    let rest = from_be_onto-lt (suc k) (acc * 256 + b) bs grown bytes in rw (sum k (length bs)) rest
  where
    sum : (k n : ℕ) → k + suc n ≡ suc k + n
    sum k n = omega arith

load-lt : (size offset : ℕ) (input : Bytes) → All IsByte input → load size offset input < 256 ^ size
load-lt size offset input bytes =
    let part = take size (drop offset input) in
    let small =
      from_be_onto-lt 0 0 part (omega arith)
        (All-take IsByte size (drop offset input) (All-drop IsByte offset input bytes)) in
    let short : 0 + length part ≤ size = omega (arith, length-take size (drop offset input)) in
    omega (arith, small, pow-le-pow_right {n = 256} (omega arith) short)

pub zeros-IsByte : (n : ℕ) → All IsByte (replicate n 0)
zeros-IsByte zero = tt
zeros-IsByte (suc n) = (omega arith, zeros-IsByte n)

right_pad-IsByte : (view : Bytes) (n : ℕ) → All IsByte view → All IsByte (right_pad view n)
unfolding right_pad
right_pad-IsByte view n bytes =
    All-append IsByte view (replicate (n - length view) 0) bytes (zeros-IsByte (n - length view))

from_be-replicate : (n : ℕ) → from_be (replicate n 0) ≡ 0
unfolding from_be_onto
from_be-replicate n = ap from_be (sym (append-nil (replicate n 0))) ∙ from_be-zeros n []

-- The numbers are the input's, which counts as followed by zeros.
abbrev pub numbers_in : ℕ → ℕ → ℕ → Bytes → ℕ × ℕ × ℕ
numbers_in base_len exponent_len modulus_len rest =
    let input = right_pad rest (base_len + exponent_len + modulus_len) in
    (
      load base_len 0 input,
      load exponent_len base_len input,
      load modulus_len (base_len + exponent_len) input,
    )

abbrev pub base_length : Bytes → ℕ
base_length input = load 8 24 (right_pad input 96)

abbrev pub exponent_length : Bytes → ℕ
exponent_length input = load 8 56 (right_pad input 96)

abbrev pub modulus_length : Bytes → ℕ
modulus_length input = load 8 88 (right_pad input 96)

empty_of_length : (bs : Bytes) → length bs ≡ 0 → bs ≡ []
empty_of_length [] h = refl
empty_of_length (b ∷ bs) h = absurd (omega arith)

module _ (powm : ℕ → ℕ → ℕ → ℕ) (reduced : (b e m : ℕ) → 0 < m → powm b e m < m) where
  -- What comes out, for a modulus that fits into the bytes of the output.
  abbrev output_of : ℕ → ℕ × ℕ × ℕ → Bytes
  output_of modulus_len (base, exponent, modulus) =
      if modulus == 0
      then replicate modulus_len 0
      else to_be modulus_len (powm base exponent modulus)

  output_of-value :
      (modulus_len base exponent modulus : ℕ)
      → modulus < 256 ^ modulus_len
      → (let out = output_of modulus_len (base, exponent, modulus) in
          (length out ≡ modulus_len)
          × (from_be out ≡ (if modulus == 0 then 0 else powm base exponent modulus)))
  output_of-value modulus_len base exponent modulus fits = elim (Bool-cases (modulus == 0)) [
    | inl none_left ↦
        rw (none_left, if◌then◌else◌)
          (length-replicate modulus_len 0, from_be-replicate modulus_len)
    | inr some_left ↦
        rw (some_left, if◌then◌else◌)
          (
            length-to_be modulus_len (powm base exponent modulus),
            from_be-to_be modulus_len (powm base exponent modulus)
                (omega (arith, reduced base exponent modulus (ground (arith, some_left)), fits)),
          )
  ]

  expmod_numbers-eq :
      (base_len exponent_len modulus_len : ℕ) (rest : Bytes)
      → base_len + exponent_len + modulus_len < 2 ^ 64
      → expmod_numbers powm base_len exponent_len modulus_len rest
        ≡ output_of modulus_len (numbers_in base_len exponent_len modulus_len rest)
  unfolding expmod_numbers
  expmod_numbers-eq base_len exponent_len modulus_len rest fits =
      ap
        (λ (total : ℕ). output_of modulus_len (
          load base_len 0 (right_pad rest total),
          load exponent_len base_len (right_pad rest total),
          load modulus_len (base_len + exponent_len) (right_pad rest total),
        ))
        {y = base_len + exponent_len + modulus_len} (omega (arith, fits))

  expmod_numbers-value :
      (base_len exponent_len modulus_len : ℕ) (rest : Bytes)
      → All IsByte rest
      → base_len + exponent_len + modulus_len < 2 ^ 64
      → (let (base, exponent, modulus) = numbers_in base_len exponent_len modulus_len rest in
          let out = expmod_numbers powm base_len exponent_len modulus_len rest in
          (length out ≡ modulus_len)
          × (from_be out ≡ (if modulus == 0 then 0 else powm base exponent modulus)))
  expmod_numbers-value base_len exponent_len modulus_len rest bytes fits =
      let input = right_pad rest (base_len + exponent_len + modulus_len) in
      let total = base_len + exponent_len + modulus_len in
      let value =
        output_of-value modulus_len (load base_len 0 input) (load exponent_len base_len input)
          (load modulus_len (base_len + exponent_len) input)
          (load-lt modulus_len (base_len + exponent_len) input
            (right_pad-IsByte rest total bytes)) in
      let same = expmod_numbers-eq base_len exponent_len modulus_len rest fits in
      (ap length same ∙ value.0, ap from_be same ∙ value.1)

  -- For lengths whose sum has 64 bits, modular exponentiation never fails: its output is as long as the
  -- modulus is said to be, and spells the power modulo the modulus of the numbers that follow the
  -- lengths, or 0 for the modulus 0, if GMP's power is below a modulus that is not 0.
  pub expmod_run-value :
      (input : Bytes)
      → All IsByte input
      → base_length input + exponent_length input + modulus_length input < 2 ^ 64
      → (let (base, exponent, modulus) =
            numbers_in
              (base_length input)
              (exponent_length input)
              (modulus_length input)
              (drop 96 (right_pad input 96)) in
          (out : Bytes) × (expmod_run powm input ≡ some out)
          × (length out ≡ modulus_length input)
          × (from_be out ≡ (if modulus == 0 then 0 else powm base exponent modulus)))
  unfolding expmod_run
  expmod_run-value input bytes fits =
      let rest = drop 96 (right_pad input 96) in
      let out =
        expmod_numbers powm (base_length input) (exponent_length input) (modulus_length input)
          rest in
      let value =
        expmod_numbers-value (base_length input) (exponent_length input) (modulus_length input) rest
          (All-drop IsByte 96 (right_pad input 96) (right_pad-IsByte input 96 bytes)) fits in
      (out, run out value.0, value.0, value.1)
    where
      run :
          (out : Bytes)
          → length out ≡ modulus_length input
          → (if modulus_length input == 0 then some [] else some out) ≡ some out
      run out long = elim (Bool-cases (modulus_length input == 0)) [
        | inl zero_long ↦
            rw (zero_long, if◌then◌else◌)
              (ap some (sym (empty_of_length out (ground (arith, long, zero_long)))))
        | inr longer ↦ rw (longer, if◌then◌else◌) refl
      ]
