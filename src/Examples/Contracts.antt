-- ===== src/Examples/Contracts.antt =====
-- Runs of the precompiled contracts.
use native.Mathlib.Nat.{mod-lt}
use silkworm.Common.{
  ℕ, ◌+◌, ◌^◌, ◌%◌, ◌<◌, ◌≡◌, refl, some, [], ◌∷◌, ◌++◌, ◌==◌, if◌then◌else◌, length, replicate,
  drop, Bytes, All, arith,
}
use silkworm.Rlp.Endian.{IsByte, from_be, from_be_onto}
use silkworm.Rlp.BigEndian.{All-append}
use silkworm.Chain.Config.{berlin}
use silkworm.Evm.Contracts.{
  right_pad, expmod_run, expmod_gas, expmod_fee, exponent_head, left_pad, mult_complexity_eip2565,
  adjusted_exponent_len, bit_length,
}
use silkworm.Evm.Expmod.{
  base_length, exponent_length, modulus_length, numbers_in, zeros-IsByte, expmod_run-value,
}

-- 3 ^ 2 modulo 5, in numbers of one byte.
abbrev numbers : Bytes
numbers = 1 ∷ 3 ∷ 2 ∷ 5 ∷ []

abbrev modulus_and_numbers : Bytes
modulus_and_numbers = 1 ∷ (replicate 31 0 ++ numbers)

abbrev power : Bytes
power = replicate 31 0 ++ (1 ∷ (replicate 31 0 ++ modulus_and_numbers))

abbrev powm : ℕ → ℕ → ℕ → ℕ
powm b e m = b ^ e % m

powm_reduced : (b e m : ℕ) → 0 < m → powm b e m < m
powm_reduced b e m h = mod-lt (b ^ e) h

numbers-IsByte : All IsByte numbers
numbers-IsByte = (omega arith, (omega arith, (omega arith, (omega arith, tt))))

modulus_and_numbers-IsByte : All IsByte modulus_and_numbers
modulus_and_numbers-IsByte =
    (omega arith, All-append IsByte (replicate 31 0) numbers (zeros-IsByte 31) numbers-IsByte)

power-IsByte : All IsByte power
power-IsByte =
    All-append IsByte (replicate 31 0) (1 ∷ (replicate 31 0 ++ modulus_and_numbers))
      (zeros-IsByte 31)
      (
        omega arith,
        All-append IsByte (replicate 31 0) modulus_and_numbers (zeros-IsByte 31)
            modulus_and_numbers-IsByte,
      )

power_fits : base_length power + exponent_length power + modulus_length power < 2 ^ 64
unfolding right_pad from_be_onto
power_fits = omega arith

expmod_run-value_example :
    (let (base, exponent, modulus) =
        numbers_in
          (base_length power)
          (exponent_length power)
          (modulus_length power)
          (drop 96 (right_pad power 96)) in
      (out : Bytes) × (expmod_run powm power ≡ some out)
      × (length out ≡ modulus_length power)
      × (from_be out ≡ (if modulus == 0 then 0 else powm base exponent modulus)))
expmod_run-value_example = expmod_run-value powm powm_reduced power power-IsByte power_fits

least_expmod_gas : expmod_gas power berlin ≡ 200
unfolding expmod_gas expmod_fee exponent_head left_pad right_pad from_be_onto
    mult_complexity_eip2565 adjusted_exponent_len bit_length
least_expmod_gas = refl
