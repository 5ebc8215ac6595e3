-- ===== src/Evm/Contracts.antt =====
-- core/silkworm/execution/precompiled.cpp: the fees of the precompiled contracts, and the contracts
-- themselves but for those on the curve alt_bn128.
use Prim.Native.Nat.{max}
use silkworm.Common.{
  ℕ, zero, suc, ◌+◌, ◌-◌, ◌/◌, ◌%◌, ◌^◌, Bool, false, not, ◌&&◌, ◌||◌, Option, none, some, [], ◌∷◌,
  ◌++◌, ◌==◌, ltb, leb, if◌then◌else◌, length, take, drop, replicate, Bytes,
}
use silkworm.Rlp.Endian.{to_be, from_be}
use silkworm.Chain.Words.{add_word, sub_word, mul_word}
use silkworm.Chain.Config.{istanbul, berlin}
use silkworm.Types.Senders.{recover}
use silkworm.Chain.Signature.{is_valid_signature, v_to_y_parity_and_chain_id}

-- left_pad and right_pad of common/util.cpp
unfoldable pub left_pad : Bytes → ℕ → Bytes
left_pad view min_size = replicate (min_size - length view) 0 ++ view

unfoldable pub right_pad : Bytes → ℕ → Bytes
right_pad view min_size = view ++ replicate (min_size - length view) 0

-- The number in `size` bytes from `offset` on.
abbrev pub load : ℕ → ℕ → Bytes → ℕ
load size offset input = from_be (take size (drop offset input))

abbrev pub ecrec_gas : Bytes → ℕ → ℕ
ecrec_gas input rev = 3000

-- The product and the sum are of 64 bits.
abbrev pub gas_by_word : ℕ → ℕ → Bytes → ℕ
gas_by_word base per_word input =
    add_word 64 base (mul_word 64 per_word (add_word 64 (length input) 31 / 32))

abbrev pub sha256_gas : Bytes → ℕ → ℕ
sha256_gas input rev = gas_by_word 60 12 input

abbrev pub rip160_gas : Bytes → ℕ → ℕ
rip160_gas input rev = gas_by_word 600 120 input

abbrev pub id_gas : Bytes → ℕ → ℕ
id_gas input rev = gas_by_word 15 3 input

abbrev pub bn_add_gas : Bytes → ℕ → ℕ
bn_add_gas input rev = if leb istanbul rev then 150 else 500

abbrev pub bn_mul_gas : Bytes → ℕ → ℕ
bn_mul_gas input rev = if leb istanbul rev then 6000 else 40000

-- kSnarkvStride
abbrev pub snarkv_stride : ℕ
snarkv_stride = 192

abbrev pub snarkv_gas : Bytes → ℕ → ℕ
snarkv_gas input rev =
    let k = length input / snarkv_stride in
    if leb istanbul rev
    then add_word 64 (mul_word 64 34000 k) 45000
    else add_word 64 (mul_word 64 80000 k) 100000

abbrev pub blake2_f_gas : Bytes → ℕ → ℕ
blake2_f_gas input rev = if ltb (length input) 4 then 0 else load 4 0 input

unfoldable pub mult_complexity_eip198 : ℕ → ℕ
mult_complexity_eip198 x =
    if leb x 64
    then mul_word 256 x x
    else if leb x 1024
    then sub_word 256 (add_word 256 (mul_word 256 x x / 4) (mul_word 256 96 x)) 3072
    else sub_word 256 (add_word 256 (mul_word 256 x x / 16) (mul_word 256 480 x)) 199680

unfoldable pub mult_complexity_eip2565 : ℕ → ℕ
mult_complexity_eip2565 max_length =
    let words = add_word 256 max_length 7 / 8 in mul_word 256 words words

-- `256 - clz(n)`: how often `n` can be halved, with the number of bits as fuel.
unfoldable pub bit_length : ℕ → ℕ → ℕ
bit_length zero n = 0
bit_length (suc bits) n = let rest = bit_length bits (n / 2) in if n == 0 then 0 else suc rest

-- The first 32 bytes of the exponent, in the input behind the lengths.
unfoldable pub exponent_head : ℕ → ℕ → Bytes → ℕ
unfolding left_pad right_pad
exponent_head base_len64 exp_len64 input =
    if ltb base_len64 (length input)
    then (let exp_input = right_pad (drop base_len64 input) 32 in
        if ltb exp_len64 32
        then load 32 0 (left_pad (take exp_len64 exp_input) 32)
        else load 32 0 exp_input)
    else 0

unfoldable pub adjusted_exponent_len : ℕ → ℕ → ℕ
unfolding bit_length
adjusted_exponent_len exp_len256 exp_head =
    let bit_len = bit_length 256 exp_head in
    let len = if ltb 32 exp_len256 then mul_word 256 8 (sub_word 256 exp_len256 32) else 0 in
    let len = if ltb 1 bit_len then add_word 256 len (bit_len - 1) else len in
    if ltb len 1 then 1 else len

abbrev pub uint64_max : ℕ
uint64_max = 2 ^ 64 - 1

-- kGQuadDivisorByzantium and kGQuadDivisorBerlin
abbrev pub quad_divisor_byzantium : ℕ
quad_divisor_byzantium = 20

abbrev pub quad_divisor_berlin : ℕ
quad_divisor_berlin = 3

-- `expmod_gas` once the three lengths are known.
unfoldable pub expmod_fee : ℕ → ℕ → ℕ → ℕ → ℕ → ℕ
unfolding mult_complexity_eip198 mult_complexity_eip2565 adjusted_exponent_len
expmod_fee rev base_len256 exp_len256 mod_len256 exp_head =
    let min_gas = if ltb rev berlin then 0 else 200 in
    let adjusted = adjusted_exponent_len exp_len256 exp_head in
    let max_length = max mod_len256 base_len256 in
    let gas =
      if ltb rev berlin
      then mul_word 256 (mult_complexity_eip198 max_length) adjusted / quad_divisor_byzantium
      else mul_word 256 (mult_complexity_eip2565 max_length) adjusted / quad_divisor_berlin in
    if leb (2 ^ 64) gas then uint64_max else max min_gas gas

unfoldable pub expmod_gas : Bytes → ℕ → ℕ
unfolding right_pad exponent_head expmod_fee
expmod_gas input rev =
    let padded = right_pad input 96 in
    let base_len256 = load 32 0 padded in
    let exp_len256 = load 32 32 padded in
    let mod_len256 = load 32 64 padded in
    if base_len256 == 0 && mod_len256 == 0
    then (if ltb rev berlin then 0 else 200)
    else if leb (2 ^ 64) base_len256 || leb (2 ^ 64) exp_len256 || leb (2 ^ 64) mod_len256
    then uint64_max
    else expmod_fee rev base_len256 exp_len256 mod_len256
        (exponent_head base_len256 exp_len256 (drop 96 padded))

-- Of GMP: mpz_powm.
module _ (powm : ℕ → ℕ → ℕ → ℕ) where
  -- The three numbers behind the lengths.
  unfoldable pub expmod_numbers : ℕ → ℕ → ℕ → Bytes → Bytes
  unfolding right_pad
  expmod_numbers base_len exponent_len modulus_len rest =
      let input = right_pad rest (add_word 64 (add_word 64 base_len exponent_len) modulus_len) in
      let base = load base_len 0 input in
      let exponent = load exponent_len base_len input in
      let modulus = load modulus_len (base_len + exponent_len) input in
      if modulus == 0
      then replicate modulus_len 0
      else to_be modulus_len (powm base exponent modulus)

  unfoldable pub expmod_run : Bytes → Option Bytes
  unfolding right_pad expmod_numbers
  expmod_run input =
      let padded = right_pad input 96 in
      let base_len = load 8 24 padded in
      let exponent_len = load 8 56 padded in
      let modulus_len = load 8 88 padded in
      if modulus_len == 0
      then some []
      else some (expmod_numbers base_len exponent_len modulus_len (drop 96 padded))

-- Of the hash functions and of libsecp256k1.
module _ (keccak256 : Bytes → ℕ) (recover_key : Bytes → Bytes → Bool → Option Bytes) where
  -- The address of an uncompressed public key, whose first byte is 4.
  unfoldable pub address_of_key : Option Bytes → Bytes
  address_of_key none = []
  address_of_key (some []) = []
  address_of_key (some (b ∷ key)) =
      if b == 4 then replicate 12 0 ++ to_be 20 (keccak256 key % 2 ^ 160) else []

  unfoldable pub ecrec_run : Bytes → Option Bytes
  unfolding right_pad address_of_key recover is_valid_signature v_to_y_parity_and_chain_id
  ecrec_run input =
      let d = right_pad input 128 in
      let v = load 32 32 d in
      let r = load 32 64 d in
      let s = load 32 96 d in
      if not (is_valid_signature r s false)
      then some []
      else let y = v_to_y_parity_and_chain_id v in
        elim y.chain_id [
          | some chain_id ↦ some []
          | none ↦ some (
              address_of_key
                (recover keccak256 recover_key (take 32 d) (take 64 (drop 64 d)) y.odd))
        ]

unfoldable pub id_run : Bytes → Option Bytes
id_run input = some input

unfoldable pub sha256_run : (Bytes → Bytes) → Bytes → Option Bytes
sha256_run sha_256 input = some (sha_256 input)

unfoldable pub rip160_run : (Bytes → Bytes) → Bytes → Option Bytes
rip160_run ripemd_160 input = some (replicate 12 0 ++ ripemd_160 input)

-- `blake2b_compress` takes the final flag, the state h, the block, the counter t and the rounds, and
-- gives the new h.
unfoldable pub blake2_f_run : (Bool → Bytes → Bytes → Bytes → ℕ → Bytes) → Bytes → Option Bytes
blake2_f_run blake2b_compress input =
    if not (length input == 213)
    then none
    else let f = load 1 212 input in
      if not (f == 0) && not (f == 1)
      then none
      else some (
          blake2b_compress (not (f == 0)) (take 64 (drop 4 input)) (take 128 (drop 68 input))
            (take 16 (drop 196 input)) (load 4 0 input))
