-- ===== src/Chain/Signature.antt =====
-- core/silkworm/crypto/ecdsa.cpp: the parity of a signature in its `v`, and the range of `r` and `s`.
use silkworm.Common.{
  ℕ, ◌+◌, ◌*◌, ◌/◌, ◌%◌, ◌^◌, ◌≤◌, ◌<◌, ◌≡◌, ◌∙◌, refl, Bool, true, false, ◌&&◌, ◌||◌, Option, none,
  some, ◌==◌, ltb, leb, if◌then◌else◌, arith, ◌↔◌, ◌⊎◌, ◌≢◌,
}
use silkworm.Chain.Words.{add_word, sub_word, mul_word}

abbrev pub secp256k1n : ℕ
secp256k1n = 0xfffffffffffffffffffffffffffffffebaaedce6af48a03bbfd25e8cd0364141

abbrev pub secp256k1_halfn : ℕ
secp256k1_halfn = secp256k1n / 2

pub record YParityAndChainId : Type 0 where
  pub odd : Bool
  pub chain_id : Option ℕ

unfoldable pub y_parity_and_chain_id_to_v : Bool → Option ℕ → ℕ
y_parity_and_chain_id_to_v odd none = if odd then 28 else 27
y_parity_and_chain_id_to_v odd (some chain_id) =
    add_word 256 (add_word 256 (mul_word 256 chain_id 2) 35) (if odd then 1 else 0)

unfoldable pub v_to_y_parity_and_chain_id : ℕ → YParityAndChainId
v_to_y_parity_and_chain_id v =
    if v == 27 || v == 28
    then record { odd = v == 28; chain_id = none }
    else let w = sub_word 256 v 35 in
      record { odd = (w % 2 ^ 64 % 2) == 1; chain_id = some (w / 2) }

unfoldable pub is_valid_signature : ℕ → ℕ → Bool → Bool
is_valid_signature r s homestead =
    if r == 0 || s == 0
    then false
    else if leb secp256k1n r && leb secp256k1n s
    then false
    else if homestead && ltb secp256k1_halfn s
    then false
    else true

-- Every 256-bit `v` is the `v` of the parity and the chain that are read from it.
pub y_parity_and_chain_id_to_v-v_to_y_parity_and_chain_id :
    (v : ℕ)
    → v < 2 ^ 256
    → (let res = v_to_y_parity_and_chain_id v in y_parity_and_chain_id_to_v res.odd res.chain_id)
      ≡ v
unfolding y_parity_and_chain_id_to_v v_to_y_parity_and_chain_id
y_parity_and_chain_id_to_v-v_to_y_parity_and_chain_id v h = ground arith

from_v :
    (w : ℕ)
    → w + 35 < 2 ^ 256
    → v_to_y_parity_and_chain_id (w + 35) ≡ record { odd = (w % 2) == 1; chain_id = some (w / 2) }
unfolding v_to_y_parity_and_chain_id
from_v w h =
    let new : (((w + 35) == 27) || ((w + 35) == 28)) ≡ false = ground arith in
    let back : sub_word 256 (w + 35) 35 ≡ w = omega arith in
    let low : w % 2 ^ 64 % 2 ≡ w % 2 = omega arith in rw (new, if◌then◌else◌) (rw (back, low) refl)

-- A parity is read back from its `v`, with the chain, unless the `v` of the chain does not fit into
-- 256 bits.
pub v_to_y_parity_and_chain_id-y_parity_and_chain_id_to_v :
    (odd : Bool) (chain_id : Option ℕ)
    → ((id : ℕ) → chain_id ≡ some id → id * 2 + 36 < 2 ^ 256)
    → v_to_y_parity_and_chain_id (y_parity_and_chain_id_to_v odd chain_id)
      ≡ record { odd = odd; chain_id = chain_id }
unfolding y_parity_and_chain_id_to_v v_to_y_parity_and_chain_id
v_to_y_parity_and_chain_id-y_parity_and_chain_id_to_v true none h = refl
v_to_y_parity_and_chain_id-y_parity_and_chain_id_to_v false none h = refl
v_to_y_parity_and_chain_id-y_parity_and_chain_id_to_v true (some id) h =
    let v : y_parity_and_chain_id_to_v true (some id) ≡ (id * 2 + 1) + 35 =
      omega (arith, h id refl) in
    let half : (id * 2 + 1) / 2 ≡ id = omega arith in
    let low : (id * 2 + 1) % 2 ≡ 1 = omega arith in
    rw v (from_v (id * 2 + 1) (omega (arith, h id refl)) ∙ rw (half, low) refl)
v_to_y_parity_and_chain_id-y_parity_and_chain_id_to_v false (some id) h =
    let v : y_parity_and_chain_id_to_v false (some id) ≡ id * 2 + 35 = omega (arith, h id refl) in
    let half : id * 2 / 2 ≡ id = omega arith in
    let low : id * 2 % 2 ≡ 0 = omega arith in
    rw v (from_v (id * 2) (omega (arith, h id refl)) ∙ rw (half, low) refl)

-- A signature is accepted just when neither number is zero, not both reach the order of the curve,
-- and from Homestead on the second is at most half of it.
pub is_valid_signature_iff :
    (r s : ℕ) (homestead : Bool)
    → (is_valid_signature r s homestead ≡ true) ↔ (
        (r ≢ 0)
        × (s ≢ 0)
        × ((r < secp256k1n) ⊎ (s < secp256k1n))
        × (homestead ≡ true → s ≤ secp256k1_halfn))
unfolding is_valid_signature
is_valid_signature_iff r s true = ground arith
is_valid_signature_iff r s false = ground arith
