-- ===== src/Rlp/Endian.antt =====
-- Big-endian byte strings: what `bswap` and `be::store` of the intx library lay out in memory, and
-- `big_endian` of core/silkworm/rlp/encode.cpp.
use silkworm.Common.{
  ℕ, zero, suc, ◌+◌, ◌*◌, ◌/◌, ◌%◌, ◌^◌, ◌<◌, ◌≡◌, refl, ◌∙◌, ap, [], ◌∷◌, ◌++◌, ◌==◌,
  if◌then◌else◌, length, length-append, drop, replicate, Bytes, arith, Bool-cases, inl, inr,
}
use native.Mathlib.Nat.{pow-suc}

abbrev pub IsByte : ℕ → Type 0
IsByte b = b < 256

-- The `k` bytes of a number below 256 ^ k, the highest first.
unfoldable pub to_be : ℕ → ℕ → Bytes
to_be zero n = []
to_be (suc k) n = to_be k (n / 256) ++ n % 256 ∷ []

-- The number that a big-endian byte string spells behind `acc`.
unfoldable pub from_be_onto : ℕ → Bytes → ℕ
from_be_onto acc [] = acc
from_be_onto acc (b ∷ bs) = from_be_onto (acc * 256 + b) bs

abbrev pub from_be : Bytes → ℕ
from_be = from_be_onto 0

-- `clz(n) / 8`, over the bytes of `n`.
unfoldable pub zero_bytes : Bytes → ℕ
zero_bytes [] = 0
zero_bytes (b ∷ bs) = if b == 0 then suc (zero_bytes bs) else 0

unfoldable pub big_endian : ℕ → ℕ → Bytes
unfolding to_be zero_bytes
big_endian width n = let buf = to_be width n in drop (zero_bytes buf) buf

abbrev pub big_endian64 : ℕ → Bytes
big_endian64 = big_endian 8

abbrev pub big_endian256 : ℕ → Bytes
big_endian256 = big_endian 32

pub length-to_be : (k n : ℕ) → length (to_be k n) ≡ k
unfolding to_be
length-to_be zero n = refl
length-to_be (suc k) n =
    omega (arith, length-append (to_be k (n / 256)) (n % 256 ∷ []), length-to_be k (n / 256))

from_be_onto-append :
    (acc : ℕ) (xs ys : Bytes) → from_be_onto acc (xs ++ ys) ≡ from_be_onto (from_be_onto acc xs) ys
unfolding from_be_onto
from_be_onto-append acc [] ys = refl
from_be_onto-append acc (x ∷ xs) ys = from_be_onto-append (acc * 256 + x) xs ys

pub from_be-to_be : (k n : ℕ) → n < 256 ^ k → from_be (to_be k n) ≡ n
unfolding from_be_onto to_be
from_be-to_be zero n h = omega arith
from_be-to_be (suc k) n h =
    from_be_onto-append 0 (to_be k (n / 256)) (n % 256 ∷ [])
    ∙ omega (arith, from_be-to_be k (n / 256) (omega (arith, pow-suc 256 k)))

-- Leading zeros do not count.
from_be-drop_zeros : (bs : Bytes) → from_be (drop (zero_bytes bs) bs) ≡ from_be bs
unfolding from_be_onto zero_bytes
from_be-drop_zeros [] = refl
from_be-drop_zeros (b ∷ bs) = elim (Bool-cases (b == 0)) [
  | inl e ↦
      rw (e, if◌then◌else◌)
        (from_be-drop_zeros bs
          ∙ ap (λ (c : ℕ). from_be_onto c bs) {x = 0} {y = 0 * 256 + b} (ground arith))
  | inr n ↦ rw (n, if◌then◌else◌)
]

pub from_be-zeros : (k : ℕ) (bs : Bytes) → from_be (replicate k 0 ++ bs) ≡ from_be bs
unfolding from_be_onto
from_be-zeros zero bs = refl
from_be-zeros (suc k) bs = from_be-zeros k bs

pub from_be-big_endian : (width n : ℕ) → n < 256 ^ width → from_be (big_endian width n) ≡ n
unfolding big_endian
from_be-big_endian width n h = from_be-drop_zeros (to_be width n) ∙ from_be-to_be width n h
