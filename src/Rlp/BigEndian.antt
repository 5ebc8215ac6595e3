-- ===== src/Rlp/BigEndian.antt =====
-- The shape of `big_endian`, and that it is the only canonical form of a number.
use silkworm.Common.{
  ℕ, zero, suc, ◌+◌, ◌-◌, ◌*◌, ◌/◌, ◌%◌, ◌^◌, ◌≤◌, ◌<◌, ◌≡◌, ◌≢◌, refl, ◌∙◌, ap, false, List, [],
  ◌∷◌, ◌++◌, append_assoc, append-nil, ◌==◌, if◌then◌else◌, length, length-drop, take, drop,
  replicate, Bytes, All, arith, Bool-cases, inl, inr,
}
use silkworm.Rlp.Result.{ok}
use silkworm.Rlp.Endian.{
  IsByte, to_be, from_be_onto, from_be, zero_bytes, big_endian, length-to_be, from_be-zeros,
  from_be-big_endian,
}
use silkworm.Rlp.Encode.{length_of_length}
use silkworm.Rlp.Decode.{read_uint}

-- A canonical byte string does not begin with a zero.
abbrev pub HasNoLeadingZero : Bytes → Type 0
HasNoLeadingZero [] = Unit
HasNoLeadingZero (b ∷ bs) = b ≢ 0

no_leading_zero : (bs : Bytes) → HasNoLeadingZero (drop (zero_bytes bs) bs)
unfolding zero_bytes
no_leading_zero [] = tt
no_leading_zero (b ∷ bs) = elim (Bool-cases (b == 0)) [
  | inl e ↦ rw (e, if◌then◌else◌) (no_leading_zero bs)
  | inr n ↦ rw (n, if◌then◌else◌) (ground arith)
]

pub big_endian-HasNoLeadingZero : (width n : ℕ) → HasNoLeadingZero (big_endian width n)
unfolding big_endian
big_endian-HasNoLeadingZero width n = no_leading_zero (to_be width n)

zero_bytes-le : (bs : Bytes) → zero_bytes bs ≤ length bs
unfolding zero_bytes
zero_bytes-le [] = omega arith
zero_bytes-le (b ∷ bs) = ground (arith, zero_bytes-le bs)

pub length-big_endian :
    (width n : ℕ) → length (big_endian width n) + zero_bytes (to_be width n) ≡ width
unfolding big_endian
length-big_endian width n = omega (
  arith,
  length-drop (zero_bytes (to_be width n)) (to_be width n),
  length-to_be width n,
  zero_bytes-le (to_be width n),
)

pub All-append {ℓ κ} :
    {A : Type ℓ} (P : A → Type κ) (xs ys : List A) → All P xs → All P ys → All P (xs ++ ys)
All-append P [] ys h g = g
All-append P (x ∷ xs) ys (hx, h) g = (hx, All-append P xs ys h g)

pub All-take {ℓ κ} :
    {A : Type ℓ} (P : A → Type κ) (n : ℕ) (xs : List A) → All P xs → All P (take n xs)
All-take P zero xs h = tt
All-take P (suc n) [] h = tt
All-take P (suc n) (x ∷ xs) (hx, h) = (hx, All-take P n xs h)

pub All-drop {ℓ κ} :
    {A : Type ℓ} (P : A → Type κ) (n : ℕ) (xs : List A) → All P xs → All P (drop n xs)
All-drop P zero xs h = h
All-drop P (suc n) [] h = h
All-drop P (suc n) (x ∷ xs) (hx, h) = All-drop P n xs h

to_be-IsByte : (k n : ℕ) → All IsByte (to_be k n)
unfolding to_be
to_be-IsByte zero n = tt
to_be-IsByte (suc k) n =
    All-append IsByte (to_be k (n / 256)) _ (to_be-IsByte k (n / 256)) (omega arith, tt)

pub big_endian-IsByte : (width n : ℕ) → All IsByte (big_endian width n)
unfolding big_endian
big_endian-IsByte width n = All-drop IsByte _ (to_be width n) (to_be-IsByte width n)

-- `read_uint` reads back what `big_endian` wrote.
read_uint_canonical :
    (width : ℕ) (bs : Bytes)
    → HasNoLeadingZero bs
    → length bs ≤ width
    → read_uint width false bs ≡ ok (from_be bs)
unfolding read_uint from_be_onto
read_uint_canonical width [] h l = refl
read_uint_canonical width (b ∷ bs) h l =
    ground (arith, from_be-zeros (width - length (b ∷ bs)) (b ∷ bs))

pub read_uint-big_endian :
    (width n : ℕ) → n < 256 ^ width → read_uint width false (big_endian width n) ≡ ok n
read_uint-big_endian width n h =
    read_uint_canonical width (big_endian width n) (big_endian-HasNoLeadingZero width n)
      (omega (arith, length-big_endian width n))
    ∙ ap ok (from_be-big_endian width n h)

pub length_of_length-big_endian :
    (n : ℕ) → 56 ≤ n → length_of_length n ≡ 1 + length (big_endian 8 n)
unfolding length_of_length
length_of_length-big_endian n h = ground (arith, length-big_endian 8 n)

-- A number above zero has at least one byte.
positive-ne-nil : (bs : Bytes) → 0 < from_be bs → 0 < length bs
unfolding from_be_onto
positive-ne-nil [] p = p
positive-ne-nil (b ∷ bs) p = omega arith

pub big_endian-ne-nil : (width n : ℕ) → n < 256 ^ width → 0 < n → 0 < length (big_endian width n)
big_endian-ne-nil width n h p =
    positive-ne-nil (big_endian width n) (omega (arith, from_be-big_endian width n h))

-- The other way round: a canonical byte string is the `big_endian` of the number that it spells.
to_be_byte : (k acc b : ℕ) → IsByte b → to_be (suc k) (acc * 256 + b) ≡ to_be k acc ++ b ∷ []
unfolding to_be
to_be_byte k acc b hb =
    ap (λ (q : ℕ). to_be k q ++ (acc * 256 + b) % 256 ∷ []) {y = acc} (omega arith)
    ∙ ap (λ (r : ℕ). to_be k acc ++ r ∷ []) {y = b} (omega arith)

to_be-onto :
    (bs : Bytes) (k acc : ℕ)
    → All IsByte bs
    → to_be (k + length bs) (from_be_onto acc bs) ≡ to_be k acc ++ bs
unfolding from_be_onto
to_be-onto [] k acc h = rw append-nil (ap (λ (j : ℕ). to_be j acc) (omega arith))
to_be-onto (b ∷ bs) k acc (hb, h) =
    ap (λ (j : ℕ). to_be j (from_be_onto (acc * 256 + b) bs)) {y = suc k + length bs} (omega arith)
    ∙ to_be-onto bs (suc k) (acc * 256 + b) h
    ∙ ap (λ (t : Bytes). t ++ bs) (to_be_byte k acc b hb)
    ∙ append_assoc (to_be k acc) (b ∷ []) bs

replicate-snoc : (k : ℕ) → ◌++◌ {A = ℕ} (replicate k 0) (0 ∷ []) ≡ replicate (suc k) 0
replicate-snoc zero = refl
replicate-snoc (suc k) = ap (λ (t : Bytes). 0 ∷ t) (replicate-snoc k)

to_be-zero : (k : ℕ) → to_be k 0 ≡ replicate k 0
unfolding to_be
to_be-zero zero = refl
to_be-zero (suc k) = ap (λ (t : Bytes). t ++ 0 ∷ []) (to_be-zero k) ∙ replicate-snoc k

to_be-from_be :
    (bs : Bytes) (width : ℕ)
    → All IsByte bs
    → length bs ≤ width
    → to_be width (from_be bs) ≡ replicate (width - length bs) 0 ++ bs
to_be-from_be bs width h l =
    ap (λ (j : ℕ). to_be j (from_be bs)) {y = width - length bs + length bs} (omega arith)
    ∙ to_be-onto bs (width - length bs) 0 h
    ∙ ap (λ (t : Bytes). t ++ bs) (to_be-zero (width - length bs))

strip_zeros :
    (k : ℕ) (bs : Bytes)
    → HasNoLeadingZero bs
    → drop (zero_bytes (replicate k 0 ++ bs)) (replicate k 0 ++ bs) ≡ bs
unfolding zero_bytes
strip_zeros zero [] h = refl
strip_zeros zero (b ∷ bs) h = ground arith
strip_zeros (suc k) bs h = strip_zeros k bs h

pub big_endian-from_be :
    (width : ℕ) (bs : Bytes)
    → All IsByte bs
    → HasNoLeadingZero bs
    → length bs ≤ width
    → big_endian width (from_be bs) ≡ bs
unfolding big_endian
big_endian-from_be width bs h z l =
    rw (to_be-from_be bs width h l) (strip_zeros (width - length bs) bs z)
