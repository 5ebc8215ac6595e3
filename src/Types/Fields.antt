-- ===== src/Types/Fields.antt =====
-- The fields of the lists that core/silkworm/types encodes: numbers of a fixed length, and writers of
-- one field after the other.
use mathlib.Core.Path.{subst}
use silkworm.Common.{
  ℕ, ◌+◌, ◌%◌, ◌^◌, ◌≤◌, ◌<◌, ◌≡◌, ◌≢◌, refl, sym, ◌∙◌, ap, List, [], ◌∷◌, ◌++◌, append-nil,
  append_assoc, length, length-append, Bytes, arith, true, ◌==◌, ==_refl, if◌then◌else◌,
}
use silkworm.Rlp.Result.{Header, Result, ok, err, list_length_mismatch, ◌>>=◌, >>=-then}
use silkworm.Rlp.Endian.{to_be, from_be, length-to_be, from_be-to_be}
use silkworm.Rlp.Encode.{encode_span, encode_header}
use silkworm.Rlp.Decode.{decode_span, decode_header}
use silkworm.Rlp.Headers.{IsNotSingle, decode_header-encode_header}
use silkworm.Rlp.RoundTrip.{decode_span-encode_span}
use silkworm.Rlp.Codec.{Codec, uint_codec}

-- An address, a hash or a nonce: an array of `size` bytes, which the model keeps as a number.
unfoldable pub encode_fixed : ℕ → Bytes → ℕ → Bytes
unfolding encode_span to_be
encode_fixed size to n = encode_span to (to_be size n)

unfoldable pub decode_fixed : ℕ → Bytes → Result (ℕ × Bytes)
unfolding decode_span
decode_fixed size from = do (bytes, rest) ← decode_span size from; ok (from_be bytes, rest)

pub encode_fixed-append :
    (size : ℕ) (to : Bytes) (n : ℕ) → encode_fixed size to n ≡ to ++ encode_fixed size [] n
unfolding encode_fixed encode_span
encode_fixed-append size to n = append_assoc to _ (to_be size n)

pub length-encode_fixed :
    (size : ℕ) (to : Bytes) (n : ℕ) → length (encode_fixed size to n) ≡ length to + (size + 1)
unfolding encode_fixed encode_span
length-encode_fixed size to n = omega (
  arith,
  length-append (to ++ (128 + length (to_be size n)) % 256 ∷ []) (to_be size n),
  length-append to ((128 + length (to_be size n)) % 256 ∷ []),
  length-to_be size n,
)

pub decode_fixed-encode_fixed :
    (size n : ℕ) (rest : Bytes)
    → size ≤ 55
    → size ≢ 1
    → n < 256 ^ size
    → decode_fixed size (encode_fixed size [] n ++ rest) ≡ ok (n, rest)
unfolding decode_fixed encode_fixed
decode_fixed-encode_fixed size n rest small not_one fits =
    let same : length (to_be size n) ≡ size = length-to_be size n in
    let read =
      decode_span-encode_span (to_be size n) rest (omega (arith, same))
        (λ e. not_one (sym same ∙ e)) in
    >>=-then _ _ (ap (λ k. decode_span k (encode_span [] (to_be size n) ++ rest)) (sym same) ∙ read)
      (ap (λ k. ok (k, rest)) (from_be-to_be size n fits))

abbrev pub fixed_codec : (size : ℕ) → size ≤ 55 → size ≢ 1 → Codec ℕ
fixed_codec size small not_one = record {
  encode = encode_fixed size;
  size = λ n. size + 1;
  decode = decode_fixed size;
  Fits = λ n. n < 256 ^ size;
  encode-append = encode_fixed-append size;
  IsSized = λ n. Unit;
  sized = λ n fits. tt;
  length-encode = λ to n u. length-encode_fixed size to n;
  not_empty = λ n u. omega arith;
  decode-encode = λ n rest fits. decode_fixed-encode_fixed size n rest small not_one fits;
}

abbrev pub hash_codec : Codec ℕ
hash_codec = fixed_codec 32 (omega arith) (λ e. absurd (omega arith))

abbrev pub address_codec : Codec ℕ
address_codec = fixed_codec 20 (omega arith) (λ e. absurd (omega arith))

-- The nonce of a header is an array of 8 bytes.
abbrev pub nonce_codec : Codec ℕ
nonce_codec = fixed_codec 8 (omega arith) (λ e. absurd (omega arith))

abbrev pub uint64_codec : Codec ℕ
uint64_codec = uint_codec 8 (omega arith) (omega arith)

abbrev pub uint256_codec : Codec ℕ
uint256_codec = uint_codec 32 (omega arith) (omega arith)

-- Calls of `encode`, one after the other.
unfoldable pub write_all : List (Bytes → Bytes) → Bytes → Bytes
write_all [] to = to
write_all (write ∷ writers) to = write_all writers (write to)

-- A writer that appends a number of bytes, which do not depend on what is there.
pub record Appends (write : Bytes → Bytes) (size : ℕ) : Type 0 where
  pub append : (to : Bytes) → write to ≡ to ++ write []
  pub count : length (write []) ≡ size

pub codec-Appends {ℓ} :
    {A : Type ℓ} (c : Codec A) (x : A) → c.IsSized x → Appends (λ to. c.encode to x) (c.size x)
codec-Appends c x sized = record {
  append = λ to. c.encode-append to x;
  count = omega (arith, c.length-encode [] x sized);
}

-- What the writers write, in front of `rest`.
abbrev pub written : List (Bytes → Bytes) → Bytes → Bytes
written [] rest = rest
written (write ∷ writers) rest = write [] ++ written writers rest

-- The writers append as many bytes as the sizes say.
pub data AllAppend : List (Bytes → Bytes) → ℕ → Type 0 where
  nil : AllAppend [] 0
  cons :
      {write : Bytes → Bytes} {writers : List (Bytes → Bytes)} {size total : ℕ}
      → Appends write size
      → AllAppend writers total
      → AllAppend (write ∷ writers) (size + total)

-- `written` is what the writers append, and as long as they say.
pub write_all-written :
    {writers : List (Bytes → Bytes)} {total : ℕ} (to rest : Bytes)
    → AllAppend writers total
    → write_all writers to ++ rest ≡ to ++ written writers rest
unfolding write_all
write_all-written to rest nil = refl
write_all-written to rest (cons {write = write} {writers = writers} h hs) =
    write_all-written (write to) rest hs
    ∙ ap (λ t. t ++ written writers rest) (h.append to)
    ∙ append_assoc to (write []) (written writers rest)

pub length-written :
    {writers : List (Bytes → Bytes)} {total : ℕ} (rest : Bytes)
    → AllAppend writers total
    → length (written writers rest) ≡ total + length rest
length-written rest nil = omega arith
length-written rest (cons {write = write} {writers = writers} h hs) =
    omega (arith, length-append (write []) (written writers rest), h.count, length-written rest hs)

pub length-write_all :
    {writers : List (Bytes → Bytes)} {total : ℕ} (to : Bytes)
    → AllAppend writers total
    → length (write_all writers to) ≡ length to + total
length-write_all {writers = writers} to all =
    ap length (sym (append-nil (write_all writers to)) ∙ write_all-written to [] all)
    ∙ omega (arith, length-append to (written writers []), length-written [] all)

pub AllAppend-total :
    {writers : List (Bytes → Bytes)} {total other : ℕ}
    → AllAppend writers total
    → total ≡ other
    → AllAppend writers other
AllAppend-total {writers = writers} h same = subst (λ t. AllAppend writers t) same h

list-IsNotSingle :
    (n : ℕ) (body : Bytes) → IsNotSingle (record { list = true; payload_length = n }) body
list-IsNotSingle n [] = tt
list-IsNotSingle n (b ∷ body) = λ e l. cc

-- The header of a list is read, and then comes what the writers wrote.
pub decode_header-write_all :
    {writers : List (Bytes → Bytes)} {total : ℕ} (n : ℕ) (rest : Bytes)
    → AllAppend writers total
    → n ≡ total
    → n < 2 ^ 64
    → decode_header
        (write_all writers (encode_header [] (record { list = true; payload_length = n })) ++ rest)
      ≡ ok (record { list = true; payload_length = n }, written writers rest)
decode_header-write_all {writers = writers} n rest all same fits =
    let head : Header = record { list = true; payload_length = n } in
    ap decode_header (write_all-written (encode_header [] head) rest all)
    ∙ decode_header-encode_header head (written writers rest) fits
        (omega (arith, same, length-written rest all)) (list-IsNotSingle n (written writers rest))

-- The end of a list: whether the decoded fields are as long as the header said.
abbrev pub finish_list {ℓ} : {A : Type ℓ} → ℕ → A → Bytes → Result (A × Bytes)
finish_list leftover x view =
    if length view == leftover then ok (x, view) else err list_length_mismatch

pub finish_list-eq {ℓ} :
    {A : Type ℓ} (leftover : ℕ) (x : A) (rest : Bytes)
    → leftover ≡ length rest
    → finish_list leftover x rest ≡ ok (x, rest)
finish_list-eq leftover x rest same = rw (same, ==_refl (length rest)) refl
