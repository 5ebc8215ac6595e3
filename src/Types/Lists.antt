-- ===== src/Types/Lists.antt =====
-- Lists within the lists that core/silkworm/types encodes.
use silkworm.Common.{
  ℕ, ◌+◌, ◌^◌, ◌≤◌, ◌<◌, ◌≡◌, sym, ◌∙◌, ap, true, List, [], ◌++◌, append-nil, append_assoc, length,
  Bytes, All, arith,
}
use silkworm.Rlp.Result.{Header}
use silkworm.Rlp.Encode.{encode_header, length_of_length, length_vector, encode_vector}
use silkworm.Rlp.Lengths.{encode_header-append, length-encode_header, length_of_length-le}
use silkworm.Rlp.Codec.{Codec}
use silkworm.Rlp.Vectors.{total_size, length_vector-eq, encode_vector-append, length-encode_vector}
use silkworm.Types.Fields.{
  write_all, Appends, written, AllAppend, write_all-written, length-write_all,
}

pub list-append :
    {writers : List (Bytes → Bytes)} {total : ℕ} (to : Bytes) (head : Header)
    → AllAppend writers total
    → write_all writers (encode_header to head) ≡ to ++ write_all writers (encode_header [] head)
list-append {writers = writers} to head all =
    spread to
    ∙ ap (λ t. t ++ written writers []) (encode_header-append to head)
    ∙ append_assoc to (encode_header [] head) (written writers [])
    ∙ ap (λ t. to ++ t) (sym (spread []))
  where
    spread :
        (start : Bytes)
        → write_all writers (encode_header start head)
          ≡ encode_header start head ++ written writers []
    spread start =
        sym (append-nil (write_all writers (encode_header start head)))
        ∙ write_all-written (encode_header start head) [] all

pub length-list :
    {writers : List (Bytes → Bytes)} {total : ℕ} (to : Bytes) (n : ℕ)
    → AllAppend writers total
    → n ≡ total
    → length (write_all writers (encode_header to (record { list = true; payload_length = n })))
      ≡ length to + (length_of_length n + n)
length-list to n all same =
    let head : Header = record { list = true; payload_length = n } in
    length-write_all (encode_header to head) all ∙ omega (arith, length-encode_header to head, same)

-- A vector as a field.
pub vector-Appends {ℓ} :
    {A : Type ℓ} (c : Codec A) (v : List A)
    → All c.IsSized v
    → total_size c v + 9 < 2 ^ 64
    → Appends (λ to. encode_vector c.encode c.size to v) (length_vector c.size v)
vector-Appends c v sized small = record {
  append = encode_vector-append c v;
  count = omega (arith, length-encode_vector c [] v sized small);
}

pub length_vector-le {ℓ} :
    {A : Type ℓ} (c : Codec A) (v : List A)
    → total_size c v + 9 < 2 ^ 64
    → length_vector c.size v ≤ total_size c v + 9
length_vector-le c v small =
    omega (arith, length_vector-eq c v (omega (arith, small)), length_of_length-le (total_size c v))
