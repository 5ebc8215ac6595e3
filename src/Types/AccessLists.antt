-- ===== src/Types/AccessLists.antt =====
-- core/silkworm/types/transaction.cpp: the RLP of an entry of an access list.
use silkworm.Common.{
  ℕ, ◌+◌, ◌-◌, ◌%◌, ◌^◌, ◌<◌, ◌≡◌, refl, sym, ap, append_assoc, ◌∙◌, true, not, List, [], ◌∷◌, ◌++◌,
  if◌then◌else◌, length, Bytes, All, arith,
}
use silkworm.Types.{AccessListEntry}
use silkworm.Rlp.Result.{Header, Result, ok, err, unexpected_string, ◌>>=◌, >>=-then}
use silkworm.Rlp.Encode.{encode_header, length_of_length, length_vector, encode_vector}
use silkworm.Rlp.Decode.{decode_header, decode_vector}
use silkworm.Rlp.Lengths.{encode_header-append, length_of_length-le}
use silkworm.Rlp.Codec.{Codec}
use silkworm.Rlp.Vectors.{total_size, encode_vector-append, decode_vector-encode_vector}
use silkworm.Types.Fields.{
  encode_fixed, decode_fixed, hash_codec, address_codec, write_all, codec-Appends, AllAppend, nil,
  cons, AllAppend-total, length-written, decode_header-write_all, finish_list, finish_list-eq,
}
use silkworm.Account.Storage.{hash_length}
use silkworm.Evm.Address.{address_length}
use silkworm.Types.Lists.{length-list, vector-Appends, length_vector-le}

abbrev pub length_hash : ℕ → ℕ
length_hash hash = hash_length + 1

abbrev pub entry_payload : AccessListEntry → ℕ
entry_payload e = (address_length + 1 + length_vector length_hash e.storage_keys) % 2 ^ 64

unfoldable pub length_entry : AccessListEntry → ℕ
length_entry e = (length_of_length (entry_payload e) + entry_payload e) % 2 ^ 64

abbrev pub entry_fields : AccessListEntry → List (Bytes → Bytes)
entry_fields e =
    (λ to. encode_fixed address_length to e.account)
    ∷ (λ to. encode_vector (encode_fixed hash_length) length_hash to e.storage_keys)
    ∷ []

unfoldable pub encode_entry : Bytes → AccessListEntry → Bytes
unfolding encode_header write_all
encode_entry to e =
    write_all (entry_fields e)
      (encode_header to (record { list = true; payload_length = entry_payload e }))

unfoldable pub decode_entry : Bytes → Result (AccessListEntry × Bytes)
unfolding decode_header decode_vector
decode_entry from = do
  (h, view) ← decode_header from
  if not h.list then err unexpected_string else do
    let leftover = length view - h.payload_length
    (account, view) ← decode_fixed address_length view
    (storage_keys, view) ← decode_vector (decode_fixed hash_length) view
    finish_list leftover (record { account = account; storage_keys = storage_keys }) view

-- The keys take fewer than 2^64 bytes, by far enough.
abbrev pub IsShort : AccessListEntry → Type 0
IsShort e = total_size hash_codec e.storage_keys + 40 < 2 ^ 64

pub record EntryFits (e : AccessListEntry) : Type 0 where
  pub account : e.account < 256 ^ 20
  pub storage_keys : All (λ key. key < 256 ^ 32) e.storage_keys
  pub short : IsShort e

pub hashes-IsSized : (keys : List ℕ) → All hash_codec.IsSized keys
hashes-IsSized [] = tt
hashes-IsSized (key ∷ keys) = (tt, hashes-IsSized keys)

entry_payload-eq :
    (e : AccessListEntry)
    → IsShort e
    → (entry_payload e ≡ 21 + length_vector length_hash e.storage_keys)
      × (entry_payload e < 2 ^ 64 - 9)
entry_payload-eq e short =
    let few = length_vector-le hash_codec e.storage_keys (omega (arith, short)) in
    (omega (arith, few, short), omega (arith, few, short))

entry_fields-AllAppend :
    (e : AccessListEntry) → IsShort e → AllAppend (entry_fields e) (entry_payload e)
entry_fields-AllAppend e short =
    let exact = (entry_payload-eq e short).0 in
    AllAppend-total
      (cons (codec-Appends address_codec e.account tt) (
        cons
          (vector-Appends hash_codec e.storage_keys (hashes-IsSized e.storage_keys)
            (omega (arith, short)))
          nil))
      (omega (arith, exact))

-- An entry that fits is read back from its encoding, with whatever follows it.
pub decode_entry-encode_entry :
    (e : AccessListEntry) (rest : Bytes)
    → EntryFits e
    → decode_entry (encode_entry [] e ++ rest) ≡ ok (e, rest)
unfolding decode_entry encode_entry
decode_entry-encode_entry e rest fits =
    let all = entry_fields-AllAppend e fits.short in
    let small = (entry_payload-eq e fits.short).1 in
    >>=-then _ _ (decode_header-write_all (entry_payload e) rest all refl (omega (arith, small))) (
      >>=-then _ _ (address_codec.decode-encode e.account _ fits.account) (
        >>=-then _ _
          (decode_vector-encode_vector hash_codec e.storage_keys rest fits.storage_keys
            (omega (arith, fits.short)))
          (finish_list-eq _ e rest (omega (arith, length-written rest all)))))

entry_size :
    (e : AccessListEntry)
    → IsShort e
    → length_entry e ≡ length_of_length (entry_payload e) + entry_payload e
unfolding length_entry
entry_size e short =
    omega (arith, (entry_payload-eq e short).1, length_of_length-le (entry_payload e))

entry_fields-append :
    (e : AccessListEntry) (start : Bytes)
    → write_all (entry_fields e) start
      ≡ start
        ++ (encode_fixed address_length [] e.account
            ++ encode_vector (encode_fixed hash_length) length_hash [] e.storage_keys)
unfolding write_all
entry_fields-append e start =
    let tail = encode_vector (encode_fixed hash_length) length_hash [] e.storage_keys in
    encode_vector-append hash_codec e.storage_keys (encode_fixed address_length start e.account)
    ∙ ap (λ t. t ++ tail) (address_codec.encode-append start e.account)
    ∙ append_assoc start (encode_fixed address_length [] e.account) tail

pub encode_entry-append :
    (to : Bytes) (e : AccessListEntry) → encode_entry to e ≡ to ++ encode_entry [] e
unfolding encode_entry
encode_entry-append to e =
    let head : Header = record { list = true; payload_length = entry_payload e } in
    let body =
      encode_fixed address_length [] e.account
      ++ encode_vector (encode_fixed hash_length) length_hash [] e.storage_keys in
    entry_fields-append e (encode_header to head)
    ∙ ap (λ t. t ++ body) (encode_header-append to head)
    ∙ append_assoc to (encode_header [] head) body
    ∙ ap (λ t. to ++ t) (sym (entry_fields-append e (encode_header [] head)))

pub length-encode_entry :
    (to : Bytes) (e : AccessListEntry)
    → IsShort e
    → length (encode_entry to e) ≡ length to + length_entry e
unfolding encode_entry
length-encode_entry to e short =
    length-list to (entry_payload e) (entry_fields-AllAppend e short) refl
    ∙ omega (arith, entry_size e short)

pub length_entry-pos : (e : AccessListEntry) → IsShort e → 0 < length_entry e
length_entry-pos e short = omega (arith, entry_size e short, (entry_payload-eq e short).0)

abbrev pub entry_codec : Codec AccessListEntry
entry_codec = record {
  encode = encode_entry;
  size = length_entry;
  decode = decode_entry;
  Fits = EntryFits;
  IsSized = IsShort;
  sized = λ e fits. fits.short;
  encode-append = encode_entry-append;
  length-encode = length-encode_entry;
  not_empty = length_entry-pos;
  decode-encode = decode_entry-encode_entry;
}
