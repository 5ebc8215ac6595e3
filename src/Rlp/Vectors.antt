-- ===== src/Rlp/Vectors.antt =====
-- Vectors of any type that has a codec.
use silkworm.Common.{
  ℕ, zero, suc, ◌+◌, ◌%◌, ◌^◌, ◌≤◌, ◌<◌, ◌≡◌, sym, ◌∙◌, ap, true, List, [], ◌∷◌, ◌++◌, append_assoc,
  append-nil, length, length-append, take, drop, take_append, drop_append, Bytes, All, arith,
}
use silkworm.Rlp.Result.{Header, ok}
use silkworm.Rlp.Encode.{
  encode_header, length_of_length, payload_length_vector, length_vector, encode_all, encode_vector,
}
use silkworm.Rlp.Decode.{decode_header, decode_all, decode_vector}
use silkworm.Rlp.Headers.{IsNotSingle, decode_header-encode_header}
use silkworm.Rlp.Lengths.{encode_header-append, length-encode_header, length_of_length-le}
use silkworm.Rlp.Codec.{Codec}

module _ {ℓ} {A : Type ℓ} (c : Codec A) where
  -- The bytes of the elements, counted without wrapping.
  abbrev pub total_size : List A → ℕ
  total_size [] = 0
  total_size (x ∷ v) = c.size x + total_size v

  payload_length-eq :
      (v : List A) (total : ℕ)
      → total + total_size v < 2 ^ 64
      → payload_length_vector c.size total v ≡ total + total_size v
  unfolding payload_length_vector
  payload_length-eq [] total h = omega arith
  payload_length-eq (x ∷ v) total h =
      ap (λ (t : ℕ). payload_length_vector c.size t v) {y = total + c.size x} (omega arith)
      ∙ payload_length-eq v (total + c.size x) (omega arith)
      ∙ omega arith

  encode_all-append :
      (v : List A) (to : Bytes) → encode_all c.encode to v ≡ to ++ encode_all c.encode [] v
  unfolding encode_all
  encode_all-append [] to = sym (append-nil to)
  encode_all-append (x ∷ v) to =
      encode_all-append v (c.encode to x)
      ∙ ap (λ (t : Bytes). t ++ encode_all c.encode [] v) (c.encode-append to x)
      ∙ append_assoc to (c.encode [] x) (encode_all c.encode [] v)
      ∙ ap (λ (t : Bytes). to ++ t) (sym (encode_all-append v (c.encode [] x)))

  length-encode_all :
      (v : List A) (to : Bytes)
      → All c.IsSized v
      → length (encode_all c.encode to v) ≡ length to + total_size v
  unfolding encode_all
  length-encode_all [] to sized = omega arith
  length-encode_all (x ∷ v) to (hx, h) =
      omega (arith, length-encode_all v (c.encode to x) h, c.length-encode to x hx)

  Fits-IsSized : (v : List A) → All c.Fits v → All c.IsSized v
  Fits-IsSized [] h = tt
  Fits-IsSized (x ∷ v) (hx, h) = (c.sized x hx, Fits-IsSized v h)

  -- The header of a vector, with its payload counted.
  encode_vector-eq :
      (to : Bytes) (v : List A)
      → total_size v < 2 ^ 64
      → encode_vector c.encode c.size to v
        ≡ encode_all c.encode
            (encode_header to (record { list = true; payload_length = total_size v }))
            v
  unfolding encode_vector
  encode_vector-eq to v fits =
      ap
        (λ (n : ℕ).
          encode_all c.encode (encode_header to (record { list = true; payload_length = n })) v)
        {y = total_size v} (payload_length-eq v 0 (omega arith) ∙ omega arith)

  pub length_vector-eq :
      (v : List A)
      → total_size v < 2 ^ 64
      → length_vector c.size v ≡ (length_of_length (total_size v) + total_size v) % 2 ^ 64
  unfolding length_vector
  length_vector-eq v fits =
      ap (λ (n : ℕ). (length_of_length n + n) % 2 ^ 64) {y = total_size v}
        (payload_length-eq v 0 (omega arith) ∙ omega arith)

  -- `length` of a vector is the number of bytes that `encode` appends, if the elements take at least
  -- nine bytes fewer than 2^64, one by one and together.
  pub length-encode_vector :
      (to : Bytes) (v : List A)
      → All c.IsSized v
      → total_size v + 9 < 2 ^ 64
      → length (encode_vector c.encode c.size to v) ≡ length to + length_vector c.size v
  length-encode_vector to v sized fits =
      let few : length_of_length (total_size v) ≤ 9 = length_of_length-le (total_size v) in
      ap length (encode_vector-eq to v (omega arith))
      ∙ length-encode_all v _ sized
      ∙ omega (
        arith,
        few,
        length-encode_header to (record { list = true; payload_length = total_size v }),
        length_vector-eq v (omega arith),
      )

  pub encode_vector-append :
      (v : List A) (to : Bytes)
      → encode_vector c.encode c.size to v ≡ to ++ encode_vector c.encode c.size [] v
  unfolding encode_vector
  encode_vector-append v to =
      let head : Header = record {
        list = true;
        payload_length = payload_length_vector c.size 0 v;
      } in
      encode_all-append v (encode_header to head)
      ∙ ap (λ t. t ++ encode_all c.encode [] v) (encode_header-append to head)
      ∙ append_assoc to (encode_header [] head) (encode_all c.encode [] v)
      ∙ ap (λ t. to ++ t) (sym (encode_all-append v (encode_header [] head)))

  split_first :
      (x : A) (v : List A)
      → encode_all c.encode [] (x ∷ v) ≡ c.encode [] x ++ encode_all c.encode [] v
  split_first x v = unfold encode_all in encode_all-append v (c.encode [] x)

  decode_all_step :
      (fuel : ℕ) (view : Bytes) (x : A) (rest : Bytes) (done : List A)
      → c.decode view ≡ ok (x, rest)
      → 0 < length view
      → decode_all c.decode (suc fuel) view done ≡ decode_all c.decode fuel rest (done ++ x ∷ [])
  unfolding decode_all
  decode_all_step fuel [] x rest done e h = absurd (omega arith)
  decode_all_step fuel (b ∷ view) x rest done e h = rw e

  abbrev pub AllFit : List A → Type 0
  AllFit = All c.Fits

  decode_all-encode_all :
      (v : List A) (fuel : ℕ) (done : List A)
      → AllFit v
      → length (encode_all c.encode [] v) ≤ fuel
      → decode_all c.decode fuel (encode_all c.encode [] v) done ≡ ok (done ++ v)
  decode_all-encode_all [] fuel done h l =
      unfold encode_all decode_all in ap ok (sym (append-nil done))
  decode_all-encode_all (x ∷ v) zero done h l = absurd (
      omega (
        arith,
        length-encode_all (x ∷ v) [] (Fits-IsSized (x ∷ v) h),
        c.not_empty x (c.sized x h.0),
      ))
  decode_all-encode_all (x ∷ v) (suc fuel) done (hx, h) l =
      let tail = encode_all c.encode [] v in
      let front : encode_all c.encode [] (x ∷ v) ≡ c.encode [] x ++ tail = split_first x v in
      ap (λ (view : Bytes). decode_all c.decode (suc fuel) view done) front
      ∙ decode_all_step fuel (c.encode [] x ++ tail) x tail done (c.decode-encode x tail hx) (
          omega (
            arith,
            length-append (c.encode [] x) tail,
            c.length-encode [] x (c.sized x hx),
            c.not_empty x (c.sized x hx),
          ))
      ∙ decode_all-encode_all v fuel (done ++ x ∷ []) h (
          omega (
            arith,
            length-encode_all (x ∷ v) [] (c.sized x hx, Fits-IsSized v h),
            length-encode_all v [] (Fits-IsSized v h),
            c.not_empty x (c.sized x hx),
          ))
      ∙ ap ok (append_assoc done (x ∷ []) v)

  decode_vector_lem :
      (from view : Bytes) (n : ℕ) (v : List A)
      → decode_header from ≡ ok (record { list = true; payload_length = n }, view)
      → decode_all c.decode (length (take n view)) (take n view) [] ≡ ok v
      → decode_vector c.decode from ≡ ok (v, drop n view)
  unfolding decode_vector
  decode_vector_lem from view n v e h = rw e (rw h)

  -- A vector of values that fit, and that take fewer than 2^64 bytes together, is read back from its
  -- encoding, with whatever follows it.
  pub decode_vector-encode_vector :
      (v : List A) (rest : Bytes)
      → AllFit v
      → total_size v < 2 ^ 64
      → decode_vector c.decode (encode_vector c.encode c.size [] v ++ rest) ≡ ok (v, rest)
  decode_vector-encode_vector v rest h fits =
      let payload = encode_all c.encode [] v in
      let n : length payload ≡ total_size v =
        omega (arith, length-encode_all v [] (Fits-IsSized v h)) in
      let head : Header = record { list = true; payload_length = total_size v } in
      let front : take (total_size v) (payload ++ rest) ≡ payload =
        rw (← n) (take_append payload rest) in
      let back : drop (total_size v) (payload ++ rest) ≡ rest =
        rw (← n) (drop_append payload rest) in
      ap (λ (t : Bytes). decode_vector c.decode (t ++ rest))
        (encode_vector-eq [] v fits ∙ encode_all-append v (encode_header [] head))
      ∙ ap (decode_vector c.decode) (append_assoc (encode_header [] head) payload rest)
      ∙ decode_vector_lem _ (payload ++ rest) (total_size v) v
          (decode_header-encode_header head (payload ++ rest) fits
            (omega (arith, length-append payload rest, n)) (list_header (payload ++ rest)))
          (rw front (decode_all-encode_all v (length payload) [] h (omega arith)))
      ∙ ap (λ (t : Bytes). ok (v, t)) back
    where
      list_header :
          (body : Bytes) → IsNotSingle (record { list = true; payload_length = total_size v }) body
      list_header [] = tt
      list_header (b ∷ body) = λ e l. cc
