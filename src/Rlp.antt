-- ===== src/Rlp.antt =====
-- core/silkworm/rlp: the encoding of headers, integers, byte strings and vectors.
pub mod Result
pub mod Endian
pub mod Encode
pub mod Decode
pub mod BigEndian
pub mod Headers
pub mod RoundTrip
pub mod Lengths
pub mod Codec
pub mod Vectors
pub mod Canonical
