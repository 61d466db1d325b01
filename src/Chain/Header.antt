-- ===== src/Chain/Header.antt =====
-- src/chain/header.cpp: the serialization of block headers.
use bitprim_core.Common.{
  ℕ, ◌+◌, ◌^◌, ◌<◌, ◌≡◌, refl, arith, Bool, true, false, not, ◌||◌, [], ◌++◌, ◌==◌,
}
use bitprim_core.Common.{
  append_assoc, if◌then◌else◌, length, length-append, replicate, Bytes, bytes_eq,
}
use bitprim_core.Wire.Endian.{length-to_little_endian}
use bitprim_core.Wire.Serializer.{write_bytes, write_4_bytes_little_endian}
use bitprim_core.Wire.Deserializer.{Read, reader, read_bytes, read_4_bytes_little_endian}
use bitprim_core.Wire.RoundTrip.{read_bytes-write_bytes, read_4_bytes_lem}
use bitprim_core.Chain.Point.{hash_size}

-- chain/header.hpp, with `validation.median_time_past`, which the wire form leaves alone.
pub record Header : Type 0 where
  pub version : ℕ
  pub previous_block_hash : Bytes
  pub merkle : Bytes
  pub timestamp : ℕ
  pub bits : ℕ
  pub nonce : ℕ
  pub median_time_past : ℕ

abbrev pub null_hash : Bytes
null_hash = replicate hash_size 0

-- `header::reset()`
unfoldable pub reset_header : Header → Header
reset_header header = record header {
  version = 0;
  previous_block_hash = null_hash;
  merkle = null_hash;
  timestamp = 0;
  bits = 0;
  nonce = 0;
}

-- `header::is_valid()`
unfoldable pub is_valid_header : Header → Bool
is_valid_header header =
    not (header.version == 0)
    || not (bytes_eq header.previous_block_hash null_hash)
    || not (bytes_eq header.merkle null_hash)
    || not (header.timestamp == 0)
    || not (header.bits == 0)
    || not (header.nonce == 0)

-- `if (!wire)`: the median time past, or the one that is there already.
abbrev pub read_median : Bool → ℕ → Read ℕ
read_median true median r = (median, r)
read_median false median r = read_4_bytes_little_endian r

-- `header::from_data(source, wire)`, into a header that has a median time past.
unfoldable pub header_from_data : Bool → ℕ → Read Header
header_from_data wire median r =
    let (version, r1) = read_4_bytes_little_endian r in
    let (previous_block_hash, r2) = read_bytes hash_size r1 in
    let (merkle, r3) = read_bytes hash_size r2 in
    let (timestamp, r4) = read_4_bytes_little_endian r3 in
    let (bits, r5) = read_4_bytes_little_endian r4 in
    let (nonce, r6) = read_4_bytes_little_endian r5 in
    let (median_time_past, r7) = read_median wire median r6 in
    let header : Header = record {
      version = version;
      previous_block_hash = previous_block_hash;
      merkle = merkle;
      timestamp = timestamp;
      bits = bits;
      nonce = nonce;
      median_time_past = median_time_past;
    } in
    (if r7.valid then header else reset_header header, r7)

abbrev write_median : Bool → ℕ → Bytes
write_median true median = []
write_median false median = write_4_bytes_little_endian median

-- `header::to_data(sink, wire)`
unfoldable pub header_to_data : Bool → Header → Bytes
header_to_data wire header =
    write_4_bytes_little_endian header.version
    ++ (write_bytes header.previous_block_hash
        ++ (write_bytes header.merkle
            ++ (write_4_bytes_little_endian header.timestamp
                ++ (write_4_bytes_little_endian header.bits
                    ++ (write_4_bytes_little_endian header.nonce
                        ++ write_median wire header.median_time_past)))))

-- `satoshi_fixed_size` and the median time past.
unfoldable pub header_serialized_size : Bool → ℕ
header_serialized_size wire = 4 + hash_size + hash_size + 4 + 4 + 4 + (if wire then 0 else 4)

-- The fields are in the ranges of their types.
pub record IsRanged (header : Header) : Type 0 where
  pub version : header.version < 2 ^ 32
  pub previous : length header.previous_block_hash ≡ hash_size
  pub merkle : length header.merkle ≡ hash_size
  pub timestamp : header.timestamp < 2 ^ 32
  pub bits : header.bits < 2 ^ 32
  pub nonce : header.nonce < 2 ^ 32
  pub median : header.median_time_past < 2 ^ 32

read_median-write_median :
    (wire : Bool) (median : ℕ) (rest : Bytes)
    → median < 2 ^ 32
    → read_median wire median (reader (write_median wire median ++ rest)) ≡ (median, reader rest)
read_median-write_median true median rest h = refl
read_median-write_median false median rest h = read_4_bytes_lem median rest h

-- A header whose fields are in the ranges of their types reads back, in both forms, whatever
-- follows: on the wire into a header that has its median time past already.
pub header_from_data-header_to_data :
    (wire : Bool) (header : Header) (rest : Bytes)
    → IsRanged header
    → header_from_data wire header.median_time_past (reader (header_to_data wire header ++ rest))
      ≡ (header, reader rest)
unfolding header_from_data header_to_data
header_from_data-header_to_data wire header rest h =
    rw
      (
        append_assoc,
        append_assoc,
        append_assoc,
        append_assoc,
        append_assoc,
        append_assoc,
        read_4_bytes_lem header.version after_version h.version,
        read_bytes-write_bytes header.previous_block_hash after_previous hash_size h.previous,
        read_bytes-write_bytes header.merkle after_merkle hash_size h.merkle,
        read_4_bytes_lem header.timestamp after_timestamp h.timestamp,
        read_4_bytes_lem header.bits after_bits h.bits,
        read_4_bytes_lem header.nonce after_nonce h.nonce,
        read_median-write_median wire header.median_time_past rest h.median,
      )
      refl
  where
    after_nonce : Bytes
    after_nonce = write_median wire header.median_time_past ++ rest

    after_bits : Bytes
    after_bits = write_4_bytes_little_endian header.nonce ++ after_nonce

    after_timestamp : Bytes
    after_timestamp = write_4_bytes_little_endian header.bits ++ after_bits

    after_merkle : Bytes
    after_merkle = write_4_bytes_little_endian header.timestamp ++ after_timestamp

    after_previous : Bytes
    after_previous = write_bytes header.merkle ++ after_merkle

    after_version : Bytes
    after_version = write_bytes header.previous_block_hash ++ after_previous

length-write_median :
    (wire : Bool) (median : ℕ) → length (write_median wire median) ≡ (if wire then 0 else 4)
unfolding write_4_bytes_little_endian
length-write_median true median = refl
length-write_median false median = length-to_little_endian 4 median

-- `serialized_size` of a header is the number of bytes that `to_data` writes, for hashes of 32 bytes.
pub length-header_to_data :
    (wire : Bool) (header : Header)
    → length header.previous_block_hash ≡ hash_size
    → length header.merkle ≡ hash_size
    → length (header_to_data wire header) ≡ header_serialized_size wire
unfolding header_to_data header_serialized_size write_bytes write_4_bytes_little_endian
length-header_to_data wire header hp hm =
    rw
      (
        length-append, length-append, length-append, length-append, length-append, length-append,
        length-to_little_endian, length-to_little_endian, length-to_little_endian,
        length-to_little_endian, length-write_median, hp, hm,
      )
      (omega arith)
