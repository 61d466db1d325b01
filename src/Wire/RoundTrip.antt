-- ===== src/Wire/RoundTrip.antt =====
-- What a deserializer reads of what a serializer wrote.
use bitprim_core.Common.{ℕ, ◌*◌, ◌%◌, ◌^◌, ◌<◌, ◌≡◌, arith}
use bitprim_core.Common.{false, ◌++◌, append_assoc, inl, inr}
use bitprim_core.Common.{ltb, leb, le→leb, ltb→lt, leb→le, Bool-cases, ◌==◌}
use bitprim_core.Common.{length, length-append, take, drop, take-append, drop-append, Bytes}
use bitprim_core.Wire.Endian.{to_little_endian, to_big_endian}
use bitprim_core.Wire.Endian.{length-to_little_endian, length-to_big_endian}
use bitprim_core.Wire.Endian.{from_little_endian-to_little_endian, from_big_endian-to_big_endian}
use bitprim_core.Wire.Serializer.{
  write_byte, write_bytes, write_2_bytes_little_endian, write_4_bytes_little_endian,
  write_8_bytes_little_endian, write_2_bytes_big_endian, write_4_bytes_big_endian,
  write_8_bytes_big_endian, write_variable_little_endian, write_variable_big_endian, max_uint16,
  max_uint32, varint_two_bytes, varint_four_bytes, varint_eight_bytes, max_size_t,
}
use bitprim_core.Wire.Deserializer.{
  reader, check_safe, read_byte, read_bytes, read_little_endian, read_big_endian,
  read_2_bytes_little_endian, read_4_bytes_little_endian, read_8_bytes_little_endian,
  read_2_bytes_big_endian, read_4_bytes_big_endian, read_8_bytes_big_endian,
  read_variable_little_endian, read_variable_big_endian, read_size_little_endian,
}
use native.Mathlib.Nat.{mod-eq_of_lt}

-- The bytes `xs` stand at the iterator.
module _ (xs rest : Bytes) (n : ℕ) (e : length xs ≡ n) where
  pub check_safe-append : check_safe n (reader (xs ++ rest)) ≡ reader (xs ++ rest)
  unfolding check_safe
  check_safe-append = rw (le→leb n (length (xs ++ rest)) (omega (arith, e, length-append xs rest)))

  pub take-of : take n (xs ++ rest) ≡ xs
  take-of = rw (← e) (take-append xs rest)

  pub drop-of : drop n (xs ++ rest) ≡ rest
  drop-of = rw (← e) (drop-append xs rest)

  -- A read of as many bytes as were written gives them back.
  pub read_bytes-write_bytes : read_bytes n (reader (write_bytes xs ++ rest)) ≡ (xs, reader rest)
  unfolding read_bytes write_bytes
  read_bytes-write_bytes = rw (check_safe-append, take-of, drop-of)

module _ (size value : ℕ) (rest : Bytes) (h : value < 2 ^ (8 * size)) where
  pub read_little_endian-to_little_endian :
      read_little_endian size (reader (to_little_endian size value ++ rest)) ≡ (value, reader rest)
  unfolding read_little_endian
  read_little_endian-to_little_endian =
      let e = length-to_little_endian size value in
      rw (
        check_safe-append (to_little_endian size value) rest size e,
        drop-of (to_little_endian size value) rest size e,
        from_little_endian-to_little_endian size value rest h,
      )

  pub read_big_endian-to_big_endian :
      read_big_endian size (reader (to_big_endian size value ++ rest)) ≡ (value, reader rest)
  unfolding read_big_endian
  read_big_endian-to_big_endian =
      let e = length-to_big_endian size value in
      rw (
        check_safe-append (to_big_endian size value) rest size e,
        drop-of (to_big_endian size value) rest size e,
        from_big_endian-to_big_endian size value rest h,
      )

pub read_byte-write_byte :
    (b : ℕ) (rest : Bytes) → read_byte (reader (write_byte b ++ rest)) ≡ (b, reader rest)
unfolding read_byte write_byte check_safe
read_byte-write_byte b rest = ground arith

pub read_2_bytes_lem :
    (value : ℕ) (rest : Bytes)
    → value < 2 ^ 16
    → read_2_bytes_little_endian (reader (write_2_bytes_little_endian value ++ rest))
      ≡ (value, reader rest)
unfolding read_2_bytes_little_endian write_2_bytes_little_endian
read_2_bytes_lem = read_little_endian-to_little_endian 2

pub read_4_bytes_lem :
    (value : ℕ) (rest : Bytes)
    → value < 2 ^ 32
    → read_4_bytes_little_endian (reader (write_4_bytes_little_endian value ++ rest))
      ≡ (value, reader rest)
unfolding read_4_bytes_little_endian write_4_bytes_little_endian
read_4_bytes_lem = read_little_endian-to_little_endian 4

pub read_8_bytes_lem :
    (value : ℕ) (rest : Bytes)
    → value < 2 ^ 64
    → read_8_bytes_little_endian (reader (write_8_bytes_little_endian value ++ rest))
      ≡ (value, reader rest)
unfolding read_8_bytes_little_endian write_8_bytes_little_endian
read_8_bytes_lem = read_little_endian-to_little_endian 8

read_2_big_lem :
    (value : ℕ) (rest : Bytes)
    → value < 2 ^ 16
    → read_2_bytes_big_endian (reader (write_2_bytes_big_endian value ++ rest))
      ≡ (value, reader rest)
unfolding read_2_bytes_big_endian write_2_bytes_big_endian
read_2_big_lem = read_big_endian-to_big_endian 2

read_4_big_lem :
    (value : ℕ) (rest : Bytes)
    → value < 2 ^ 32
    → read_4_bytes_big_endian (reader (write_4_bytes_big_endian value ++ rest))
      ≡ (value, reader rest)
unfolding read_4_bytes_big_endian write_4_bytes_big_endian
read_4_big_lem = read_big_endian-to_big_endian 4

read_8_big_lem :
    (value : ℕ) (rest : Bytes)
    → value < 2 ^ 64
    → read_8_bytes_big_endian (reader (write_8_bytes_big_endian value ++ rest))
      ≡ (value, reader rest)
unfolding read_8_bytes_big_endian write_8_bytes_big_endian
read_8_big_lem = read_big_endian-to_big_endian 8

-- A value below the prefixes is its own byte, and none of them.
pub no_prefix :
    (value : ℕ)
    → value < varint_two_bytes
    → ((value == varint_eight_bytes) ≡ false)
      × ((value == varint_four_bytes) ≡ false)
      × ((value == varint_two_bytes) ≡ false)
      × (value % 2 ^ 8 ≡ value)
no_prefix value h = (ground arith, ground arith, ground arith, omega arith)

-- A variable integer reads back as the value that was written (little endian), for every uint64_t.
pub read_variable_little_endian-write_variable_little_endian :
    (value : ℕ) (rest : Bytes)
    → value < 2 ^ 64
    → read_variable_little_endian (reader (write_variable_little_endian value ++ rest))
      ≡ (value, reader rest)
unfolding read_variable_little_endian write_variable_little_endian
read_variable_little_endian-write_variable_little_endian value rest h =
    elim (Bool-cases (ltb value varint_two_bytes)) [
      | inl b1 ↦
          let (x, y, z, w) = no_prefix value (ltb→lt value varint_two_bytes b1) in
          rw (b1, read_byte-write_byte, w, x, y, z)
      | inr b2 ↦ rw b2 (elim (Bool-cases (leb value max_uint16)) [
        | inl b16 ↦
            let lt : value < 2 ^ 16 = omega (arith, leb→le value max_uint16 b16) in
            rw (b16, append_assoc, read_byte-write_byte, mod-eq_of_lt lt)
              (read_2_bytes_lem value rest lt)
        | inr c16 ↦ rw c16 (elim (Bool-cases (leb value max_uint32)) [
          | inl b32 ↦
              let lt : value < 2 ^ 32 = omega (arith, leb→le value max_uint32 b32) in
              rw (b32, append_assoc, read_byte-write_byte, mod-eq_of_lt lt)
                (read_4_bytes_lem value rest lt)
          | inr c32 ↦ rw (c32, append_assoc, read_byte-write_byte) (read_8_bytes_lem value rest h)
        ])
      ])
    ]

-- A variable integer reads back as the value that was written (big endian), for every uint64_t.
pub read_variable_big_endian-write_variable_big_endian :
    (value : ℕ) (rest : Bytes)
    → value < 2 ^ 64
    → read_variable_big_endian (reader (write_variable_big_endian value ++ rest))
      ≡ (value, reader rest)
unfolding read_variable_big_endian write_variable_big_endian
read_variable_big_endian-write_variable_big_endian value rest h =
    elim (Bool-cases (ltb value varint_two_bytes)) [
      | inl b1 ↦
          let (x, y, z, w) = no_prefix value (ltb→lt value varint_two_bytes b1) in
          rw (b1, read_byte-write_byte, w, x, y, z)
      | inr b2 ↦ rw b2 (elim (Bool-cases (leb value max_uint16)) [
        | inl b16 ↦
            let lt : value < 2 ^ 16 = omega (arith, leb→le value max_uint16 b16) in
            rw (b16, append_assoc, read_byte-write_byte, mod-eq_of_lt lt)
              (read_2_big_lem value rest lt)
        | inr c16 ↦ rw c16 (elim (Bool-cases (leb value max_uint32)) [
          | inl b32 ↦
              let lt : value < 2 ^ 32 = omega (arith, leb→le value max_uint32 b32) in
              rw (b32, append_assoc, read_byte-write_byte, mod-eq_of_lt lt)
                (read_4_big_lem value rest lt)
          | inr c32 ↦ rw (c32, append_assoc, read_byte-write_byte) (read_8_big_lem value rest h)
        ])
      ])
    ]

-- A size reads back too: a size_t of 64 bits holds every variable integer.
pub read_size_lem :
    (value : ℕ) (rest : Bytes)
    → value < 2 ^ 64
    → read_size_little_endian (reader (write_variable_little_endian value ++ rest))
      ≡ (value, reader rest)
unfolding read_size_little_endian
read_size_lem value rest h = rw (
  read_variable_little_endian-write_variable_little_endian value rest h,
  le→leb value max_size_t (omega arith),
)
