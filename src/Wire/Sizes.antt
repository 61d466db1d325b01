-- ===== src/Wire/Sizes.antt =====
-- The sizes that the serializer reads by itself.
use bitprim_core.Common.{ℕ, ◌/◌, ◌%◌, ◌^◌, ◌<◌, ◌≡◌, arith}
use bitprim_core.Common.{true, ◌++◌, append_assoc, inl, inr}
use bitprim_core.Common.{ltb, leb, ltb→lt, leb→le, Bool-cases, if◌then◌else◌}
use bitprim_core.Common.{drop, Bytes}
use bitprim_core.Wire.Endian.{to_little_endian}
use bitprim_core.Wire.Endian.{length-to_little_endian}
use bitprim_core.Wire.Endian.{from_little_endian-to_little_endian}
use bitprim_core.Wire.Serializer
use bitprim_core.Wire.Serializer.{
  write_byte, write_bytes, write_2_bytes_little_endian, write_4_bytes_little_endian,
  write_8_bytes_little_endian, write_2_bytes_big_endian, write_4_bytes_big_endian,
  write_8_bytes_big_endian, write_variable_little_endian, write_variable_big_endian, write_string,
  write_fixed_string, max_uint16, max_uint32, varint_two_bytes, varint_four_bytes,
  varint_eight_bytes, max_size_t,
}
use native.Mathlib.Nat.{mod-eq_of_lt}
use bitprim_core.Wire.RoundTrip.{no_prefix, drop-of}

low_half :
    (value : ℕ)
    → to_little_endian 8 value
      ≡ to_little_endian 4 (value % 2 ^ 32) ++ to_little_endian 4 (value / 2 ^ 32)
unfolding to_little_endian
low_half value = ground arith

-- The serializer's own `read_size_little_endian`, on what it wrote for a uint64_t: a size of at most
-- 32 bits reads back, and of a larger one the low 32 bits are returned and the four bytes behind it
-- are lost.
pub serializer_read_size_lem :
    (value : ℕ) (rest : Bytes)
    → value < 2 ^ 64
    → Serializer.read_size_little_endian (write_variable_little_endian value ++ rest)
      ≡ (if leb value max_uint32 then (value, rest) else (value % 2 ^ 32, drop 4 rest))
unfolding Serializer.read_size_little_endian write_variable_little_endian write_byte
    write_2_bytes_little_endian write_4_bytes_little_endian write_8_bytes_little_endian
serializer_read_size_lem value rest h = elim (Bool-cases (ltb value varint_two_bytes)) [
  | inl b1 ↦
      let (x, y, z, w) = no_prefix value (ltb→lt value varint_two_bytes b1) in
      let le : leb value max_uint32 ≡ true = ground arith in rw (b1, w, x, y, z, le)
  | inr b2 ↦ rw b2 (elim (Bool-cases (leb value max_uint16)) [
    | inl b16 ↦
        let lt : value < 2 ^ 16 = omega (arith, leb→le value max_uint16 b16) in
        let le : leb value max_uint32 ≡ true = ground arith in
        rw (
          b16,
          le,
          append_assoc,
          mod-eq_of_lt lt,
          from_little_endian-to_little_endian 2 value rest lt,
          drop-of (to_little_endian 2 value) rest 2 (length-to_little_endian 2 value),
        )
    | inr c16 ↦ rw c16 (elim (Bool-cases (leb value max_uint32)) [
      | inl b32 ↦
          let lt : value < 2 ^ 32 = omega (arith, leb→le value max_uint32 b32) in
          rw (
            b32,
            append_assoc,
            mod-eq_of_lt lt,
            from_little_endian-to_little_endian 4 value rest lt,
            drop-of (to_little_endian 4 value) rest 4 (length-to_little_endian 4 value),
          )
      | inr c32 ↦ rw (
        c32,
        append_assoc,
        drop-of (to_little_endian 8 value) rest 8 (length-to_little_endian 8 value),
        low_half,
        append_assoc,
        from_little_endian-to_little_endian 4 (value % 2 ^ 32)
            (to_little_endian 4 (value / 2 ^ 32) ++ rest) (omega arith),
      )
    ])
  ])
]
