-- ===== src/Chain/Point.antt =====
-- src/chain/point.cpp: the serialization of points.
use bitprim_core.Common.{
  ℕ, ◌+◌, ◌%◌, ◌^◌, ◌<◌, ◌≡◌, ◌⊎◌, inl, inr, refl, arith, Bool, true, false, ◌++◌, ◌==◌,
}
use bitprim_core.Common.{append_assoc, if◌then◌else◌, length, length-append, replicate, Bytes}
use bitprim_core.Wire.Endian.{length-to_little_endian}
use bitprim_core.Wire.Serializer.{
  write_bytes, write_2_bytes_little_endian, write_4_bytes_little_endian, max_uint16, max_uint32,
}
use bitprim_core.Wire.Deserializer.{
  Read, reader, read_bytes, read_2_bytes_little_endian, read_4_bytes_little_endian,
}
use bitprim_core.Wire.RoundTrip.{read_bytes-write_bytes, read_2_bytes_lem, read_4_bytes_lem}
use bitprim_core.Chain.Types.{Point}

abbrev pub hash_size : ℕ
hash_size = 32

abbrev pub null_index : ℕ
null_index = max_uint32

-- What `reset()` leaves.
abbrev pub reset_point : Point
reset_point = record { hash = replicate hash_size 0; index = 0; valid = false }

-- The index in its wire form, or in its short form for the store.
unfoldable pub read_index : Bool → Read ℕ
read_index true r = read_4_bytes_little_endian r
read_index false r =
    let (index, r') = read_2_bytes_little_endian r in
    (if index == max_uint16 then null_index else index, r')

-- `point::from_data(source, wire)`
unfoldable pub point_from_data : Bool → Read Point
point_from_data wire r =
    let (hash, r1) = read_bytes hash_size r in
    let (index, r2) = read_index wire r1 in
    if r2.valid
    then (record { hash = hash; index = index; valid = true }, r2)
    else (reset_point, r2)

unfoldable pub write_index : Bool → ℕ → Bytes
write_index true index = write_4_bytes_little_endian index
write_index false index = write_2_bytes_little_endian (index % 2 ^ 16)

-- `point::to_data(sink, wire)`
unfoldable pub point_to_data : Bool → Point → Bytes
point_to_data wire point = write_bytes point.hash ++ write_index wire point.index

unfoldable pub point_serialized_size : Bool → ℕ
point_serialized_size wire = if wire then hash_size + 4 else hash_size + 2

-- The indexes that a form can hold: all of 32 bits, or the small ones and the null index, which is
-- what `to_data` asserts.
abbrev pub IsHeld : Bool → ℕ → Type 0
IsHeld true index = index < 2 ^ 32
IsHeld false index = (index < max_uint16) ⊎ (index ≡ null_index)

-- A point that a form can hold.
pub record IsSerializable (wire : Bool) (point : Point) : Type 0 where
  pub hash_length : length point.hash ≡ hash_size
  pub held : IsHeld wire point.index
  pub is_valid : point.valid ≡ true

read_index-write_index :
    (wire : Bool) (index : ℕ) (rest : Bytes)
    → IsHeld wire index
    → read_index wire (reader (write_index wire index ++ rest)) ≡ (index, reader rest)
unfolding read_index write_index
read_index-write_index true index rest h = read_4_bytes_lem index rest h
read_index-write_index false index rest (inl small) =
    rw (read_2_bytes_lem (index % 2 ^ 16) rest (omega arith)) (ground arith)
read_index-write_index false index rest (inr none) =
    rw (none, read_2_bytes_lem (null_index % 2 ^ 16) rest (omega arith)) refl

-- A point that its form can hold reads back in that form, whatever follows: on the wire every index
-- of 32 bits, in the store the null index and the indexes below 65535.
pub point_from_data-point_to_data :
    (wire : Bool) (point : Point) (rest : Bytes)
    → IsSerializable wire point
    → point_from_data wire (reader (point_to_data wire point ++ rest)) ≡ (point, reader rest)
unfolding point_from_data point_to_data
point_from_data-point_to_data wire point rest h =
    rw
      (
        append_assoc,
        read_bytes-write_bytes point.hash (write_index wire point.index ++ rest) hash_size
            h.hash_length,
        read_index-write_index wire point.index rest h.held,
      )
      (ground (arith, h.is_valid))

-- `serialized_size` of a point is the number of bytes that `to_data` writes, for a hash of 32 bytes.
pub length-point_to_data :
    (wire : Bool) (point : Point)
    → length point.hash ≡ hash_size
    → length (point_to_data wire point) ≡ point_serialized_size wire
unfolding point_to_data point_serialized_size write_index write_bytes write_2_bytes_little_endian
    write_4_bytes_little_endian
length-point_to_data true point h = omega (
  arith,
  h,
  length-append point.hash (write_4_bytes_little_endian point.index),
  length-to_little_endian 4 point.index,
)
length-point_to_data false point h = omega (
  arith,
  h,
  length-append point.hash (write_2_bytes_little_endian (point.index % 2 ^ 16)),
  length-to_little_endian 2 (point.index % 2 ^ 16),
)
