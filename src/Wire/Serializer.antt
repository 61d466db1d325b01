-- ===== src/Wire/Serializer.antt =====
-- include/bitcoin/bitcoin/impl/utility/serializer.ipp: writing integers, sizes and strings.
-- A writing operation is the bytes that it puts at the iterator, so a run of writes is the
-- concatenation of theirs. `read_size_*` works on the bytes that lie ahead of the iterator.
use bitprim_core.Common.{ℕ, ◌-◌, ◌%◌, ◌^◌, min, [], ◌∷◌, ◌++◌}
use bitprim_core.Common.{ltb, leb, ◌==◌, if◌then◌else◌, length, take, drop, replicate, Bytes}
use bitprim_core.Wire.Endian.{to_little_endian, to_big_endian, from_little_endian, from_big_endian}

abbrev pub varint_two_bytes : ℕ
varint_two_bytes = 0xfd

abbrev pub varint_four_bytes : ℕ
varint_four_bytes = 0xfe

abbrev pub varint_eight_bytes : ℕ
varint_eight_bytes = 0xff

abbrev pub max_uint16 : ℕ
max_uint16 = 2 ^ 16 - 1

abbrev pub max_uint32 : ℕ
max_uint32 = 2 ^ 32 - 1

-- `max_size_t`, for a size_t of 64 bits.
abbrev pub max_size_t : ℕ
max_size_t = 2 ^ 64 - 1

unfoldable pub write_byte : ℕ → Bytes
write_byte value = value ∷ []

-- `write_forward`, and with it `write_bytes` and the hashes.
unfoldable pub write_bytes : Bytes → Bytes
write_bytes bytes = bytes

unfoldable pub write_2_bytes_big_endian : ℕ → Bytes
write_2_bytes_big_endian value = to_big_endian 2 value

unfoldable pub write_4_bytes_big_endian : ℕ → Bytes
write_4_bytes_big_endian value = to_big_endian 4 value

unfoldable pub write_8_bytes_big_endian : ℕ → Bytes
write_8_bytes_big_endian value = to_big_endian 8 value

unfoldable pub write_variable_big_endian : ℕ → Bytes
write_variable_big_endian value =
    if ltb value varint_two_bytes
    then write_byte (value % 2 ^ 8)
    else if leb value max_uint16
    then write_byte varint_two_bytes ++ write_2_bytes_big_endian (value % 2 ^ 16)
    else if leb value max_uint32
    then write_byte varint_four_bytes ++ write_4_bytes_big_endian (value % 2 ^ 32)
    else write_byte varint_eight_bytes ++ write_8_bytes_big_endian value

unfoldable pub write_2_bytes_little_endian : ℕ → Bytes
write_2_bytes_little_endian value = to_little_endian 2 value

unfoldable pub write_4_bytes_little_endian : ℕ → Bytes
write_4_bytes_little_endian value = to_little_endian 4 value

unfoldable pub write_8_bytes_little_endian : ℕ → Bytes
write_8_bytes_little_endian value = to_little_endian 8 value

unfoldable pub write_variable_little_endian : ℕ → Bytes
write_variable_little_endian value =
    if ltb value varint_two_bytes
    then write_byte (value % 2 ^ 8)
    else if leb value max_uint16
    then write_byte varint_two_bytes ++ write_2_bytes_little_endian (value % 2 ^ 16)
    else if leb value max_uint32
    then write_byte varint_four_bytes ++ write_4_bytes_little_endian (value % 2 ^ 32)
    else write_byte varint_eight_bytes ++ write_8_bytes_little_endian value

-- `write_string(value)`: the size, then the characters.
unfoldable pub write_string : Bytes → Bytes
write_string value = write_variable_little_endian (length value) ++ write_bytes value

-- `write_string(value, size)`: cut or padded with zeros to `size` characters.
unfoldable pub write_fixed_string : Bytes → ℕ → Bytes
write_fixed_string value size =
    let count = min size (length value) in
    write_bytes (take count value) ++ write_bytes (replicate (size - count) 0)

-- The byte at the iterator. Reading past the buffer is undefined, and 0 here.
abbrev pub at_iterator : Bytes → ℕ
at_iterator [] = 0
at_iterator (b ∷ ahead) = b

-- `serializer::read_size_big_endian`: the size, and the
-- bytes ahead. (The test that invalidates stands behind it and is not reached.) The case for eight bytes has no `break`, so it falls into the case for four: the
-- iterator moves on 8 + 4 bytes, and the four bytes at `begin` are returned.
unfoldable pub read_size_big_endian : Bytes → ℕ × Bytes
read_size_big_endian buffer =
    let prefix = at_iterator buffer in
    let begin = drop 1 buffer in
    if prefix == varint_eight_bytes
    then (from_big_endian 4 begin, drop 4 (drop 8 begin))
    else if prefix == varint_four_bytes
    then (from_big_endian 4 begin, drop 4 begin)
    else if prefix == varint_two_bytes
    then (from_big_endian 2 begin, drop 2 begin)
    else (prefix, begin)

-- `serializer::read_size_little_endian`, with the same fall through.
unfoldable pub read_size_little_endian : Bytes → ℕ × Bytes
read_size_little_endian buffer =
    let prefix = at_iterator buffer in
    let begin = drop 1 buffer in
    if prefix == varint_eight_bytes
    then (from_little_endian 4 begin, drop 4 (drop 8 begin))
    else if prefix == varint_four_bytes
    then (from_little_endian 4 begin, drop 4 begin)
    else if prefix == varint_two_bytes
    then (from_little_endian 2 begin, drop 2 begin)
    else (prefix, begin)
