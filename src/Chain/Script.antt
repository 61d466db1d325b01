-- ===== src/Chain/Script.antt =====
-- src/chain/script.cpp and src/message/messages.cpp: the bytes of a script, with or without their
-- size.
use bitprim_core.Common.{ℕ, ◌+◌, ◌%◌, ◌^◌, ◌≤◌, ◌≡◌, refl, arith, Bool, true, false, [], ◌++◌}
use bitprim_core.Common.{
  append_assoc, ltb, leb, le→ltb, if◌then◌else◌, length, length-append, Bytes,
}
use bitprim_core.Wire.Endian.{length-to_little_endian}
use bitprim_core.Wire.Serializer.{
  write_byte, write_bytes, write_variable_little_endian, write_2_bytes_little_endian,
  write_4_bytes_little_endian, write_8_bytes_little_endian,
}
use bitprim_core.Wire.Deserializer.{Read, reader, invalidate, read_bytes, read_size_little_endian}
use bitprim_core.Wire.RoundTrip.{read_bytes-write_bytes, read_size_lem}
use bitprim_core.Machine.Operation.{max_block_size}

unfoldable pub variable_uint_size : ℕ → ℕ
variable_uint_size value =
    if ltb value 0xfd
    then 1
    else if leb value 0xffff
    then 3
    else if leb value 0xffffffff
    then 5
    else 9

-- `read_bytes()`: all that is left.
abbrev pub read_remaining : Read Bytes
read_remaining r = read_bytes (length r.rest) r

-- The bytes behind a size, which are not read where they are more than a block.
abbrev pub read_script : Read Bytes
read_script r =
    let (size, r') = read_size_little_endian r in
    if ltb max_block_size size then ([], invalidate r') else read_bytes size r'

-- `script::from_data(source, prefix)`
unfoldable pub script_from_data : Bool → Read Bytes
script_from_data prefix r =
    let (bytes, r') = (if prefix then read_script r else read_remaining r) in
    if r'.valid then (bytes, r') else ([], r')

-- `script::serialized_size(prefix)`
unfoldable pub script_serialized_size : Bool → Bytes → ℕ
script_serialized_size prefix bytes =
    if prefix then length bytes + variable_uint_size (length bytes) else length bytes

-- `script::to_data(sink, prefix)`
unfoldable pub script_to_data : Bool → Bytes → Bytes
script_to_data prefix bytes =
    if prefix
    then write_variable_little_endian (script_serialized_size false bytes) ++ write_bytes bytes
    else write_bytes bytes

-- `variable_uint_size` is the number of bytes that a variable integer takes.
pub length-write_variable_little_endian :
    (value : ℕ) → length (write_variable_little_endian value) ≡ variable_uint_size value
unfolding write_variable_little_endian variable_uint_size write_byte write_2_bytes_little_endian
    write_4_bytes_little_endian write_8_bytes_little_endian
length-write_variable_little_endian value = ground (
  arith,
  length-to_little_endian 2 (value % 2 ^ 16),
  length-to_little_endian 4 (value % 2 ^ 32),
  length-to_little_endian 8 value,
)

-- A script of at most the size of a block reads back from its bytes with their size, whatever
-- follows.
pub script_from_data-script_to_data :
    (bytes rest : Bytes)
    → length bytes ≤ max_block_size
    → script_from_data true (reader (script_to_data true bytes ++ rest)) ≡ (bytes, reader rest)
unfolding script_from_data script_to_data script_serialized_size
script_from_data-script_to_data bytes rest h =
    rw
      (
        append_assoc,
        read_size_lem (length bytes) (write_bytes bytes ++ rest) (omega arith),
        le→ltb max_block_size (length bytes) h,
        read_bytes-write_bytes bytes rest (length bytes) refl,
      )
      refl

-- `serialized_size` of a script is the number of bytes that `to_data` writes.
pub length-script_to_data :
    (prefix : Bool) (bytes : Bytes)
    → length (script_to_data prefix bytes) ≡ script_serialized_size prefix bytes
unfolding script_to_data script_serialized_size write_bytes
length-script_to_data true bytes = omega (
  arith,
  length-append (write_variable_little_endian (length bytes)) bytes,
  length-write_variable_little_endian (length bytes),
)
length-script_to_data false bytes = refl
