-- ===== src/Machine/Operation.antt =====
-- include/bitcoin/bitcoin/impl/machine/operation.ipp and src/machine/operation.cpp: an operation is
-- a code with the data that it pushes.
pub mod Classes
pub mod Script
pub mod RoundTrip
mod Tests
use bitprim_core.Common.{
  ℕ, ◌+◌, ◌-◌, ◌%◌, ◌^◌, ◌≤◌, ◌<◌, Bool, true, false, not, ◌&&◌, ◌||◌, List, [],
}
use bitprim_core.Common.{◌∷◌, ◌++◌, ltb, leb, ◌==◌, if◌then◌else◌, length, get_or, Bytes}
use bitprim_core.Machine.Opcode.{Opcode, opcode_byte, opcode_from_byte}
use bitprim_core.Wire.Serializer.{
  write_byte, write_bytes, write_2_bytes_little_endian, write_4_bytes_little_endian,
}
use bitprim_core.Wire.Deserializer.{
  Reader, Read, return, invalidate, read_byte, read_bytes, read_2_bytes_little_endian,
  read_4_bytes_little_endian,
}

pub record Operation : Type 0 where
  pub code : Opcode
  pub bytes : Bytes
  pub valid : Bool

abbrev pub max_push_data_size : ℕ
max_push_data_size = 520

-- `get_max_block_size()` of a build for a currency other than Bitcoin Cash.
abbrev pub max_block_size : ℕ
max_block_size = 1_000_000

-- What `reset()` leaves: the code of a failed operation is a disabled one.
abbrev pub invalid_operation : Operation
invalid_operation = record { code = Opcode.disabled_xor; bytes = []; valid = false }

-- `==` of two codes.
abbrev pub code_eq : Opcode → Opcode → Bool
code_eq a b = opcode_byte a == opcode_byte b

unfoldable pub is_oversized : Operation → Bool
is_oversized op = ltb max_push_data_size (length op.bytes)

unfoldable pub opcode_from_size : ℕ → Opcode
opcode_from_size size =
    if leb size 75
    then opcode_from_byte size
    else if leb size 255
    then Opcode.push_one_size
    else if leb size 65535
    then Opcode.push_two_size
    else Opcode.push_four_size

unfoldable pub opcode_from_positive : ℕ → Opcode
opcode_from_positive value = opcode_from_byte (value + 81 - 1)

unfoldable pub opcode_to_positive : Opcode → ℕ
opcode_to_positive code = opcode_byte code - 81 + 1

-- The code for one byte: `number::negative_1` is 0x81 and `number::positive_0` is 0.
abbrev pub minimal_opcode_from_byte : ℕ → Opcode
minimal_opcode_from_byte value =
    if value == 0x81
    then Opcode.push_negative_1
    else if value == 0
    then Opcode.push_size 0
    else if leb 1 value && leb value 16
    then opcode_from_positive value
    else opcode_from_size 1

unfoldable pub minimal_opcode_from_data : Bytes → Opcode
minimal_opcode_from_data bytes =
    if length bytes == 1
    then minimal_opcode_from_byte (get_or bytes 0 0)
    else opcode_from_size (length bytes)

unfoldable pub nominal_opcode_from_data : Bytes → Opcode
nominal_opcode_from_data bytes = opcode_from_size (length bytes)

unfoldable pub opcode_from_data : Bytes → Bool → Opcode
opcode_from_data bytes minimal =
    if minimal then minimal_opcode_from_data bytes else nominal_opcode_from_data bytes

-- opcode: [1..78]
unfoldable pub is_payload : Opcode → Bool
is_payload code = leb 1 (opcode_byte code) && leb (opcode_byte code) 78

-- The data is dropped where a minimal code stands for it.
abbrev pub drop_numeric : Bool → Operation → Operation
drop_numeric minimal op =
    if minimal && not (is_payload op.code) then record op { bytes = [] } else op

-- `operation(uncoded, minimal)`
unfoldable pub operation : Bytes → Bool → Operation
unfolding is_oversized
operation uncoded minimal =
    let op : Operation = record {
      code = opcode_from_data uncoded minimal;
      bytes = uncoded;
      valid = true;
    } in
    drop_numeric minimal (if is_oversized op then invalid_operation else op)

-- `read_data_size`: the number of bytes that the code says it pushes.
unfoldable pub read_data_size : Opcode → Read ℕ
read_data_size Opcode.push_one_size = read_byte
read_data_size Opcode.push_two_size = read_2_bytes_little_endian
read_data_size Opcode.push_four_size = read_4_bytes_little_endian
read_data_size code = return (if leb (opcode_byte code) 75 then opcode_byte code else 0)

-- `if (!source) reset();`
abbrev checked : Operation → Read Operation
checked op r = if r.valid then (op, r) else (invalid_operation, r)

-- The data of a code, unless it is larger than a block.
abbrev read_payload : Opcode → ℕ → Read Operation
read_payload code size r =
    if ltb max_block_size size
    then (invalid_operation, invalidate r)
    else let (bytes, r') = read_bytes size r in
      checked (record { code = code; bytes = bytes; valid = true }) r'

-- `operation::from_data(reader& source)`
unfoldable pub op_from_data : Read Operation
op_from_data r =
    let (byte, r1) = read_byte r in
    let code = opcode_from_byte byte in
    let (size, r2) = read_data_size code r1 in read_payload code size r2

-- What `to_data` writes between the code and the data.
unfoldable pub size_prefix : Opcode → ℕ → Bytes
size_prefix Opcode.push_one_size size = write_byte (size % 2 ^ 8)
size_prefix Opcode.push_two_size size = write_2_bytes_little_endian (size % 2 ^ 16)
size_prefix Opcode.push_four_size size = write_4_bytes_little_endian (size % 2 ^ 32)
size_prefix code size = []

-- `operation::to_data(writer& sink)`
unfoldable pub op_to_data : Operation → Bytes
op_to_data op =
    write_byte (opcode_byte op.code)
    ++ (size_prefix op.code (length op.bytes) ++ write_bytes op.bytes)

-- The bytes that `size_prefix` takes.
unfoldable pub prefix_size : Opcode → ℕ
prefix_size Opcode.push_one_size = 1
prefix_size Opcode.push_two_size = 2
prefix_size Opcode.push_four_size = 4
prefix_size code = 0

unfoldable pub op_serialized_size : Operation → ℕ
op_serialized_size op = 1 + prefix_size op.code + length op.bytes
