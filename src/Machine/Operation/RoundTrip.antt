-- ===== src/Machine/Operation/RoundTrip.antt =====
-- Operations and scripts read back as they were written.
use bitprim_core.Common.{ℕ, zero, suc, ◌%◌, ◌^◌, ◌≤◌, ◌<◌, ◌≡◌, refl, sym, ap, arith}
use bitprim_core.Common.{Bool, true, false, List, [], ◌∷◌, ◌++◌, append_assoc, leb, ◌==◌}
use bitprim_core.Common.{le→ltb, if◌then◌else◌, length, length-append, All, Bytes}
use bitprim_core.Machine.Opcode.{Opcode, opcode_byte, opcode_from_byte}
use bitprim_core.Machine.Operation.{
  Operation, max_block_size, read_data_size, op_from_data, size_prefix, op_to_data, prefix_size,
  op_serialized_size,
}
use bitprim_core.Machine.Operation.Script.{operations_loop, operations, operations_to_data}
use bitprim_core.Wire.Endian.{length-to_little_endian}
use bitprim_core.Wire.Serializer.{
  write_byte, write_bytes, write_2_bytes_little_endian, write_4_bytes_little_endian,
}
use bitprim_core.Wire.Deserializer.{reader, is_exhausted}
use bitprim_core.Wire.RoundTrip.{
  read_byte-write_byte, read_bytes-write_bytes, read_2_bytes_lem, read_4_bytes_lem,
}
use native.Mathlib.Nat.{mod-eq_of_lt}

-- The number of data bytes that a code can carry.
abbrev pub Carries : Opcode → ℕ → Type 0
Carries Opcode.push_one_size n = n < 2 ^ 8
Carries Opcode.push_two_size n = n < 2 ^ 16
Carries Opcode.push_four_size n = n < 2 ^ 32
Carries code n = (if leb (opcode_byte code) 75 then opcode_byte code else 0) ≡ n

-- An operation that a script can hold: its code is a byte, and the data fits the code.
pub record IsCoded (op : Operation) : Type 0 where
  pub code_byte : opcode_from_byte (opcode_byte op.code) ≡ op.code
  pub carries : Carries op.code (length op.bytes)
  pub bounded : length op.bytes ≤ max_block_size
  pub is_valid : op.valid ≡ true

read_data_size-size_prefix :
    (code : Opcode) (n : ℕ) (rest : Bytes)
    → Carries code n
    → read_data_size code (reader (size_prefix code n ++ rest)) ≡ (n, reader rest)
unfolding read_data_size size_prefix
read_data_size-size_prefix Opcode.push_one_size n rest h =
    rw (mod-eq_of_lt h) (read_byte-write_byte n rest)
read_data_size-size_prefix Opcode.push_two_size n rest h =
    rw (mod-eq_of_lt h) (read_2_bytes_lem n rest h)
read_data_size-size_prefix Opcode.push_four_size n rest h =
    rw (mod-eq_of_lt h) (read_4_bytes_lem n rest h)
read_data_size-size_prefix code n rest h = ap (λ (t : ℕ). (t, reader rest)) h

-- Where the code is a byte and the data is as long as the code says and no larger than a block,
-- `from_data` reads back what `to_data` wrote, whatever follows, and stops right behind it.
op_from_data-op_to_data :
    (op : Operation) (rest : Bytes)
    → IsCoded op
    → op_from_data (reader (op_to_data op ++ rest)) ≡ (op, reader rest)
unfolding op_from_data op_to_data
op_from_data-op_to_data op rest h =
    rw
      (
        append_assoc,
        read_byte-write_byte,
        h.code_byte,
        append_assoc,
        read_data_size-size_prefix op.code (length op.bytes) (write_bytes op.bytes ++ rest)
            h.carries,
        le→ltb max_block_size (length op.bytes) h.bounded,
        read_bytes-write_bytes op.bytes rest (length op.bytes) refl,
      )
      (ap (λ (b : Bool). (record op { valid = b }, reader rest)) (sym h.is_valid))

length-size_prefix : (code : Opcode) (n : ℕ) → length (size_prefix code n) ≡ prefix_size code
unfolding size_prefix prefix_size write_byte write_2_bytes_little_endian write_4_bytes_little_endian
length-size_prefix Opcode.push_one_size n = refl
length-size_prefix Opcode.push_two_size n = length-to_little_endian 2 (n % 2 ^ 16)
length-size_prefix Opcode.push_four_size n = length-to_little_endian 4 (n % 2 ^ 32)
length-size_prefix code n = refl

-- `serialized_size` is the number of bytes that `to_data` writes, for every operation.
pub length-op_to_data : (op : Operation) → length (op_to_data op) ≡ op_serialized_size op
unfolding op_to_data op_serialized_size write_byte write_bytes
length-op_to_data op =
    let n = length op.bytes in
    omega (arith, length-append (size_prefix op.code n) op.bytes, length-size_prefix op.code n)

script_size :
    (op : Operation) (ops : List Operation)
    → length (operations_to_data ops) < length (operations_to_data (op ∷ ops))
unfolding operations_to_data op_serialized_size
script_size op ops =
    omega (arith, length-append (op_to_data op) (operations_to_data ops), length-op_to_data op)

operations_loop_lem :
    (ops : List Operation) (fuel : ℕ)
    → All IsCoded ops
    → length (operations_to_data ops) < fuel
    → operations_loop fuel (reader (operations_to_data ops)) ≡ ops
unfolding operations_loop is_exhausted
operations_loop_lem ops zero h hf = absurd (omega arith)
operations_loop_lem [] (suc fuel) h hf = unfold operations_to_data in refl
operations_loop_lem (op ∷ ops) (suc fuel) (ho, h) hf =
    rw (read, more)
      (ap (λ (l : List Operation). op ∷ l)
        (operations_loop_lem ops fuel h (omega (arith, script_size op ops))))
  where
    read :
        op_from_data (reader (operations_to_data (op ∷ ops)))
        ≡ (op, reader (operations_to_data ops))
    read = unfold operations_to_data in op_from_data-op_to_data op (operations_to_data ops) ho

    more : (length (operations_to_data (op ∷ ops)) == 0) ≡ false
    more = ground (arith, script_size op ops)

-- The operations of the script that a list of such operations makes are that list; the loop of
-- `operations` has fuel enough for it.
pub operations-operations_to_data :
    (ops : List Operation) → All IsCoded ops → operations (operations_to_data ops) ≡ ops
unfolding operations
operations-operations_to_data ops h = operations_loop_lem ops _ h (omega arith)
