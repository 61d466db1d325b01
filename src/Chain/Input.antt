-- ===== src/Chain/Input.antt =====
-- src/chain/input.cpp: the serialization of inputs, for a currency other than Bitcoin Cash.
use bitprim_core.Common.{
  ℕ, ◌+◌, ◌^◌, ◌≤◌, ◌<◌, ◌≡◌, refl, arith, Bool, true, false, not, ◌&&◌, ◌||◌, List, [], ◌++◌,
}
use bitprim_core.Common.{append_assoc, if◌then◌else◌, length, length-append, Bytes, All}
use bitprim_core.Wire.Endian.{length-to_little_endian}
use bitprim_core.Wire.Serializer.{write_4_bytes_little_endian}
use bitprim_core.Wire.Deserializer.{Read, reader, read_4_bytes_little_endian}
use bitprim_core.Wire.RoundTrip.{read_4_bytes_lem}
use bitprim_core.Machine.Operation.{max_block_size}
use bitprim_core.Chain.Types.{Input}
use bitprim_core.Chain.Script.{
  script_from_data, script_to_data, script_serialized_size, script_from_data-script_to_data,
  length-script_to_data,
}
use bitprim_core.Chain.Point.{
  reset_point, point_from_data, point_to_data, point_serialized_size, IsSerializable,
  point_from_data-point_to_data, length-point_to_data,
}
use bitprim_core.Chain.Witness.{
  witness_from_data, witness_to_data, witness_serialized_size, IsElement,
  witness_from_data-witness_to_data, length-witness_to_data,
}

-- What `reset()` leaves.
abbrev pub reset_input : Input
reset_input = record { previous_output = reset_point; script = []; witness = []; sequence = 0 }

-- `witness |= !wire`
abbrev pub with_witness : Bool → Bool → Bool
with_witness wire witness = witness || not wire

-- `if (witness && !wire)`
abbrev pub read_stack : Bool → Read (List Bytes)
read_stack stored r = if stored then witness_from_data r else ([], r)

-- What follows the previous output, which was read.
abbrev pub read_tail : Bool → Read (Bytes × List Bytes × ℕ)
read_tail stored r =
    let (script, r1) = script_from_data true r in
    let (stack, r2) = read_stack stored r1 in
    let (sequence, r3) = read_4_bytes_little_endian r2 in ((script, stack, sequence), r3)

-- `input::from_data(source, wire, witness)`
unfoldable pub input_from_data : Bool → Bool → Read Input
input_from_data wire witness r =
    let (point, r1) = point_from_data wire r in
    let ((script, stack, sequence), r2) = read_tail (with_witness wire witness && not wire) r1 in
    if not r1.valid
    then (reset_input, r1)
    else if r2.valid
    then (
      record { previous_output = point; script = script; witness = stack; sequence = sequence },
      r2,
    )
    else (reset_input, r2)

abbrev pub write_stack : Bool → List Bytes → Bytes
write_stack stored stack = if stored then witness_to_data stack else []

-- `input::to_data(sink, wire, witness)`
unfoldable pub input_to_data : Bool → Bool → Input → Bytes
input_to_data wire witness input =
    point_to_data wire input.previous_output
    ++ (script_to_data true input.script
        ++ (write_stack (with_witness wire witness && not wire) input.witness
            ++ write_4_bytes_little_endian input.sequence))

-- `input::serialized_size(wire, witness)`, which counts the witness of a wire form too: the
-- transaction writes it.
unfoldable pub input_serialized_size : Bool → Bool → Input → ℕ
input_serialized_size wire witness input =
    point_serialized_size wire
    + script_serialized_size true input.script
    + (if with_witness wire witness then witness_serialized_size input.witness else 0)
    + 4

-- The fields are in the ranges of their types, and the data within the limits of the reader.
pub record IsInputRanged (wire : Bool) (input : Input) : Type 0 where
  pub point : IsSerializable wire input.previous_output
  pub script : length input.script ≤ max_block_size
  pub few : length input.witness < 2 ^ 64
  pub elements : All IsElement input.witness
  pub sequence : input.sequence < 2 ^ 32

read_stack-write_stack :
    (wire witness : Bool) (stack : List Bytes) (rest : Bytes)
    → length stack < 2 ^ 64
    → All IsElement stack
    → read_stack
        (with_witness wire witness && not wire)
        (reader (write_stack (with_witness wire witness && not wire) stack ++ rest))
      ≡ ((if wire then [] else stack), reader rest)
read_stack-write_stack true true stack rest few h = refl
read_stack-write_stack true false stack rest few h = refl
read_stack-write_stack false true stack rest few h =
    witness_from_data-witness_to_data stack rest few h
read_stack-write_stack false false stack rest few h =
    witness_from_data-witness_to_data stack rest few h

-- An input whose fields are in the ranges of their types reads back in both forms, whatever
-- follows; the wire form, in which the transaction writes the witness, gives an empty witness.
pub input_from_data-input_to_data :
    (wire witness : Bool) (input : Input) (rest : Bytes)
    → IsInputRanged wire input
    → input_from_data wire witness (reader (input_to_data wire witness input ++ rest))
      ≡ (record input { witness = if wire then [] else input.witness }, reader rest)
unfolding input_from_data input_to_data
input_from_data-input_to_data wire witness input rest h =
    rw
      (
        append_assoc,
        append_assoc,
        append_assoc,
        point_from_data-point_to_data wire input.previous_output after_point h.point,
        script_from_data-script_to_data input.script after_script h.script,
        read_stack-write_stack wire witness input.witness after_stack h.few h.elements,
        read_4_bytes_lem input.sequence rest h.sequence,
      )
      refl
  where
    after_stack : Bytes
    after_stack = write_4_bytes_little_endian input.sequence ++ rest

    after_script : Bytes
    after_script = write_stack (with_witness wire witness && not wire) input.witness ++ after_stack

    after_point : Bytes
    after_point = script_to_data true input.script ++ after_script

length-write_4_bytes : (value : ℕ) → length (write_4_bytes_little_endian value) ≡ 4
unfolding write_4_bytes_little_endian
length-write_4_bytes value = length-to_little_endian 4 value

stored : (witness : Bool) → with_witness false witness ≡ true
stored true = refl
stored false = refl

-- In the store's form, `serialized_size` of an input is the number of bytes that `to_data` writes,
-- for a hash of 32 bytes.
pub length-input_to_data :
    (witness : Bool) (input : Input)
    → length input.previous_output.hash ≡ 32
    → length (input_to_data false witness input) ≡ input_serialized_size false witness input
unfolding input_to_data input_serialized_size
length-input_to_data witness input h =
    rw (input_to_data, stored witness)
      (omega (
        arith,
        length-append (point_to_data false input.previous_output) _,
        length-append (script_to_data true input.script) _,
        length-append (witness_to_data input.witness) (write_4_bytes_little_endian input.sequence),
        length-point_to_data false input.previous_output h,
        length-script_to_data true input.script,
        length-witness_to_data input.witness,
        length-write_4_bytes input.sequence,
      ))
