-- ===== src/Chain/Output.antt =====
-- src/chain/output.cpp: the serialization of outputs.
use bitprim_core.Common.{
  ℕ, ◌+◌, ◌-◌, ◌^◌, ◌≤◌, ◌<◌, ◌≡◌, refl, arith, Bool, true, false, Option, none, some, ◌++◌, [],
  append_assoc,
}
use bitprim_core.Common.{ltb, lt→ltb, if◌then◌else◌, length, length-append, Bytes}
use bitprim_core.Wire.Endian.{length-to_little_endian}
use bitprim_core.Wire.Serializer.{write_4_bytes_little_endian, write_8_bytes_little_endian}
use bitprim_core.Wire.Deserializer.{
  Read, reader, read_4_bytes_little_endian, read_8_bytes_little_endian,
}
use bitprim_core.Wire.RoundTrip.{read_4_bytes_lem, read_8_bytes_lem}
use bitprim_core.Machine.Operation.{max_block_size}
use bitprim_core.Chain.Types.{Output}
use bitprim_core.Chain.Script.{
  script_from_data, script_to_data, script_serialized_size, script_from_data-script_to_data,
  length-script_to_data,
}

-- `output::not_found`
abbrev pub not_found : ℕ
not_found = 2 ^ 64 - 1

-- `output::validation::not_spent`
abbrev pub not_spent : ℕ
not_spent = 2 ^ 32 - 1

-- The height of the spender stands in the store's form only.
unfoldable pub read_height : Bool → ℕ → Read ℕ
read_height true height r = (height, r)
read_height false height r = read_4_bytes_little_endian r

-- `output::from_data(source, wire)`, into an output that has the given spender height.
unfoldable pub output_from_data : Bool → ℕ → Read Output
output_from_data wire height r =
    let (spender_height, r1) = read_height wire height r in
    let (value, r2) = read_8_bytes_little_endian r1 in
    let (script, r3) = script_from_data true r2 in
    if r3.valid
    then (record { value = value; script = script; spender_height = spender_height }, r3)
    else (record { value = not_found; script = []; spender_height = spender_height }, r3)

-- `safe_unsigned<uint32_t>` throws on a height that is out of range.
unfoldable pub write_height : Bool → ℕ → Option Bytes
write_height true height = some []
write_height false height =
    if ltb height (2 ^ 32) then some (write_4_bytes_little_endian height) else none

-- `output::to_data(sink, wire)`
unfoldable pub output_to_data : Bool → Output → Option Bytes
output_to_data wire output = elim (write_height wire output.spender_height) [
  | none ↦ none
  | some height ↦
      some
        (height ++ (write_8_bytes_little_endian output.value ++ script_to_data true output.script))
]

unfoldable pub output_serialized_size : Bool → Output → ℕ
output_serialized_size wire output =
    (if wire then 0 else 4) + 8 + script_serialized_size true output.script

-- The fields are in the ranges of their types, and the script is no larger than a block.
pub record IsOutputRanged (output : Output) : Type 0 where
  pub value : output.value < 2 ^ 64
  pub script : length output.script ≤ max_block_size
  pub height : output.spender_height < 2 ^ 32

-- What a form writes of the height reads back.
height_reads_back :
    (wire : Bool) (height : ℕ)
    → height < 2 ^ 32
    → (bytes : Bytes) × (write_height wire height ≡ some bytes)
      × ((rest : Bytes) → read_height wire height (reader (bytes ++ rest)) ≡ (height, reader rest))
      × (length bytes ≡ (if wire then 0 else 4))
unfolding write_height read_height write_4_bytes_little_endian
height_reads_back true height h = ([], refl, (λ rest. refl), refl)
height_reads_back false height h = (
  write_4_bytes_little_endian height,
  rw (lt→ltb height (2 ^ 32) h) refl,
  (λ rest. read_4_bytes_lem height rest h),
  length-to_little_endian 4 height,
)

length-write_8_bytes : (value : ℕ) → length (write_8_bytes_little_endian value) ≡ 8
unfolding write_8_bytes_little_endian
length-write_8_bytes value = length-to_little_endian 8 value

-- An output whose fields are in the ranges of their types is written in both forms, in as many
-- bytes as `serialized_size` says, and reads back, whatever follows: on the wire into an output that
-- has its spender height already.
pub output_from_data-output_to_data :
    (wire : Bool) (output : Output) (rest : Bytes)
    → IsOutputRanged output
    → (bytes : Bytes) × (output_to_data wire output ≡ some bytes)
      × (output_from_data wire output.spender_height (reader (bytes ++ rest))
          ≡ (output, reader rest))
      × (length bytes ≡ output_serialized_size wire output)
unfolding output_from_data output_to_data output_serialized_size
output_from_data-output_to_data wire output rest h =
    let (bytes, written, back, size) = height_reads_back wire output.spender_height h.height in
    let body : Bytes =
      write_8_bytes_little_endian output.value ++ script_to_data true output.script in
    (
      bytes ++ body,
      rw (output_to_data, written) refl,
      rw
          (
            append_assoc,
            append_assoc,
            back (
                write_8_bytes_little_endian output.value
                ++ (script_to_data true output.script ++ rest)),
            read_8_bytes_lem output.value (script_to_data true output.script ++ rest) h.value,
            script_from_data-script_to_data output.script rest h.script,
          )
          refl,
      omega (
        arith,
        size,
        length-append bytes body,
        length-append (write_8_bytes_little_endian output.value)
            (script_to_data true output.script),
        length-write_8_bytes output.value,
        length-script_to_data true output.script,
      ),
    )
