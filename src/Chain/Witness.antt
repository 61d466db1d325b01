-- ===== src/Chain/Witness.antt =====
-- src/chain/witness.cpp: the serialization of witnesses, which are stacks of elements.
use bitprim_core.Common.{ℕ, ◌+◌, ◌*◌, ◌^◌, ◌≤◌, ◌<◌, ◌≡◌, refl, arith, List, [], ◌∷◌}
use bitprim_core.Common.{
  ◌++◌, append_assoc, ltb, le→ltb, if◌then◌else◌, length, length-append, Bytes, All,
}
use bitprim_core.Wire.Serializer.{write_bytes, write_variable_little_endian}
use bitprim_core.Wire.Deserializer.{Read, reader, invalidate, read_bytes, read_size_little_endian}
use bitprim_core.Wire.RoundTrip.{read_bytes-write_bytes, read_size_lem}
use bitprim_core.Wire.Sequences.{read_times, write_all, ReadsBack, read_times-write_all}
use bitprim_core.Machine.Operation.{max_block_size}
use bitprim_core.Chain.Script.{variable_uint_size, length-write_variable_little_endian}

abbrev pub max_block_weight : ℕ
max_block_weight = 4 * max_block_size

-- An element behind its size, which is not read where it is out of range.
unfoldable pub read_element : Read Bytes
read_element r =
    let (size, r') = read_size_little_endian r in
    if ltb max_block_weight size then ([], invalidate r') else read_bytes size r'

unfoldable pub write_element : Bytes → Bytes
write_element element = write_variable_little_endian (length element) ++ write_bytes element

-- `witness::from_data(source, true)`: the loop runs for the whole count, also where a read failed.
unfoldable pub witness_from_data : Read (List Bytes)
witness_from_data r =
    let (count, r1) = read_size_little_endian r in
    let (stack, r2) = read_times read_element count r1 in if r2.valid then (stack, r2) else ([], r2)

-- `witness::to_data(sink, true)`
unfoldable pub witness_to_data : List Bytes → Bytes
witness_to_data stack = write_variable_little_endian (length stack) ++ write_all write_element stack

-- `witness::serialized_size(stack)`
unfoldable pub elements_size : List Bytes → ℕ
elements_size [] = 0
elements_size (element ∷ stack) =
    variable_uint_size (length element) + length element + elements_size stack

-- `witness::serialized_size(true)`
unfoldable pub witness_serialized_size : List Bytes → ℕ
witness_serialized_size stack = variable_uint_size (length stack) + elements_size stack

abbrev pub IsElement : Bytes → Type 0
IsElement element = length element ≤ max_block_weight

read_element-write_element :
    (element rest : Bytes)
    → IsElement element
    → read_element (reader (write_element element ++ rest)) ≡ (element, reader rest)
unfolding read_element write_element
read_element-write_element element rest h =
    rw
      (
        append_assoc,
        read_size_lem (length element) (write_bytes element ++ rest) (omega arith),
        le→ltb max_block_weight (length element) h,
      )
      (read_bytes-write_bytes element rest (length element) refl)

elements_read_back :
    (stack : List Bytes) → All IsElement stack → All (ReadsBack read_element write_element) stack
elements_read_back [] h = tt
elements_read_back (element ∷ stack) (he, h) = (
  record { back = λ rest. read_element-write_element element rest he },
  elements_read_back stack h,
)

-- A witness of fewer than 2^64 elements, none of them larger than the largest block weight, reads
-- back from its bytes, whatever follows.
pub witness_from_data-witness_to_data :
    (stack : List Bytes) (rest : Bytes)
    → length stack < 2 ^ 64
    → All IsElement stack
    → witness_from_data (reader (witness_to_data stack ++ rest)) ≡ (stack, reader rest)
unfolding witness_from_data witness_to_data
witness_from_data-witness_to_data stack rest few h =
    rw
      (
        append_assoc,
        read_size_lem (length stack) (write_all write_element stack ++ rest) few,
        read_times-write_all read_element write_element stack rest (elements_read_back stack h),
      )
      refl

length-write_all :
    (stack : List Bytes) → length (write_all write_element stack) ≡ elements_size stack
unfolding write_all write_element elements_size write_bytes
length-write_all [] = refl
length-write_all (element ∷ stack) = omega (
  arith,
  length-append (write_variable_little_endian (length element) ++ element)
      (write_all write_element stack),
  length-append (write_variable_little_endian (length element)) element,
  length-write_variable_little_endian (length element),
  length-write_all stack,
)

-- `serialized_size` of a witness is the number of bytes that `to_data` writes.
pub length-witness_to_data :
    (stack : List Bytes) → length (witness_to_data stack) ≡ witness_serialized_size stack
unfolding witness_to_data witness_serialized_size
length-witness_to_data stack = omega (
  arith,
  length-append (write_variable_little_endian (length stack)) (write_all write_element stack),
  length-write_variable_little_endian (length stack),
  length-write_all stack,
)
