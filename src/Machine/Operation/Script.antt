-- ===== src/Machine/Operation/Script.antt =====
-- src/chain/script.cpp: a script is its bytes, from which the operations are read.
use bitprim_core.Common.{ℕ, zero, suc, Bool, true, false, ◌||◌, List, [], ◌∷◌, ◌++◌, ltb, leb, ◌==◌}
use bitprim_core.Common.{if◌then◌else◌, ◌&&◌, length, take, drop, Bytes, bytes_eq}
use bitprim_core.Machine.Opcode.{Opcode}
use bitprim_core.Machine.Operation.{
  Operation, operation, op_from_data, op_to_data, op_serialized_size,
}
use bitprim_core.Machine.Operation.{code_eq}
use bitprim_core.Wire.Deserializer.{Reader, reader, is_exhausted}

abbrev pub max_script_size : ℕ
max_script_size = 10_000

-- `while (!source.is_exhausted())`: an operation that fails ends the loop and is kept.
unfoldable pub operations_loop : ℕ → Reader → List Operation
operations_loop zero source = []
operations_loop (suc fuel) source =
    let (op, source') = op_from_data source in
    let rest = operations_loop fuel source' in if is_exhausted source then [] else op ∷ rest

-- `script::operations()`: each operation takes a byte at least.
unfoldable pub operations : Bytes → List Operation
operations script = operations_loop (suc (length script)) (reader script)

-- `operations_to_data`, the script of a list of operations.
unfoldable pub operations_to_data : List Operation → Bytes
operations_to_data [] = []
operations_to_data (op ∷ ops) = op_to_data op ++ operations_to_data ops

-- `operations_.back().is_valid()`
abbrev pub last_valid : List Operation → Bool
last_valid [] = true
last_valid (op ∷ []) = op.valid
last_valid (op ∷ next ∷ ops) = last_valid (next ∷ ops)

unfoldable pub is_valid_operations : Bytes → Bool
is_valid_operations script = last_valid (operations script)

abbrev pub starts_with_return : List Operation → Bool
starts_with_return [] = false
starts_with_return (op ∷ ops) = code_eq op.code Opcode.return_

unfoldable pub is_unspendable : Bytes → Bool
is_unspendable script =
    starts_with_return (operations script) || ltb max_script_size (length script)

-- `starts_with(begin, end, value)` of utility/data.hpp.
unfoldable pub starts_with : Bytes → Bytes → Bool
starts_with bytes value =
    leb (length value) (length bytes) && bytes_eq (take (length value) bytes) value

-- The loop of `find_and_delete_` over what lies ahead of `it`, with the found values left out at
-- once. A value is looked for only at the start of an operation or right behind a found value. The
-- loop ends at the first operation that does not read, and keeps the bytes from there on.
unfoldable pub delete_loop : ℕ → Bytes → Bytes → Bytes
delete_loop zero value ahead = ahead
delete_loop (suc fuel) value ahead =
    let (op, source) = op_from_data (reader ahead) in
    let size = op_serialized_size op in
    let found = delete_loop fuel value (drop (length value) ahead) in
    let next = take size ahead ++ delete_loop fuel value (drop size ahead) in
    if starts_with ahead value then found else if source.valid then next else ahead

-- `find_and_delete_`; each round takes a byte at least.
unfoldable pub find_and_delete_one : Bytes → Bytes → Bytes
find_and_delete_one script endorsement =
    if length endorsement == 0
    then script
    else delete_loop (suc (length script)) (op_to_data (operation endorsement false)) script

-- `find_and_delete`
unfoldable pub find_and_delete : Bytes → List Bytes → Bytes
find_and_delete script [] = script
find_and_delete script (endorsement ∷ endorsements) =
    find_and_delete (find_and_delete_one script endorsement) endorsements
