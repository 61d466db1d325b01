-- ===== src/Chain/Patterns/Make.antt =====
-- src/chain/script.cpp: the operations of the standard output scripts.
use bitprim_core.Common.{ℕ, ◌+◌, Bool, true, not, ◌&&◌, ◌||◌, List, [], ◌∷◌, ◌++◌, map}
use bitprim_core.Common.{ltb, if◌then◌else◌, length, Bytes}
use bitprim_core.Machine.Opcode.{Opcode, opcode_from_byte}
use bitprim_core.Machine.Operation.{Operation, operation}
use bitprim_core.Chain.Patterns.{max_null_data_size, is_public_key}

-- `operation(code)`
abbrev pub op_of_code : Opcode → Operation
op_of_code code = record { code = code; bytes = []; valid = true }

-- `operation(data)`, by its default in the minimal encoding.
abbrev pub op_of_data : Bytes → Operation
op_of_data bytes = operation bytes true

unfoldable pub to_null_data_pattern : Bytes → List Operation
to_null_data_pattern bytes =
    if ltb max_null_data_size (length bytes)
    then []
    else op_of_code Opcode.return_ ∷ op_of_data bytes ∷ []

unfoldable pub to_pay_public_key_pattern : Bytes → List Operation
to_pay_public_key_pattern point =
    if not (is_public_key point) then [] else op_of_data point ∷ op_of_code Opcode.checksig ∷ []

unfoldable pub to_pay_key_hash_pattern : Bytes → List Operation
to_pay_key_hash_pattern hash =
    op_of_code Opcode.dup
    ∷ op_of_code Opcode.hash160
    ∷ op_of_data hash
    ∷ op_of_code Opcode.equalverify
    ∷ op_of_code Opcode.checksig
    ∷ []

unfoldable pub to_pay_script_hash_pattern : Bytes → List Operation
to_pay_script_hash_pattern hash =
    op_of_code Opcode.hash160 ∷ op_of_data hash ∷ op_of_code Opcode.equal ∷ []

unfoldable pub all_public_keys : List Bytes → Bool
all_public_keys [] = true
all_public_keys (point ∷ points) = is_public_key point && all_public_keys points

-- `to_pay_multisig_pattern(signatures, points)`
unfoldable pub to_pay_multisig_pattern : ℕ → List Bytes → List Operation
to_pay_multisig_pattern signatures points =
    let n = length points in
    if ltb signatures 1 || ltb n signatures || ltb n 1 || ltb 16 n
    then []
    else if not (all_public_keys points)
    then []
    else op_of_code (opcode_from_byte (signatures + 80)) ∷ map op_of_data points
      ++ op_of_code (opcode_from_byte (n + 80)) ∷ op_of_code Opcode.checkmultisig ∷ []
