-- ===== src/Chain/Patterns.antt =====
-- src/chain/script.cpp: the patterns of input and output scripts. Keys and endorsements are told by size and first byte (src/math/elliptic_curve.cpp).
pub mod Make
pub mod Data
pub mod NullData
pub mod Multisig
pub mod Coded
pub mod Outputs
use bitprim_core.Common.{ℕ, ◌+◌, ◌-◌, Bool, true, false, not, ◌&&◌, ◌||◌, List, [], ◌∷◌, ◌++◌, map}
use bitprim_core.Common.{ltb, leb, ◌==◌, if◌then◌else◌, length, get_or, take, drop, Bytes, bytes_eq}
use bitprim_core.Common.Int.{pos}
use bitprim_core.Machine.Number.{number_data, signed64}
use bitprim_core.Machine.Opcode
use bitprim_core.Machine.Opcode.{Opcode, opcode_byte, opcode_from_byte}
use bitprim_core.Machine.Operation.{
  Operation, operation, invalid_operation, code_eq, minimal_opcode_from_data,
  nominal_opcode_from_data,
}
use bitprim_core.Machine.Operation.Classes.{is_push, is_version, is_relaxed_push}

abbrev pub short_hash_size : ℕ
short_hash_size = 20

abbrev pub ec_compressed_size : ℕ
ec_compressed_size = 33

abbrev pub ec_uncompressed_size : ℕ
ec_uncompressed_size = 65

abbrev pub min_endorsement_size : ℕ
min_endorsement_size = 9

abbrev pub max_endorsement_size : ℕ
max_endorsement_size = 73

abbrev pub min_witness_program : ℕ
min_witness_program = 2

abbrev pub max_witness_program : ℕ
max_witness_program = 40

abbrev pub max_null_data_size : ℕ
max_null_data_size = 80

-- `to_big_endian(witness_head)`
abbrev pub witness_head : Bytes
witness_head = 0xaa ∷ 0x21 ∷ 0xa9 ∷ 0xed ∷ []

unfoldable pub is_compressed_key : Bytes → Bool
is_compressed_key point =
    length point == ec_compressed_size && (get_or point 0 0 == 2 || get_or point 0 0 == 3)

unfoldable pub is_uncompressed_key : Bytes → Bool
is_uncompressed_key point = length point == ec_uncompressed_size && get_or point 0 0 == 4

unfoldable pub is_public_key : Bytes → Bool
unfolding is_compressed_key is_uncompressed_key
is_public_key point = is_compressed_key point || is_uncompressed_key point

unfoldable pub is_endorsement : Bytes → Bool
is_endorsement endorsement =
    leb min_endorsement_size (length endorsement) && leb (length endorsement) max_endorsement_size

-- `ops[index]`, which the source guards by the size.
abbrev pub op_at : List Operation → ℕ → Operation
op_at ops index = get_or ops index invalid_operation

abbrev pub has_code : List Operation → ℕ → Opcode → Bool
has_code ops index code = code_eq (op_at ops index).code code

unfoldable pub all_ops : (Operation → Bool) → List Operation → Bool
all_ops test [] = true
all_ops test (op ∷ ops) = test op && all_ops test ops

-- `operation::is_minimal_push()`, `operation::is_nominal_push()`
unfoldable pub is_minimal_push : Operation → Bool
is_minimal_push op = code_eq op.code (minimal_opcode_from_data op.bytes)

unfoldable pub is_nominal_push : Operation → Bool
is_nominal_push op = code_eq op.code (nominal_opcode_from_data op.bytes)

unfoldable pub is_push_only : List Operation → Bool
is_push_only = all_ops (λ op. is_push op.code)

-- `script::is_relaxed_push(ops)`
unfoldable pub is_relaxed_push_ops : List Operation → Bool
is_relaxed_push_ops = all_ops (λ op. is_relaxed_push op.code)

unfoldable pub is_coinbase_pattern : List Operation → ℕ → Bool
is_coinbase_pattern ops height =
    not (length ops == 0)
    && (is_nominal_push (op_at ops 0)
        && bytes_eq (op_at ops 0).bytes (number_data (signed64 height)))

unfoldable pub is_commitment_pattern : List Operation → Bool
is_commitment_pattern ops =
    ltb 1 (length ops)
    && (has_code ops 0 Opcode.return_
        && (has_code ops 1 (Opcode.push_size 36)
            && bytes_eq (take 4 (op_at ops 1).bytes) witness_head))

unfoldable pub is_witness_program_pattern : List Operation → Bool
is_witness_program_pattern ops =
    length ops == 2
    && (is_version (op_at ops 0).code
        && (leb min_witness_program (length (op_at ops 1).bytes)
            && leb (length (op_at ops 1).bytes) max_witness_program))

unfoldable pub is_null_data_pattern : List Operation → Bool
is_null_data_pattern ops =
    length ops == 2
    && (has_code ops 0 Opcode.return_
        && (is_minimal_push (op_at ops 1) && leb (length (op_at ops 1).bytes) max_null_data_size))

-- The numbers of signatures and of keys are the second to `op_m` and `op_n`.
unfoldable pub is_pay_multisig_pattern : List Operation → Bool
is_pay_multisig_pattern ops =
    let op_count = length ops in
    let op_m = opcode_byte (op_at ops 0).code in
    let op_n = opcode_byte (op_at ops (op_count - 2)).code in
    if ltb op_count 4 || not (has_code ops (op_count - 1) Opcode.checkmultisig)
    then false
    else if ltb op_m 81 || ltb op_n op_m || ltb op_n 81 || ltb 96 op_n
    then false
    else if not (op_n - 81 + 1 == op_count - 3)
    then false
    else all_ops (λ op. is_public_key op.bytes) (take (op_count - 3) (drop 1 ops))

unfoldable pub is_pay_public_key_pattern : List Operation → Bool
is_pay_public_key_pattern ops =
    length ops == 2 && (is_public_key (op_at ops 0).bytes && has_code ops 1 Opcode.checksig)

unfoldable pub is_pay_key_hash_pattern : List Operation → Bool
is_pay_key_hash_pattern ops =
    length ops == 5
    && (has_code ops 0 Opcode.dup
        && (has_code ops 1 Opcode.hash160
            && (length (op_at ops 2).bytes == short_hash_size
                && (has_code ops 3 Opcode.equalverify && has_code ops 4 Opcode.checksig))))

unfoldable pub is_pay_script_hash_pattern : List Operation → Bool
is_pay_script_hash_pattern ops =
    length ops == 3
    && (has_code ops 0 Opcode.hash160
        && (has_code ops 1 (Opcode.push_size 20) && has_code ops 2 Opcode.equal))

unfoldable pub is_pay_witness_script_hash_pattern : List Operation → Bool
is_pay_witness_script_hash_pattern ops =
    length ops == 2 && (has_code ops 0 (Opcode.push_size 0) && has_code ops 1 (Opcode.push_size 32))

unfoldable pub is_sign_multisig_pattern : List Operation → Bool
is_sign_multisig_pattern ops =
    leb 2 (length ops)
    && (has_code ops 0 (Opcode.push_size 0) && all_ops (λ op. is_endorsement op.bytes) (drop 1 ops))

unfoldable pub is_sign_public_key_pattern : List Operation → Bool
is_sign_public_key_pattern ops = length ops == 1 && is_endorsement (op_at ops 0).bytes

unfoldable pub is_sign_key_hash_pattern : List Operation → Bool
is_sign_key_hash_pattern ops =
    length ops == 2 && (is_endorsement (op_at ops 0).bytes && is_public_key (op_at ops 1).bytes)

unfoldable pub is_sign_script_hash_pattern : List Operation → Bool
is_sign_script_hash_pattern ops =
    not (length ops == 0)
    && (is_push_only ops && not (length (op_at ops (length ops - 1)).bytes == 0))

-- include/bitcoin/bitcoin/machine/script_pattern.hpp
pub data ScriptPattern : Type 0 where
  null_data pay_multisig pay_public_key pay_key_hash pay_script_hash : ScriptPattern
  sign_multisig sign_public_key sign_key_hash sign_script_hash non_standard : ScriptPattern

unfoldable pub output_pattern : List Operation → ScriptPattern
output_pattern ops =
    if is_pay_key_hash_pattern ops
    then pay_key_hash
    else if is_pay_script_hash_pattern ops
    then pay_script_hash
    else if is_null_data_pattern ops
    then null_data
    else if is_pay_public_key_pattern ops
    then pay_public_key
    else if is_pay_multisig_pattern ops
    then pay_multisig
    else non_standard

unfoldable pub input_pattern : List Operation → ScriptPattern
input_pattern ops =
    if is_sign_key_hash_pattern ops
    then sign_key_hash
    else if is_sign_script_hash_pattern ops
    then sign_script_hash
    else if is_sign_public_key_pattern ops
    then sign_public_key
    else if is_sign_multisig_pattern ops
    then sign_multisig
    else non_standard

abbrev pub is_non_standard : ScriptPattern → Bool
is_non_standard non_standard = true
is_non_standard found = false

unfoldable pub pattern_of : List Operation → ScriptPattern
pattern_of ops =
    let found = output_pattern ops in if is_non_standard found then input_pattern ops else found
