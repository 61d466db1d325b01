-- ===== src/Chain/Verify/Tests.antt =====
-- Scripts that are verified, signed and recognised, at concrete inputs.
use bitprim_core.Machine.Interpreter.Stack.{op_push_size}
use bitprim_core.Machine.Interpreter.Multisig.{signs}
use bitprim_core.Chain.Verify.PayKeyHash.{can_spend}
use bitprim_core.Chain.Verify.CheckSig.{is_signed}
use bitprim_core.Wire.Deserializer.{read_bytes, read_byte, is_exhausted}
use bitprim_core.Machine.Operation.{
  read_data_size, opcode_from_positive, op_from_data, minimal_opcode_from_data, is_oversized,
}
use bitprim_core.Machine.Operation.Classes.{
  is_disabled, is_counted, is_conditional, is_positive, is_numeric,
}
use bitprim_core.Machine.Opcode.{opcode_from_byte, opcode_byte}
use bitprim_core.Machine.Interpreter.Run.{run_op, execute, dispatch, step, run_ops, run}
use bitprim_core.Common.{ℕ, ◌≡◌, refl, arith, true, false, [], ◌∷◌, some}
use bitprim_core.Common.{replicate, Bytes, bytes_eq, length}
use bitprim_core.Machine.ErrorCode.{is_success}
use bitprim_core.Machine.Operation.Script.{
  operations_loop, is_valid_operations, is_unspendable, operations, operations_to_data,
}
use bitprim_core.Machine.Program.{
  push_move, is_stack_overflow, increment_operation_count, if_, program, is_valid, version_zero,
}
use bitprim_core.Machine.Interpreter.Crypto.{
  check_signature, parse_signature, parse_endorsement, parse_endorsed, Library,
}
use bitprim_core.Chain.Types.{Input, Transaction}
use bitprim_core.Chain.Script.{script_serialized_size}
use bitprim_core.Chain.Patterns.{pay_script_hash, output_pattern, is_null_data_pattern}
use bitprim_core.Chain.Patterns.Make.{to_pay_key_hash_pattern, to_null_data_pattern}
use bitprim_core.Chain.Patterns.NullData.{is_null_data_pattern-to_null_data_pattern}
use bitprim_core.Chain.Patterns.Outputs.{to_script_hash, ops_of, output_pattern_lem}
use bitprim_core.Chain.SignatureHash.{
  to_sighash_enum, is_anyone_can_pay, version_0_preimage, preimage_size, generate_signature_hash,
}
use bitprim_core.Chain.SignatureHash.Same.{generate_signature_hash-same}
use bitprim_core.Chain.SignatureHash.Size.{length-version_0_preimage}
use bitprim_core.Chain.Verify.{verify_script}
use bitprim_core.Chain.Verify.Spend.{verify_script-pay_key_hash}

-- All hashes are the same, and a signature is valid for the key that has its bytes.
abbrev nine_library : Library
nine_library = record {
  ripemd160_hash = λ bytes. replicate 20 9;
  sha1_hash = λ bytes. replicate 20 9;
  sha256_hash = λ bytes. replicate 32 9;
  parse_der = λ der strict. some der;
  verify_signature = λ public_key digest signature. bytes_eq public_key signature;
}

abbrev spend : ℕ → Input
spend sequence = record {
  previous_output = record { hash = replicate 32 7; index = 0; valid = true };
  script = [];
  witness = [];
  sequence = sequence;
}

-- Its second input may change where only the first is signed.
abbrev two_inputs : ℕ → Transaction
two_inputs sequence = record {
  version = 2;
  locktime = 0;
  inputs = spend 5 ∷ spend sequence ∷ [];
  outputs = record { value = 100; script = 0x51 ∷ []; spender_height = 0 } ∷ [];
}

-- The endorsement 0a 0b with its type, and the key 0a 0b.
abbrev key_script : Bytes
key_script = 3 ∷ 0x0a ∷ 0x0b ∷ 1 ∷ 2 ∷ 0x0a ∷ 0x0b ∷ []

verify_script-pay_key_hash_example :
    is_success (
      verify_script nine_library
        (two_inputs 6)
        0
        0
        key_script
        []
        (operations_to_data (to_pay_key_hash_pattern (replicate 20 9)))
        60)
    ≡ true
unfolding is_success is_oversized is_exhausted is_unspendable is_valid is_valid_operations
    op_from_data opcode_byte opcode_from_byte operations operations_loop program read_byte
    read_bytes read_data_size run run_ops step is_signed can_spend parse_endorsed parse_endorsement
    parse_signature signs dispatch execute run_op op_push_size is_conditional is_counted is_disabled
    if_ increment_operation_count is_stack_overflow push_move check_signature
verify_script-pay_key_hash_example =
    verify_script-pay_key_hash nine_library (two_inputs 6) 0 0 60 key_script (replicate 20 9) refl

-- With a signature for anyone who can pay, of no output, the sequence of the other input is free.
generate_signature_hash-same_example :
    generate_signature_hash nine_library.sha256_hash
      (two_inputs 6)
      0
      (0x51 ∷ [])
      0x82
      version_zero
      60
    ≡ generate_signature_hash nine_library.sha256_hash
        (two_inputs 8)
        0
        (0x51 ∷ [])
        0x82
        version_zero
        60
unfolding to_sighash_enum is_anyone_can_pay
generate_signature_hash-same_example =
    generate_signature_hash-same nine_library.sha256_hash (two_inputs 6) (two_inputs 8) 0 0x82
      (0x51 ∷ []) version_zero 60
      (record {
        version = refl;
        locktime = refl;
        in_range = omega arith;
        in_range' = omega arith;
        own = refl;
        others = tt;
        outputs = tt;
      })

length-version_0_preimage_example :
    length (version_0_preimage nine_library.sha256_hash (two_inputs 6) 1 (0x51 ∷ []) 60 1)
    ≡ preimage_size (script_serialized_size true (0x51 ∷ []))
length-version_0_preimage_example =
    length-version_0_preimage nine_library.sha256_hash (λ bytes. refl) (two_inputs 6) 1 (0x51 ∷ [])
      60 1 refl

output_pattern_lem_example :
    output_pattern (operations (operations_to_data (ops_of (to_script_hash (replicate 20 9)))))
    ≡ pay_script_hash
output_pattern_lem_example = output_pattern_lem (to_script_hash (replicate 20 9)) refl

-- The one byte 5 is a number, and is lost.
is_null_data_pattern-to_null_data_pattern_example :
    is_null_data_pattern (to_null_data_pattern (5 ∷ [])) ≡ false
unfolding is_numeric is_positive opcode_byte minimal_opcode_from_data opcode_from_positive
    opcode_from_byte
is_null_data_pattern-to_null_data_pattern_example =
    is_null_data_pattern-to_null_data_pattern (5 ∷ [])
