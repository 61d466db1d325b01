-- ===== src/Machine/Interpreter/HandlerTests.antt =====
-- The handlers at concrete inputs.
use bitprim_core.Common.{◌^◌, ◌≡◌, ◌↔◌, refl, arith, true, some, [], ◌∷◌}
use bitprim_core.Common.{replicate, bytes_eq}
use bitprim_core.Common.Int.{◌-ℤ◌}
use bitprim_core.Chain.Types.{Transaction, Input}
use bitprim_core.Machine.Opcode
use bitprim_core.Machine.ErrorCode
use bitprim_core.Machine.ErrorCode.{is_success}
use bitprim_core.Machine.Number.{
  set_data, number_data, data_value, is_negative, back, or_bytes, absolute_bytes, sign_mask,
  or_back,
}
use bitprim_core.Machine.Operation.{Operation, operation}
use bitprim_core.Machine.Program.{top, Program, unversioned, push_move}
use bitprim_core.Machine.Interpreter.Crypto.{
  Library, parse_endorsed, parse_endorsement, parse_signature, check_signature, signing_version,
  is_enabled, bip65_rule, bip112_rule, verify_endorsements,
}
use bitprim_core.Machine.Interpreter.Run.{dispatch, run_op}
use bitprim_core.Machine.Interpreter.Locktime.{
  op_check_locktime_verify, op_check_sequence_verify, check_sequence, compare_sequence,
}
use bitprim_core.Machine.Interpreter.Multisig.{
  signs, IsMatched, verify_endorsements_iff, verify_endorsements-replicate,
}
use bitprim_core.Machine.Interpreter.Shuffle
use bitprim_core.Machine.Interpreter.Shuffle.{shuffle_lem}
use bitprim_core.Machine.Interpreter.Pushes.{push_lem}
use bitprim_core.Machine.Interpreter.Numeric
use bitprim_core.Machine.Interpreter.Numeric.{binary_lem, sums_read_back}
use bitprim_core.Machine.Interpreter.Timelocks.{IsLockMet, op_check_locktime_verify_iff}
use bitprim_core.Machine.Interpreter.Sequences.{IsRelativeLockMet, op_check_sequence_verify_iff}

-- A signature is valid for the key that has its bytes.
abbrev key_library : Library
key_library = record {
  ripemd160_hash = λ bytes. bytes;
  sha1_hash = λ bytes. bytes;
  sha256_hash = λ bytes. bytes;
  parse_der = λ der strict. some der;
  verify_signature = λ public_key digest signature. bytes_eq public_key signature;
}

abbrev first_input : Input
first_input = record {
  previous_output = record { hash = []; index = 0; valid = true };
  script = [];
  witness = [];
  sequence = 0;
}

abbrev locked : Transaction
locked = record { version = 2; locktime = 100; inputs = first_input ∷ []; outputs = [] }

-- 7 on top of -3, with BIP65 active.
abbrev two_numbers : Program
two_numbers = record {
  script = [];
  transaction = locked;
  input_index = 0;
  forks = 2 ^ 5;
  value = 0;
  version = unversioned;
  negative_count = 0;
  operation_count = 0;
  jump = 0;
  primary = (7 ∷ []) ∷ (0x83 ∷ []) ∷ [];
  alternate = [];
  condition = [];
}

abbrev swap_it : Operation
swap_it = record { code = Opcode.swap; bytes = []; valid = true }

shuffle_lem_example :
    dispatch key_library swap_it 0 Opcode.swap two_numbers
    ≡ (ErrorCode.success, record two_numbers { primary = (0x83 ∷ []) ∷ (7 ∷ []) ∷ [] })
shuffle_lem_example = shuffle_lem key_library swap_it 0 Shuffle.swap_items two_numbers

-- -3 - 7 is -10.
binary_lem_example :
    dispatch key_library swap_it 0 Opcode.sub two_numbers
    ≡ (ErrorCode.success, record two_numbers { primary = (0x8a ∷ []) ∷ [] })
unfolding set_data data_value is_negative back or_bytes absolute_bytes number_data ◌-ℤ◌ sign_mask
    or_back
binary_lem_example = binary_lem key_library swap_it 0 Numeric.sub_numbers two_numbers

fifth_signs : signs key_library [] two_numbers (5 ∷ 1 ∷ []) (5 ∷ []) ≡ true
unfolding signs parse_endorsed parse_endorsement parse_signature check_signature signing_version
    is_enabled
fifth_signs = refl

verify_endorsements_iff_example :
    (is_success (
        verify_endorsements key_library []
          ((5 ∷ 1 ∷ []) ∷ [])
          ((4 ∷ []) ∷ (5 ∷ []) ∷ [])
          two_numbers)
      ≡ true)
    ↔ IsMatched key_library [] two_numbers ((5 ∷ 1 ∷ []) ∷ []) ((4 ∷ []) ∷ (5 ∷ []) ∷ [])
verify_endorsements_iff_example =
    verify_endorsements_iff key_library [] two_numbers ((5 ∷ 1 ∷ []) ∷ [])
      ((4 ∷ []) ∷ (5 ∷ []) ∷ [])

-- Two endorsements by the same key, against three keys.
verify_endorsements-replicate_example :
    is_success (
      verify_endorsements key_library []
        (replicate 2 (5 ∷ 1 ∷ []))
        ((4 ∷ []) ∷ (5 ∷ []) ∷ (6 ∷ []) ∷ [])
        two_numbers)
    ≡ true
verify_endorsements-replicate_example =
    verify_endorsements-replicate key_library [] two_numbers (5 ∷ 1 ∷ []) (5 ∷ []) ((4 ∷ []) ∷ [])
      ((6 ∷ []) ∷ []) 2 fifth_signs

bip65_active : is_enabled two_numbers.forks bip65_rule ≡ true
unfolding is_enabled
bip65_active = refl

op_check_locktime_verify_iff_example :
    (is_success (op_check_locktime_verify two_numbers).0 ≡ true) ↔ IsLockMet two_numbers
op_check_locktime_verify_iff_example = op_check_locktime_verify_iff two_numbers bip65_active

-- 7 spans of 512 seconds on the stack and 9 in the input, with BIP112 active.
abbrev aged : Program
aged = record two_numbers {
  transaction = record locked { inputs = record first_input { sequence = 0x0040_0009 } ∷ [] };
  forks = 2 ^ 9;
  primary = (7 ∷ 0 ∷ 0x40 ∷ []) ∷ [];
}

bip112_active : is_enabled aged.forks bip112_rule ≡ true
unfolding is_enabled
bip112_active = refl

aged_succeeds : is_success (op_check_sequence_verify aged).0 ≡ true
unfolding op_check_sequence_verify check_sequence compare_sequence is_success is_enabled back
    data_value is_negative or_bytes set_data top
aged_succeeds = refl

op_check_sequence_verify_iff_example :
    (is_success (op_check_sequence_verify aged).0 ≡ true) ↔ IsRelativeLockMet aged
op_check_sequence_verify_iff_example = op_check_sequence_verify_iff aged bip112_active

aged_met : IsRelativeLockMet aged
aged_met = op_check_sequence_verify_iff_example.0 aged_succeeds

-- The number 9 pushes itself in the minimal encoding.
push_lem_example :
    run_op key_library 0 (operation (9 ∷ []) true) two_numbers
    ≡ (ErrorCode.success, push_move (9 ∷ []) two_numbers)
push_lem_example = push_lem key_library 0 two_numbers (9 ∷ []) true (omega arith)
