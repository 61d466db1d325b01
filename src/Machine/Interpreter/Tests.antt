-- ===== src/Machine/Interpreter/Tests.antt =====
-- Evaluation at concrete inputs.
use bitprim_core.Common.{◌≡◌, refl, arith, true, false, none, [], ◌∷◌}
use bitprim_core.Wire.Deserializer.{is_exhausted, read_byte, read_bytes, check_safe, invalidate}
use bitprim_core.Machine.ErrorCode.{is_success}
use bitprim_core.Machine.Opcode.{opcode_from_byte, opcode_byte}
use bitprim_core.Machine.Operation.Classes.{is_disabled, is_counted, is_conditional}
use bitprim_core.Machine.Operation.Script.{
  is_valid_operations, operations, operations_loop, is_unspendable,
}
use bitprim_core.Machine.Interpreter.Stack.{op_push_number}
use bitprim_core.Machine.Interpreter.Control.{op_if, op_else, op_endif}
use bitprim_core.Chain.Types.{Transaction}
use bitprim_core.Machine.Opcode
use bitprim_core.Machine.Operation.{Operation, is_oversized, op_from_data, read_data_size}
use bitprim_core.Machine.Program.{
  Program, program, unversioned, is_valid, increment_operation_count, if_, succeeded,
  is_stack_overflow, stack_true, item_to_bool, negate, close, open_condition, pop, push_move,
  operation_overflow,
}
use bitprim_core.Machine.Interpreter.Crypto.{Library}
use bitprim_core.Machine.Interpreter.Run.{run_op, run, run_ops, step, execute, dispatch}
use bitprim_core.Machine.Interpreter.Frame.{SameFrame, run_op-SameFrame}
use bitprim_core.Machine.Interpreter.Evaluate.{Accepted, IsFresh, run-Accepted}

-- Hashes that return their input, and no valid signature.
abbrev test_library : Library
test_library = record {
  ripemd160_hash = λ bytes. bytes;
  sha1_hash = λ bytes. bytes;
  sha256_hash = λ bytes. bytes;
  parse_der = λ der strict. none;
  verify_signature = λ public_key digest signature. false;
}

abbrev no_transaction : Transaction
no_transaction = record { version = 1; locktime = 0; inputs = []; outputs = [] }

-- 1 IF 2 ELSE 3 ENDIF
abbrev branches : Program
branches =
    program (0x51 ∷ 0x63 ∷ 0x52 ∷ 0x67 ∷ 0x53 ∷ 0x68 ∷ []) no_transaction 0 0 [] 0 unversioned

branches-IsFresh : IsFresh branches
unfolding program
branches-IsFresh = record { condition = refl; negative_count = refl; operation_count = refl }

branches_runs : is_success (run test_library branches).0 ≡ true
unfolding program is_success run is_valid is_valid_operations operations operations_loop
    is_exhausted op_from_data read_data_size opcode_from_byte opcode_byte read_byte read_bytes
    is_unspendable run_ops step check_safe invalidate is_oversized is_disabled
    increment_operation_count if_ is_counted is_conditional succeeded execute run_op dispatch
    op_push_number op_if op_else op_endif is_stack_overflow stack_true item_to_bool negate close
    open_condition pop push_move operation_overflow
branches_runs = refl

run-Accepted_example : Accepted branches (run test_library branches).1
unfolding program
run-Accepted_example =
    run-Accepted test_library branches branches-IsFresh (omega arith) branches_runs

abbrev dup_it : Operation
dup_it = record { code = Opcode.dup; bytes = []; valid = true }

run_op-SameFrame_example : SameFrame branches (run_op test_library 0 dup_it branches).1
unfolding is_conditional
run_op-SameFrame_example = run_op-SameFrame test_library 0 dup_it branches refl
