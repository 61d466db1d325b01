-- ===== src/Machine/Interpreter/Run.antt =====
-- The dispatch on the operation code, and the evaluation of a script.
use bitprim_core.Common.{ℕ, suc, not, List, [], ◌∷◌, if◌then◌else◌}
use bitprim_core.Machine.Opcode.{Opcode}
use bitprim_core.Machine.ErrorCode.{ErrorCode, is_success}
use bitprim_core.Machine.Operation.{Operation, is_oversized}
use bitprim_core.Machine.Operation.Classes.{is_disabled}
use bitprim_core.Machine.Operation.Script.{operations}
use bitprim_core.Machine.Program.{
  is_valid, increment_operation_count, is_stack_overflow, closed, if_,
}
use bitprim_core.Machine.Interpreter.Stack.{Handler, fail}
use bitprim_core.Machine.Interpreter.Stack.{
  op_depth, op_disabled, op_drop, op_drop2, op_dup, op_dup2, op_dup3, op_equal, op_equal_verify,
  op_from_alt_stack, op_if_dup, op_nip, op_nop, op_over, op_over2, op_pick, op_push_data,
  op_push_number, op_push_size, op_reserved, op_return, op_roll, op_rot, op_rot2, op_size, op_swap,
  op_swap2, op_to_alt_stack, op_tuck, op_verify,
}
use bitprim_core.Machine.Interpreter.Arithmetic.{
  op_abs, op_add, op_add1, op_bool_and, op_bool_or, op_greater_than, op_greater_than_or_equal,
  op_less_than, op_less_than_or_equal, op_max, op_min, op_negate, op_nonzero, op_not, op_num_equal,
  op_num_equal_verify, op_num_not_equal, op_sub, op_sub1, op_within,
}
use bitprim_core.Machine.Interpreter.Control.{op_codeseparator, op_else, op_endif, op_if, op_notif}
use bitprim_core.Machine.Interpreter.Crypto.{Library}
use bitprim_core.Machine.Interpreter.Crypto.{
  op_check_multisig, op_check_multisig_verify, op_check_sig, op_check_sig_verify, op_hash160,
  op_hash256, op_ripemd160, op_sha1, op_sha256,
}
use bitprim_core.Machine.Interpreter.Locktime.{op_check_locktime_verify, op_check_sequence_verify}

module _ (library : Library) where
  -- The switch of `run_op`, for an operation at the given address.
  unfoldable pub dispatch : Operation → ℕ → Opcode → Handler
  dispatch op address (Opcode.push_size n) = op_push_size op
  dispatch op address Opcode.push_one_size = op_push_data op.bytes 255
  dispatch op address Opcode.push_two_size = op_push_data op.bytes 65535
  dispatch op address Opcode.push_four_size = op_push_data op.bytes 4294967295
  dispatch op address Opcode.push_negative_1 = op_push_number 0x81
  dispatch op address Opcode.reserved_80 = op_reserved
  dispatch op address Opcode.push_positive_1 = op_push_number 1
  dispatch op address Opcode.push_positive_2 = op_push_number 2
  dispatch op address Opcode.push_positive_3 = op_push_number 3
  dispatch op address Opcode.push_positive_4 = op_push_number 4
  dispatch op address Opcode.push_positive_5 = op_push_number 5
  dispatch op address Opcode.push_positive_6 = op_push_number 6
  dispatch op address Opcode.push_positive_7 = op_push_number 7
  dispatch op address Opcode.push_positive_8 = op_push_number 8
  dispatch op address Opcode.push_positive_9 = op_push_number 9
  dispatch op address Opcode.push_positive_10 = op_push_number 10
  dispatch op address Opcode.push_positive_11 = op_push_number 11
  dispatch op address Opcode.push_positive_12 = op_push_number 12
  dispatch op address Opcode.push_positive_13 = op_push_number 13
  dispatch op address Opcode.push_positive_14 = op_push_number 14
  dispatch op address Opcode.push_positive_15 = op_push_number 15
  dispatch op address Opcode.push_positive_16 = op_push_number 16
  dispatch op address Opcode.nop = op_nop
  dispatch op address Opcode.reserved_98 = op_reserved
  dispatch op address Opcode.if_ = op_if
  dispatch op address Opcode.notif = op_notif
  dispatch op address Opcode.disabled_verif = op_disabled
  dispatch op address Opcode.disabled_vernotif = op_disabled
  dispatch op address Opcode.else_ = op_else
  dispatch op address Opcode.endif = op_endif
  dispatch op address Opcode.verify = op_verify
  dispatch op address Opcode.return_ = op_return
  dispatch op address Opcode.toaltstack = op_to_alt_stack
  dispatch op address Opcode.fromaltstack = op_from_alt_stack
  dispatch op address Opcode.drop2 = op_drop2
  dispatch op address Opcode.dup2 = op_dup2
  dispatch op address Opcode.dup3 = op_dup3
  dispatch op address Opcode.over2 = op_over2
  dispatch op address Opcode.rot2 = op_rot2
  dispatch op address Opcode.swap2 = op_swap2
  dispatch op address Opcode.ifdup = op_if_dup
  dispatch op address Opcode.depth = op_depth
  dispatch op address Opcode.drop = op_drop
  dispatch op address Opcode.dup = op_dup
  dispatch op address Opcode.nip = op_nip
  dispatch op address Opcode.over = op_over
  dispatch op address Opcode.pick = op_pick
  dispatch op address Opcode.roll = op_roll
  dispatch op address Opcode.rot = op_rot
  dispatch op address Opcode.swap = op_swap
  dispatch op address Opcode.tuck = op_tuck
  dispatch op address Opcode.disabled_cat = op_disabled
  dispatch op address Opcode.disabled_substr = op_disabled
  dispatch op address Opcode.disabled_left = op_disabled
  dispatch op address Opcode.disabled_right = op_disabled
  dispatch op address Opcode.size = op_size
  dispatch op address Opcode.disabled_invert = op_disabled
  dispatch op address Opcode.disabled_and = op_disabled
  dispatch op address Opcode.disabled_or = op_disabled
  dispatch op address Opcode.disabled_xor = op_disabled
  dispatch op address Opcode.equal = op_equal
  dispatch op address Opcode.equalverify = op_equal_verify
  dispatch op address Opcode.reserved_137 = op_reserved
  dispatch op address Opcode.reserved_138 = op_reserved
  dispatch op address Opcode.add1 = op_add1
  dispatch op address Opcode.sub1 = op_sub1
  dispatch op address Opcode.disabled_mul2 = op_disabled
  dispatch op address Opcode.disabled_div2 = op_disabled
  dispatch op address Opcode.negate = op_negate
  dispatch op address Opcode.abs = op_abs
  dispatch op address Opcode.not_ = op_not
  dispatch op address Opcode.nonzero = op_nonzero
  dispatch op address Opcode.add = op_add
  dispatch op address Opcode.sub = op_sub
  dispatch op address Opcode.disabled_mul = op_disabled
  dispatch op address Opcode.disabled_div = op_disabled
  dispatch op address Opcode.disabled_mod = op_disabled
  dispatch op address Opcode.disabled_lshift = op_disabled
  dispatch op address Opcode.disabled_rshift = op_disabled
  dispatch op address Opcode.booland = op_bool_and
  dispatch op address Opcode.boolor = op_bool_or
  dispatch op address Opcode.numequal = op_num_equal
  dispatch op address Opcode.numequalverify = op_num_equal_verify
  dispatch op address Opcode.numnotequal = op_num_not_equal
  dispatch op address Opcode.lessthan = op_less_than
  dispatch op address Opcode.greaterthan = op_greater_than
  dispatch op address Opcode.lessthanorequal = op_less_than_or_equal
  dispatch op address Opcode.greaterthanorequal = op_greater_than_or_equal
  dispatch op address Opcode.min = op_min
  dispatch op address Opcode.max = op_max
  dispatch op address Opcode.within = op_within
  dispatch op address Opcode.ripemd160 = op_ripemd160 library
  dispatch op address Opcode.sha1 = op_sha1 library
  dispatch op address Opcode.sha256 = op_sha256 library
  dispatch op address Opcode.hash160 = op_hash160 library
  dispatch op address Opcode.hash256 = op_hash256 library
  dispatch op address Opcode.codeseparator = op_codeseparator address
  dispatch op address Opcode.checksig = op_check_sig library
  dispatch op address Opcode.checksigverify = op_check_sig_verify library
  dispatch op address Opcode.checkmultisig = op_check_multisig library
  dispatch op address Opcode.checkmultisigverify = op_check_multisig_verify library
  dispatch op address Opcode.nop1 = op_nop
  dispatch op address Opcode.checklocktimeverify = op_check_locktime_verify
  dispatch op address Opcode.checksequenceverify = op_check_sequence_verify
  dispatch op address Opcode.nop4 = op_nop
  dispatch op address Opcode.nop5 = op_nop
  dispatch op address Opcode.nop6 = op_nop
  dispatch op address Opcode.nop7 = op_nop
  dispatch op address Opcode.nop8 = op_nop
  dispatch op address Opcode.nop9 = op_nop
  dispatch op address Opcode.nop10 = op_nop
  dispatch op address (Opcode.reserved n) = op_reserved

  unfoldable pub run_op : ℕ → Operation → Handler
  run_op address op = dispatch op address op.code

  -- The part of a round that evaluates the operation: `run_op`, then the test of the stacks.
  unfoldable pub execute : ℕ → Operation → Handler
  execute address op p =
      let (code, p') = run_op address op p in
      if not (is_success code)
      then (code, p')
      else if is_stack_overflow p'
      then fail ErrorCode.invalid_stack_size p'
      else (code, p')

  -- One round of the loop; `success` goes on.
  unfoldable pub step : ℕ → Operation → Handler
  step address op p =
      if is_oversized op
      then fail ErrorCode.invalid_push_data_size p
      else if is_disabled op.code
      then fail ErrorCode.op_disabled p
      else let (counted, p') = increment_operation_count op p in
        if not counted
        then fail ErrorCode.invalid_operation_count p'
        else if if_ op p'
        then execute address op p'
        else (ErrorCode.success, p')

  -- `for (const auto& op: program)`, from the operation at an address on.
  unfoldable pub run_ops : ℕ → List Operation → Handler
  run_ops address [] p = (if closed p then ErrorCode.success else ErrorCode.invalid_stack_scope, p)
  run_ops address (op ∷ ops) p =
      let (code, p') = step address op p in
      let next = run_ops (suc address) ops p' in if is_success code then next else (code, p')

  -- `interpreter::run(program)`, and `program::evaluate()`.
  unfoldable pub run : Handler
  run p =
      if not (is_valid p)
      then fail ErrorCode.invalid_script p
      else run_ops 0 (operations p.script) p
