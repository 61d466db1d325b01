-- ===== src/Machine/Interpreter/Control.antt =====
-- Operations on the conditional stack, and the code separator.
use bitprim_core.Common.{ℕ, false, not, if◌then◌else◌}
use bitprim_core.Machine.ErrorCode.{ErrorCode}
use bitprim_core.Machine.Program.{
  empty, pop, stack_true, open_condition, negate, close, closed, succeeded, set_jump_register,
}
use bitprim_core.Machine.Interpreter.Stack.{Handler, succeed, fail}

unfoldable pub op_if : Handler
op_if p =
    if succeeded p
    then (if empty p
        then fail ErrorCode.op_if p
        else succeed (open_condition (stack_true false p) (pop p).1))
    else succeed (open_condition false p)

unfoldable pub op_notif : Handler
op_notif p =
    if succeeded p
    then (if empty p
        then fail ErrorCode.op_notif p
        else succeed (open_condition (not (stack_true false p)) (pop p).1))
    else succeed (open_condition false p)

unfoldable pub op_else : Handler
op_else p = if closed p then fail ErrorCode.op_else p else succeed (negate p)

unfoldable pub op_endif : Handler
op_endif p = if closed p then fail ErrorCode.op_endif p else succeed (close p)

-- The address is that of the operation.
unfoldable pub op_codeseparator : ℕ → Handler
op_codeseparator address p =
    let (set, p') = set_jump_register address 1 p in
    if set then succeed p' else fail ErrorCode.op_code_seperator p'
