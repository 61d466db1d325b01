-- ===== src/Machine/Interpreter/Locktime.antt =====
-- The lock time checks of BIP65 and BIP112.
use bitprim_core.Common.{ℕ, ◌-◌, ◌^◌, bit_and, Bool, true, false, not, none, some, ltb}
use bitprim_core.Common.{◌==◌, if◌then◌else◌, get_elem?}
use bitprim_core.Common.Int.{pos, ltb_ℤ, pos_part}
use bitprim_core.Chain.Types.{Input}
use bitprim_core.Machine.ErrorCode.{ErrorCode}
use bitprim_core.Machine.Program.{Program, top}
use bitprim_core.Machine.Interpreter.Stack.{Handler, fail, op_nop}
use bitprim_core.Machine.Interpreter.Crypto.{is_enabled, bip65_rule, bip112_rule}

abbrev pub locktime_threshold : ℕ
locktime_threshold = 500_000_000

abbrev pub max_input_sequence : ℕ
max_input_sequence = 2 ^ 32 - 1

abbrev pub relative_locktime_disabled : ℕ
relative_locktime_disabled = 0x8000_0000

abbrev pub relative_locktime_time_locked : ℕ
relative_locktime_time_locked = 0x0040_0000

abbrev pub relative_locktime_mask : ℕ
relative_locktime_mask = 0x0000_ffff

-- `input::is_final()`
unfoldable pub is_final : Input → Bool
is_final input = input.sequence == max_input_sequence

abbrev same : Bool → Bool → Bool
same true b = b
same false b = not b

-- The tests of the lock time on the stack against that of the transaction.
unfoldable pub compare_locktime : ℕ → ℕ → ErrorCode
compare_locktime locktime tx_locktime =
    if not (same (ltb locktime locktime_threshold) (ltb tx_locktime locktime_threshold))
    then ErrorCode.op_check_locktime_verify5
    else if ltb tx_locktime locktime
    then ErrorCode.op_check_locktime_verify6
    else ErrorCode.success

unfoldable pub check_locktime : Input → Program → ErrorCode
check_locktime input p =
    if is_final input then ErrorCode.op_check_locktime_verify2 else elim (top 5 p) [
      | none ↦ ErrorCode.op_check_locktime_verify3
      | some stack ↦
          if ltb_ℤ stack (pos 0)
          then ErrorCode.op_check_locktime_verify4
          else compare_locktime (pos_part stack) p.transaction.locktime
    ]

unfoldable pub op_check_locktime_verify : Handler
op_check_locktime_verify p =
    if not (is_enabled p.forks bip65_rule)
    then op_nop p
    else elim (get_elem? p.transaction.inputs p.input_index) [
      | none ↦ fail ErrorCode.op_check_locktime_verify1 p
      | some input ↦ (check_locktime input p, p)
    ]

-- The tests of the sequence on the stack against that of the input. A stack sequence with the
-- disabling bit makes the operation nop3.
unfoldable pub compare_sequence : ℕ → ℕ → ℕ → ErrorCode
compare_sequence sequence tx_version tx_sequence =
    if not (bit_and sequence relative_locktime_disabled == 0)
    then ErrorCode.success
    else if ltb tx_version 2
    then ErrorCode.op_check_sequence_verify4
    else if not (bit_and tx_sequence relative_locktime_disabled == 0)
    then ErrorCode.op_check_sequence_verify5
    else if not (
        bit_and sequence relative_locktime_time_locked
        == bit_and tx_sequence relative_locktime_time_locked)
    then ErrorCode.op_check_sequence_verify6
    else if ltb (bit_and tx_sequence relative_locktime_mask)
        (bit_and sequence relative_locktime_mask)
    then ErrorCode.op_check_sequence_verify7
    else ErrorCode.success

unfoldable pub check_sequence : Input → Program → ErrorCode
check_sequence input p = elim (top 5 p) [
  | none ↦ ErrorCode.op_check_sequence_verify2
  | some stack ↦
      if ltb_ℤ stack (pos 0)
      then ErrorCode.op_check_sequence_verify3
      else compare_sequence (pos_part stack) p.transaction.version input.sequence
]

unfoldable pub op_check_sequence_verify : Handler
op_check_sequence_verify p =
    if not (is_enabled p.forks bip112_rule)
    then op_nop p
    else elim (get_elem? p.transaction.inputs p.input_index) [
      | none ↦ fail ErrorCode.op_check_sequence_verify1 p
      | some input ↦ (check_sequence input p, p)
    ]
