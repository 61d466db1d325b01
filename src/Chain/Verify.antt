-- ===== src/Chain/Verify.antt =====
-- src/chain/script.cpp and src/chain/witness.cpp: what spends an output. The scripts of the input
-- and of the output are evaluated, then the embedded script and the witness where there are such.
pub mod Rounds
pub mod KeyHashOps
pub mod CheckSig
pub mod PayKeyHash
pub mod Spend
mod Tests
use bitprim_core.Common.{
  ℕ, ◌-◌, ◌^◌, Bool, true, false, not, ◌&&◌, Option, none, some, List, [], ◌∷◌, ◌==◌,
}
use bitprim_core.Common.{leb, if◌then◌else◌, length, get_or, drop, take, Bytes, bytes_eq}
use bitprim_core.Common.{get_elem?, ◌||◌}
use bitprim_core.Chain.Types.{Input, Output, Transaction}
use bitprim_core.Chain.Point.{hash_size}
use bitprim_core.Chain.Patterns.{
  short_hash_size, op_at, is_relaxed_push_ops, is_witness_program_pattern,
  is_pay_script_hash_pattern,
}
use bitprim_core.Chain.Patterns.Make.{to_pay_key_hash_pattern}
use bitprim_core.Machine.ErrorCode
use bitprim_core.Machine.ErrorCode.{ErrorCode, is_success}
use bitprim_core.Machine.Opcode
use bitprim_core.Machine.Operation.{code_eq, max_push_data_size}
use bitprim_core.Machine.Operation.Script.{operations, operations_to_data}
use bitprim_core.Machine.Program.{
  Program, ScriptVersion, version_zero, version_reserved, unversioned, program, pop, stack_result,
}
use bitprim_core.Machine.Interpreter.Crypto.{Library, is_enabled}
use bitprim_core.Machine.Interpreter.Run.{run}

abbrev pub bip16_rule : ℕ
bip16_rule = 2 ^ 1

abbrev pub bip141_rule : ℕ
bip141_rule = 2 ^ 11

-- `script::witness_program()`
unfoldable pub witness_program : Bytes → Bytes
witness_program script =
    if is_witness_program_pattern (operations script)
    then (op_at (operations script) 1).bytes
    else []

-- `script::version()`
unfoldable pub version_of : Bytes → ScriptVersion
version_of script =
    if not (is_witness_program_pattern (operations script))
    then unversioned
    else if code_eq (op_at (operations script) 0).code (Opcode.push_size 0)
    then version_zero
    else version_reserved

unfoldable pub is_pay_to_witness : ℕ → Bytes → Bool
is_pay_to_witness forks script =
    is_enabled forks bip141_rule && is_witness_program_pattern (operations script)

unfoldable pub is_pay_to_script_hash : ℕ → Bytes → Bool
is_pay_to_script_hash forks script =
    is_enabled forks bip16_rule && is_pay_script_hash_pattern (operations script)

-- `witness::is_push_size(stack)`
unfoldable pub is_push_size : List Bytes → Bool
is_push_size [] = true
is_push_size (element ∷ stack) = leb (length element) max_push_data_size && is_push_size stack

-- A witness stack has its last element first when a program takes it over.
abbrev pub reversed : List Bytes → List Bytes → List Bytes
reversed [] stack = stack
reversed (element ∷ elements) stack = reversed elements (element ∷ stack)

-- `std::equal(program, hash)`, over the bytes of the program.
abbrev pub equals_prefix : Bytes → Bytes → Bool
equals_prefix value hash = bytes_eq value (take (length value) hash)

-- `program(script, other)`, which keeps the stack of another program.
unfoldable pub program_after : Bytes → Program → Program
program_after script p =
    program script p.transaction p.input_index p.forks p.primary p.value unversioned

module _ (library : Library) where
  -- `extract_embedded_script`, for a program of version 0: the script and the stack that is left,
  -- with its top first.
  unfoldable pub extract_embedded_script : List Bytes → Bytes → Option (Bytes × List Bytes)
  extract_embedded_script witness value =
      let stack = reversed witness [] in
      let script = get_or stack 0 [] in
      let below = drop 1 stack in
      if length value == short_hash_size
      then (if not (length stack == 2) || not (is_push_size stack)
          then none
          else some (operations_to_data (to_pay_key_hash_pattern value), stack))
      else if length value == hash_size
      then (if length stack == 0
          then none
          else if not (is_push_size below)
          then none
          else if equals_prefix value (library.sha256_hash script)
          then some (script, below)
          else none)
      else none

  -- The evaluation of a version 0 witness, which must leave one true item.
  unfoldable pub evaluate_witness : Transaction → ℕ → ℕ → ℕ → Bytes × List Bytes → ErrorCode
  evaluate_witness tx input_index forks value (script, stack) =
      let (code, p) = run library (program script tx input_index forks stack value version_zero) in
      if not (is_success code)
      then code
      else if not (stack_result true p)
      then ErrorCode.stack_false
      else ErrorCode.success

  -- `witness::verify`, by the version of the program script.
  unfoldable pub verify_version :
      ScriptVersion → Transaction → ℕ → ℕ → List Bytes → Bytes → ℕ → ErrorCode
  verify_version version_zero tx input_index forks witness value_script value =
      elim (extract_embedded_script witness (witness_program value_script)) [
        | none ↦ ErrorCode.invalid_witness
        | some extracted ↦ evaluate_witness tx input_index forks value extracted
      ]
  verify_version version_reserved tx input_index forks witness value_script value =
      ErrorCode.success
  verify_version unversioned tx input_index forks witness value_script value =
      ErrorCode.operation_failed

  unfoldable pub verify_witness : Transaction → ℕ → ℕ → List Bytes → Bytes → ℕ → ErrorCode
  verify_witness tx input_index forks witness program_script value =
      verify_version (version_of program_script) tx input_index forks witness program_script value

  -- The last test: no witness but of a witness program.
  abbrev pub unwitnessed : List Bytes → ErrorCode
  unwitnessed witness =
      if not (length witness == 0) then ErrorCode.unexpected_witness else ErrorCode.success

  -- The embedded script, which was evaluated.
  unfoldable pub verify_embedded :
      Transaction → ℕ → ℕ → Bytes → List Bytes → ℕ → Bytes → ErrorCode × Program → ErrorCode
  verify_embedded tx input_index forks input_script witness value embedded_script (code, embedded) =
      if not (is_success code)
      then code
      else if not (stack_result false embedded)
      then ErrorCode.stack_false
      else if is_pay_to_witness forks embedded_script
      then (if not (length (operations input_script) == 1)
          then ErrorCode.dirty_witness
          else verify_witness tx input_index forks witness embedded_script value)
      else unwitnessed witness

  -- What follows the evaluation of the input script, which left the program `input`, and of the
  -- output script, which left the program `prevout`.
  unfoldable pub verify_output :
      Transaction
      → ℕ
      → ℕ
      → Bytes
      → List Bytes
      → Bytes
      → ℕ
      → Program
      → ErrorCode × Program
      → ErrorCode
  verify_output tx input_index forks input_script witness prevout_script value input
        (code, prevout) =
      let (embedded_script, popped) = pop input in
      if not (is_success code)
      then code
      else if not (stack_result false prevout)
      then ErrorCode.stack_false
      else if is_pay_to_witness forks prevout_script
      then (if not (length (operations input_script) == 0)
          then ErrorCode.dirty_witness
          else verify_witness tx input_index forks witness prevout_script value)
      else if is_pay_to_script_hash forks prevout_script
      then (if not (is_relaxed_push_ops (operations input_script))
          then ErrorCode.invalid_script_embed
          else verify_embedded tx input_index forks input_script witness value embedded_script
              (run library (program_after embedded_script popped)))
      else unwitnessed witness

  -- `script::verify(tx, input_index, forks, input_script, input_witness, prevout_script, value)`
  unfoldable pub verify_script : Transaction → ℕ → ℕ → Bytes → List Bytes → Bytes → ℕ → ErrorCode
  verify_script tx input_index forks input_script witness prevout_script value =
      let start = program input_script tx input_index forks [] (2 ^ 64 - 1) unversioned in
      let (code, input) = run library start in
      if not (is_success code)
      then code
      else verify_output tx input_index forks input_script witness prevout_script value input
          (run library (program_after prevout_script input))

  -- `script::verify(tx, input, forks)`; `cache` is `previous_output().validation.cache` of an input.
  unfoldable pub verify_input : Transaction → (Input → Output) → ℕ → ℕ → ErrorCode
  verify_input tx cache input_index forks = elim (get_elem? tx.inputs input_index) [
    | none ↦ ErrorCode.operation_failed
    | some input ↦
        let prevout = cache input in
        verify_script tx input_index forks input.script input.witness prevout.script prevout.value
  ]
