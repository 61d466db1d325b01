-- ===== src/Chain/Prevout.antt =====
-- src/chain/output_point.cpp and src/chain/input.cpp: what an input needs to know of the output that
-- it spends.
use bitprim_core.Common.{ℕ, ◌+◌, ◌-◌, ◌*◌, ◌^◌, Bool, true, false, not, ◌&&◌, ◌||◌, bit_and}
use bitprim_core.Common.{List, [], ◌∷◌, Option, none, some, ltb, leb, ◌==◌, if◌then◌else◌, length}
use bitprim_core.Common.{get_or, replicate, Bytes, bytes_eq}
use bitprim_core.Machine.Opcode
use bitprim_core.Machine.Operation.Script.{is_unspendable, operations, operations_to_data}
use bitprim_core.Machine.Program.{ScriptVersion, version_zero, version_reserved, unversioned}
use bitprim_core.Machine.Interpreter.Locktime.{
  relative_locktime_disabled, relative_locktime_time_locked, relative_locktime_mask,
}
use bitprim_core.Chain.Types.{Point, Input, Output}
use bitprim_core.Chain.Point.{hash_size, null_index}
use bitprim_core.Chain.Output.{not_found}
use bitprim_core.Chain.Amounts.{floor_subtract}
use bitprim_core.Chain.Patterns.{short_hash_size, op_at, is_relaxed_push_ops}
use bitprim_core.Chain.Patterns.Make.{op_of_code}
use bitprim_core.Chain.Sigops.{sigops}
use bitprim_core.Chain.Verify.{bip16_rule, version_of, witness_program, is_pay_to_script_hash}

-- `output_point::validation_type`
pub record Validation : Type 0 where
  pub spent : Bool
  pub confirmed : Bool
  pub coinbase : Bool
  pub height : ℕ
  pub median_time_past : ℕ
  pub cache : Output

-- `point::is_null()`
unfoldable pub is_null : Point → Bool
is_null point = point.index == null_index && bytes_eq point.hash (replicate hash_size 0)

-- `output::is_valid()`
unfoldable pub is_valid_output : Output → Bool
is_valid_output output = not (output.value == not_found)

abbrev pub coinbase_maturity : ℕ
coinbase_maturity = 100

-- `output_point::is_mature(height)`
unfoldable pub is_mature_point : Point → Validation → ℕ → Bool
is_mature_point point validation height =
    if not validation.coinbase || is_null point
    then true
    else leb coinbase_maturity (floor_subtract height validation.height)

abbrev pub relative_locktime_seconds_shift : ℕ
relative_locktime_seconds_shift = 9

-- `input::is_locked(block_height, median_time_past)`. The source asserts that no age is negative.
unfoldable pub is_locked_input : Input → Validation → ℕ → ℕ → Bool
is_locked_input input prevout block_height median_time_past =
    let minimum = bit_and input.sequence relative_locktime_mask in
    if not (bit_and input.sequence relative_locktime_disabled == 0)
    then false
    else if not (bit_and input.sequence relative_locktime_time_locked == 0)
    then ltb (median_time_past - prevout.median_time_past)
        (minimum * 2 ^ relative_locktime_seconds_shift)
    else ltb (block_height - prevout.height) minimum

-- `input::is_segregated()`
unfoldable pub is_segregated_input : Input → Bool
is_segregated_input input = not (length input.witness == 0)

-- `output::is_dust(minimum_value)`
unfoldable pub is_dust : Output → ℕ → Bool
is_dust output minimum_value = ltb output.value minimum_value && not (is_unspendable output.script)

abbrev pub fast_sigops_factor : ℕ
fast_sigops_factor = 4

abbrev pub sigops_factor : Bool → ℕ
sigops_factor bip141 = if bip141 then fast_sigops_factor else 1

-- `output::signature_operations(bip141)`
unfoldable pub output_signature_operations : Bool → Output → ℕ
output_signature_operations bip141 output = sigops false output.script * sigops_factor bip141

-- The last element of a list, or another.
abbrev pub back_or : {A : Type 0} → List A → A → A
back_or [] other = other
back_or (a ∷ list) other = back_or list a

-- The script to count for a version 0 program.
unfoldable pub zero_sigop_script : List Bytes → Bytes → Bytes
zero_sigop_script stack program =
    if length program == short_hash_size
    then operations_to_data (op_of_code Opcode.checksig ∷ [])
    else if length program == hash_size
    then back_or stack []
    else []

unfoldable pub version_sigop_script : ScriptVersion → List Bytes → Bytes → Option Bytes
version_sigop_script version_zero stack script =
    some (zero_sigop_script stack (witness_program script))
version_sigop_script version_reserved stack script = some []
version_sigop_script unversioned stack script = none

-- `witness::extract_sigop_script(out_script, program_script)`
unfoldable pub extract_sigop_script : List Bytes → Bytes → Option Bytes
extract_sigop_script stack program_script =
    version_sigop_script (version_of program_script) stack program_script

-- `input::extract_embedded_script(out)`
unfoldable pub extract_input_script : Input → Validation → Option Bytes
extract_input_script input prevout =
    let ops = operations input.script in
    if not (is_pay_to_script_hash bip16_rule prevout.cache.script)
    then none
    else if length ops == 0 || not (is_relaxed_push_ops ops)
    then none
    else some (op_at ops (length ops - 1)).bytes

-- The script of a witness, which counts where bip141 is on.
abbrev pub sigop_script : Bool → List Bytes → Bytes → Option Bytes
sigop_script bip141 stack script = if bip141 then extract_sigop_script stack script else none

-- The signature operations behind an embedded script.
unfoldable pub embedded_sigops : Bool → Input → Bytes → ℕ
embedded_sigops bip141 input embedded = elim (sigop_script bip141 input.witness embedded) [
  | none ↦ sigops true embedded * sigops_factor bip141
  | some witness ↦ sigops true witness
]

-- `input::signature_operations(bip16, bip141)`
unfoldable pub input_signature_operations : Bool → Bool → Input → Validation → ℕ
input_signature_operations bip16 bip141 input prevout =
    let own = sigops false input.script * sigops_factor bip141 in
    elim (sigop_script bip141 input.witness prevout.cache.script) [
      | some witness ↦ own + sigops true witness
      | none ↦ elim (if bip16 then extract_input_script input prevout else none) [
        | none ↦ own
        | some embedded ↦ own + embedded_sigops bip141 input embedded
      ]
    ]

-- `input::extract_reserved_hash(out)`, with `witness::is_reserved_pattern`.
unfoldable pub extract_reserved_hash : Input → Option Bytes
extract_reserved_hash input =
    if length input.witness == 1 && length (get_or input.witness 0 []) == hash_size
    then some (get_or input.witness 0 [])
    else none
