-- ===== src/Chain/Checks.antt =====
-- src/chain/transaction.cpp: the checks of transactions, on their own, against the chain, and of
-- their scripts. The values that the source caches are computed here at each use.
pub mod Accept
pub mod Sound
mod Tests
pub mod Connect
pub mod Money
use bitprim_core.Common.{ℕ, suc, ◌+◌, ◌*◌, ◌%◌, ◌^◌, Bool, true, false, not, ◌&&◌, ◌||◌, List, []}
use bitprim_core.Common.{◌∷◌, ltb, leb, ◌==◌, if◌then◌else◌, length, get_or, Bytes, bytes_eq, map}
use bitprim_core.Machine.ErrorCode
use bitprim_core.Machine.ErrorCode.{ErrorCode, is_success}
use bitprim_core.Machine.Operation.{max_block_size}
use bitprim_core.Machine.Interpreter.Crypto.{Library, is_enabled}
use bitprim_core.Machine.Interpreter.Locktime.{locktime_threshold, is_final}
use bitprim_core.Chain.Types.{Point, Input, Output, Transaction}
use bitprim_core.Chain.Script.{script_serialized_size, variable_uint_size}
use bitprim_core.Chain.Input.{reset_input, input_serialized_size}
use bitprim_core.Chain.Output.{output_serialized_size}
use bitprim_core.Chain.Transaction.{is_segregated}
use bitprim_core.Chain.Amounts.{accumulate, floor_subtract, max_money}
use bitprim_core.Chain.Points.{has_equal_neighbours, sort}
use bitprim_core.Chain.Prevout.{
  Validation, is_null, is_valid_output, is_mature_point, is_locked_input, is_dust,
  output_signature_operations, input_signature_operations,
}
use bitprim_core.Chain.Verify.{verify_input, bip16_rule, bip141_rule}

-- `std::any_of` and `std::all_of`
unfoldable pub any_of : {A : Type 0} → (A → Bool) → List A → Bool
any_of test [] = false
any_of test (a ∷ list) = test a || any_of test list

unfoldable pub all_of : {A : Type 0} → (A → Bool) → List A → Bool
all_of test [] = true
all_of test (a ∷ list) = test a && all_of test list

abbrev pub min_coinbase_size : ℕ
min_coinbase_size = 2

abbrev pub max_coinbase_size : ℕ
max_coinbase_size = 100

-- What the checks read of a `chain_state`.
pub record ChainState : Type 0 where
  pub enabled_forks : ℕ
  pub height : ℕ
  pub median_time_past : ℕ
  pub is_under_checkpoint : Bool

unfoldable pub is_coinbase : Transaction → Bool
is_coinbase tx = length tx.inputs == 1 && is_null (get_or tx.inputs 0 reset_input).previous_output

unfoldable pub is_oversized_coinbase : Transaction → Bool
is_oversized_coinbase tx =
    let size = script_serialized_size false (get_or tx.inputs 0 reset_input).script in
    if not (is_coinbase tx) then false else ltb size min_coinbase_size || ltb max_coinbase_size size

unfoldable pub is_null_non_coinbase : Transaction → Bool
is_null_non_coinbase tx =
    if is_coinbase tx then false else any_of (λ input. is_null input.previous_output) tx.inputs

unfoldable pub all_inputs_final : Transaction → Bool
all_inputs_final tx = all_of is_final tx.inputs

-- `transaction::is_final(block_height, block_time)`. For a height beyond 32 bits the source throws.
unfoldable pub is_final_transaction : Transaction → ℕ → ℕ → Bool
is_final_transaction tx block_height block_time =
    let max_locktime = (if ltb tx.locktime locktime_threshold then block_height else block_time) in
    tx.locktime == 0 || ltb tx.locktime max_locktime || all_inputs_final tx

unfoldable pub is_locktime_conflict : Transaction → Bool
is_locktime_conflict tx = not (tx.locktime == 0) && all_inputs_final tx

unfoldable pub total_output_value : Transaction → ℕ
total_output_value tx = accumulate (λ output. output.value) tx.outputs 0

unfoldable pub is_dusty : Transaction → ℕ → Bool
is_dusty tx minimum_output_value = any_of (λ output. is_dust output minimum_output_value) tx.outputs

abbrev pub total_size : {A : Type 0} → (A → ℕ) → List A → ℕ
total_size size [] = 0
total_size size (a ∷ list) = size a + total_size size list

-- `transaction::serialized_size(true, witness)`
unfoldable pub transaction_serialized_size : Bool → Transaction → ℕ
transaction_serialized_size witness tx =
    let segregated = witness && is_segregated tx.inputs in
    (if segregated then 2 else 0)
    + 4
    + 4
    + variable_uint_size (length tx.inputs)
    + variable_uint_size (length tx.outputs)
    + total_size (input_serialized_size true segregated) tx.inputs
    + total_size (output_serialized_size true) tx.outputs

-- `transaction::weight()`
unfoldable pub weight : Transaction → ℕ
weight tx = 3 * transaction_serialized_size false tx + 1 * transaction_serialized_size true tx

unfoldable pub previous_outputs : Transaction → List Point
previous_outputs tx = map (λ input. input.previous_output) tx.inputs

-- `transaction::is_internal_double_spend()`
unfoldable pub is_internal_double_spend : Transaction → Bool
is_internal_double_spend tx = has_equal_neighbours (sort (previous_outputs tx))

-- `transaction::check(transaction_pool, retarget)`
unfoldable pub check : Bool → Bool → Transaction → ErrorCode
check transaction_pool retarget tx =
    if length tx.inputs == 0 || length tx.outputs == 0
    then ErrorCode.empty_transaction
    else if is_null_non_coinbase tx
    then ErrorCode.previous_output_null
    else if ltb (max_money retarget) (total_output_value tx)
    then ErrorCode.spend_overflow
    else if not transaction_pool && is_oversized_coinbase tx
    then ErrorCode.invalid_coinbase_script_size
    else if transaction_pool && is_coinbase tx
    then ErrorCode.coinbase_transaction
    else if transaction_pool && is_internal_double_spend tx
    then ErrorCode.transaction_internal_double_spend
    else if transaction_pool && leb max_block_size (transaction_serialized_size false tx)
    then ErrorCode.transaction_size_limit
    else ErrorCode.success
