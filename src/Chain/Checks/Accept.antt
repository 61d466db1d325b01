-- ===== src/Chain/Checks/Accept.antt =====
-- src/chain/transaction.cpp: the checks of a transaction against the chain and the outputs that it
-- spends, and of its scripts. What is known of those outputs is in the points of the inputs in the
-- source, and a function of the inputs here.
use bitprim_core.Common.{ℕ, zero, suc, ◌+◌, ◌*◌, ◌%◌, ◌^◌, Bool, false, not, ◌&&◌, ◌||◌}
use bitprim_core.Common.{List, [], ◌∷◌, none, some, ltb, if◌then◌else◌, length, get_elem?}
use bitprim_core.Machine.ErrorCode.{ErrorCode, is_success}
use bitprim_core.Machine.Operation.{max_block_size}
use bitprim_core.Machine.Interpreter.Crypto.{Library, is_enabled}
use bitprim_core.Chain.Types.{Point, Input, Transaction}
use bitprim_core.Chain.Transaction.{is_segregated}
use bitprim_core.Chain.Amounts.{accumulate, floor_subtract}
use bitprim_core.Chain.Patterns.{pattern_of, is_non_standard}
use bitprim_core.Machine.Operation.Script.{operations}
use bitprim_core.Chain.Prevout.{
  Validation, is_null, is_valid_output, is_mature_point, is_locked_input, fast_sigops_factor,
  output_signature_operations, input_signature_operations,
}
use bitprim_core.Chain.Verify.{verify_input, bip16_rule, bip141_rule}
use bitprim_core.Chain.Checks.{
  ChainState, any_of, all_of, is_coinbase, is_final_transaction, total_output_value, weight,
}

abbrev pub relative_locktime_min_version : ℕ
relative_locktime_min_version = 2

abbrev pub allow_collisions : ℕ
allow_collisions = 2 ^ 7

abbrev pub bip30_rule : ℕ
bip30_rule = 2 ^ 2

abbrev pub bip68_rule : ℕ
bip68_rule = 2 ^ 8

abbrev pub max_block_sigops : ℕ
max_block_sigops = 20_000

abbrev pub max_fast_sigops : ℕ
max_fast_sigops = fast_sigops_factor * max_block_sigops

abbrev pub max_block_weight : ℕ
max_block_weight = 4 * max_block_size

-- `transaction::is_standard()`, by the patterns of the scripts.
unfoldable pub is_standard : Transaction → Bool
is_standard tx =
    not (any_of (λ input. is_non_standard (pattern_of (operations input.script))) tx.inputs)
    && not (any_of (λ output. is_non_standard (pattern_of (operations output.script))) tx.outputs)

module _ (prevout : Input → Validation) where
  -- A missing output counts nothing.
  unfoldable pub input_value : Input → ℕ
  input_value input =
      let cache = (prevout input).cache in if is_valid_output cache then cache.value else 0

  unfoldable pub total_input_value : Transaction → ℕ
  total_input_value tx = accumulate input_value tx.inputs 0

  unfoldable pub fees : Transaction → ℕ
  fees tx = floor_subtract (total_input_value tx) (total_output_value tx)

  unfoldable pub is_overspent : Transaction → Bool
  is_overspent tx = not (is_coinbase tx) && ltb (total_input_value tx) (total_output_value tx)

  -- `transaction::signature_operations(bip16, bip141)`
  unfoldable pub signature_operations : Bool → Bool → Transaction → ℕ
  signature_operations bip16 bip141 tx =
      (accumulate (λ input. input_signature_operations bip16 bip141 input (prevout input)) tx.inputs
          0
        + accumulate (output_signature_operations bip141) tx.outputs 0)
      % 2 ^ 64

  unfoldable pub is_missing : Input → Bool
  is_missing input =
      not (is_valid_output (prevout input).cache) && not (is_null input.previous_output)

  unfoldable pub is_missing_previous_outputs : Transaction → Bool
  is_missing_previous_outputs tx = any_of is_missing tx.inputs

  -- `missing_previous_outputs()`
  unfoldable pub missing_of : List Input → List Point
  missing_of [] = []
  missing_of (input ∷ inputs) =
      let rest = missing_of inputs in
      if is_missing input then input.previous_output ∷ rest else rest

  unfoldable pub missing_previous_outputs : Transaction → List Point
  missing_previous_outputs tx = missing_of tx.inputs

  unfoldable pub is_spent : Bool → Input → Bool
  is_spent include_unconfirmed input =
      (prevout input).spent && (include_unconfirmed || (prevout input).confirmed)

  unfoldable pub is_double_spend : Transaction → Bool → Bool
  is_double_spend tx include_unconfirmed = any_of (is_spent include_unconfirmed) tx.inputs

  unfoldable pub is_mature : Transaction → ℕ → Bool
  is_mature tx height =
      all_of (λ input. is_mature_point input.previous_output (prevout input) height) tx.inputs

  unfoldable pub is_locked : Transaction → ℕ → ℕ → Bool
  is_locked tx block_height median_time_past =
      if ltb tx.version relative_locktime_min_version || is_coinbase tx
      then false
      else any_of (λ input. is_locked_input input (prevout input) block_height median_time_past)
          tx.inputs

  -- `transaction::accept(state, transaction_pool)`, of a transaction that the chain may have already.
  unfoldable pub accept : ChainState → Bool → Bool → Transaction → ErrorCode
  accept state transaction_pool duplicate tx =
      let bip16 = is_enabled state.enabled_forks bip16_rule in
      let bip30 = is_enabled state.enabled_forks bip30_rule in
      let bip68 = is_enabled state.enabled_forks bip68_rule in
      let bip141 = is_enabled state.enabled_forks bip141_rule in
      let revert_bip30 = is_enabled state.enabled_forks allow_collisions in
      let max_sigops = (if bip141 then max_fast_sigops else max_block_sigops) in
      if transaction_pool && state.is_under_checkpoint
      then ErrorCode.premature_validation
      else if not bip141 && is_segregated tx.inputs
      then ErrorCode.empty_transaction
      else if transaction_pool && not (is_final_transaction tx state.height state.median_time_past)
      then ErrorCode.transaction_non_final
      else if bip30 && (not revert_bip30 && duplicate)
      then ErrorCode.unspent_duplicate
      else if is_missing_previous_outputs tx
      then ErrorCode.missing_previous_output
      else if is_double_spend tx transaction_pool
      then ErrorCode.double_spend
      else if not (is_mature tx state.height)
      then ErrorCode.coinbase_maturity
      else if is_overspent tx
      then ErrorCode.spend_exceeds_value
      else if bip68 && is_locked tx state.height state.median_time_past
      then ErrorCode.sequence_locked
      else if transaction_pool && ltb max_sigops (signature_operations bip16 bip141 tx)
      then ErrorCode.transaction_embedded_sigop_limit
      else if transaction_pool && (bip141 && ltb max_block_weight (weight tx))
      then ErrorCode.transaction_weight_limit
      else ErrorCode.success

  module _ (library : Library) where
    -- `transaction::connect_input(state, input_index)`
    unfoldable pub connect_input : ChainState → Transaction → ℕ → ErrorCode
    connect_input state tx input_index = elim (get_elem? tx.inputs input_index) [
      | none ↦ ErrorCode.operation_failed
      | some input ↦
          if is_coinbase tx
          then ErrorCode.success
          else if not (is_valid_output (prevout input).cache)
          then ErrorCode.missing_previous_output
          else verify_input library tx (λ other. (prevout other).cache) input_index
              state.enabled_forks
    ]

    -- `for (size_t input = 0; input < inputs_.size(); ++input)`, with so many inputs left.
    unfoldable pub connect_from : ChainState → Transaction → ℕ → ℕ → ErrorCode
    connect_from state tx input zero = ErrorCode.success
    connect_from state tx input (suc left) =
        let ec = connect_input state tx input in
        let rest = connect_from state tx (suc input) left in if is_success ec then rest else ec

    -- `transaction::connect(state)`
    unfoldable pub connect : ChainState → Transaction → ErrorCode
    connect state tx = connect_from state tx 0 (length tx.inputs)
