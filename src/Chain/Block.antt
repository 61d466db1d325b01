-- ===== src/Chain/Block.antt =====
-- src/chain/block.cpp: blocks, their checks on their own, against the chain, and of their scripts.
-- The values that the source caches are computed here at each use.
pub mod Merkle
pub mod Locator
pub mod Checks
pub mod Sound
pub mod Subsidy
mod Tests
use bitprim_core.Common.{
  ℕ, zero, suc, ◌+◌, ◌*◌, ◌/◌, ◌-◌, ◌^◌, Bool, true, false, not, ◌&&◌, ◌||◌, List,
}
use bitprim_core.Common.{
  [], ◌∷◌, ◌++◌, Option, none, some, ltb, leb, ◌==◌, if◌then◌else◌, length, map,
}
use bitprim_core.Common.{get_or, drop, take, Bytes, bytes_eq}
use bitprim_core.Machine.ErrorCode
use bitprim_core.Machine.ErrorCode.{ErrorCode, is_success}
use bitprim_core.Machine.Operation.{max_block_size}
use bitprim_core.Machine.Operation.Script.{operations}
use bitprim_core.Machine.Interpreter.Crypto.{Library, is_enabled}
use bitprim_core.Chain.Types.{Point, Input, Output, Transaction}
use bitprim_core.Chain.Header.{Header, header_serialized_size, header_to_data}
use bitprim_core.Chain.SignatureHash.{null_hash, bitcoin_hash}
use bitprim_core.Chain.Block.Merkle.{generate_merkle_root}
use bitprim_core.Chain.Point.{hash_size}
use bitprim_core.Chain.Input.{reset_input}
use bitprim_core.Chain.Script.{variable_uint_size}
use bitprim_core.Chain.Transaction.{reset_transaction, is_segregated, transaction_to_data}
use bitprim_core.Chain.Patterns.{op_at, is_coinbase_pattern, is_commitment_pattern}
use bitprim_core.Chain.Amounts.{
  ceiling_add, accumulate, initial_block_subsidy_satoshi, subsidy_interval,
}
use bitprim_core.Chain.Points.{has_equal_neighbours, sort}
use bitprim_core.Chain.Prevout.{Validation, extract_reserved_hash}
use bitprim_core.Chain.Verify.{bip16_rule, bip141_rule}
use bitprim_core.Chain.Checks.{
  ChainState, any_of, all_of, is_coinbase, is_final_transaction, total_output_value, total_size,
  transaction_serialized_size, previous_outputs, check,
}
use bitprim_core.Chain.Checks.Accept.{
  max_block_sigops, max_fast_sigops, max_block_weight, fees, signature_operations, accept, connect,
}

-- chain/block.hpp
pub record Block : Type 0 where
  pub header : Header
  pub transactions : List Transaction

-- `block::subsidy(height, retarget)`
unfoldable pub subsidy : ℕ → Bool → ℕ
subsidy height retarget =
    let halvings = height / subsidy_interval retarget in
    initial_block_subsidy_satoshi / 2 ^ (if leb 64 halvings then 0 else halvings)

-- `block::serialized_size(witness)`
unfoldable pub block_serialized_size : Bool → Block → ℕ
block_serialized_size witness block =
    header_serialized_size true
    + variable_uint_size (length block.transactions)
    + total_size (transaction_serialized_size witness) block.transactions

-- `block::weight()`
unfoldable pub block_weight : Block → ℕ
block_weight block = 3 * block_serialized_size false block + 1 * block_serialized_size true block

unfoldable pub is_extra_coinbases : List Transaction → Bool
is_extra_coinbases [] = false
is_extra_coinbases (tx ∷ txs) = any_of is_coinbase txs

-- `block::is_final(height, block_time)`
unfoldable pub is_final_block : Block → ℕ → ℕ → Bool
is_final_block block height block_time =
    all_of (λ tx. is_final_transaction tx height block_time) block.transactions

unfoldable pub all_previous_outputs : List Transaction → List Point
all_previous_outputs [] = []
all_previous_outputs (tx ∷ txs) = previous_outputs tx ++ all_previous_outputs txs

-- `block::is_internal_double_spend()`
unfoldable pub is_block_internal_double_spend : List Transaction → Bool
is_block_internal_double_spend [] = false
is_block_internal_double_spend (tx ∷ txs) = has_equal_neighbours (sort (all_previous_outputs txs))

unfoldable pub claim : List Transaction → ℕ
claim [] = 0
claim (tx ∷ txs) = total_output_value tx

unfoldable pub is_valid_coinbase_script : Block → ℕ → Bool
is_valid_coinbase_script block height =
    let coinbase = get_or block.transactions 0 reset_transaction in
    let input = get_or coinbase.inputs 0 reset_input in
    if length block.transactions == 0 || length coinbase.inputs == 0
    then false
    else is_coinbase_pattern (operations input.script) height

-- `output::extract_committed_hash(out)`
unfoldable pub extract_committed_hash : Output → Option Bytes
extract_committed_hash output =
    let ops = operations output.script in
    if not (is_commitment_pattern ops)
    then none
    else some (take hash_size (drop 4 (op_at ops 1).bytes))

-- The committed hash of the last output that has one.
unfoldable pub last_commitment : List Output → Option Bytes
last_commitment [] = none
last_commitment (output ∷ outputs) = elim (last_commitment outputs) [
  | none ↦ extract_committed_hash output
  | some committed ↦ some committed
]

unfoldable pub is_segregated_block : Block → Bool
is_segregated_block block = any_of (λ tx. is_segregated tx.inputs) block.transactions

-- The first code that is no success.
unfoldable pub first_failure : {A : Type 0} → (A → ErrorCode) → List A → ErrorCode
first_failure step [] = ErrorCode.success
first_failure step (a ∷ list) =
    let ec = step a in let rest = first_failure step list in if is_success ec then rest else ec

unfoldable pub check_transactions : List Transaction → ErrorCode
check_transactions = first_failure (check false true)
