-- ===== src/Chain/Block/Checks.antt =====
-- src/chain/block.cpp and src/chain/header.cpp: the checks of blocks and of their headers.
use bitprim_core.Common.{ℕ, ◌+◌, ◌*◌, ◌/◌, ◌-◌, ◌^◌, Bool, true, false, not, ◌&&◌, ◌||◌, List}
use bitprim_core.Common.{
  [], ◌∷◌, ◌++◌, Option, none, some, ltb, leb, ◌==◌, if◌then◌else◌, length, map,
}
use bitprim_core.Common.{get_or, Bytes, bytes_eq}
use bitprim_core.Machine.ErrorCode.{ErrorCode, is_success}
use bitprim_core.Machine.Operation.{max_block_size}
use bitprim_core.Machine.Interpreter.Crypto.{Library, is_enabled}
use bitprim_core.Chain.Block.{
  Block, block_serialized_size, block_weight, subsidy, is_extra_coinbases, is_final_block,
  is_block_internal_double_spend, claim, is_valid_coinbase_script, last_commitment,
  is_segregated_block, first_failure, check_transactions,
}
use bitprim_core.Chain.Types.{Input, Transaction}
use bitprim_core.Chain.Header.{Header}
use bitprim_core.Chain.SignatureHash.{null_hash, bitcoin_hash}
use bitprim_core.Chain.ProofOfWork.{header_hash, check_header}
use bitprim_core.Chain.Block.Merkle.{generate_merkle_root}
use bitprim_core.Chain.Input.{reset_input}
use bitprim_core.Chain.Transaction.{reset_transaction, is_segregated, transaction_to_data}
use bitprim_core.Chain.Amounts.{ceiling_add, accumulate}
use bitprim_core.Chain.Prevout.{Validation, extract_reserved_hash}
use bitprim_core.Chain.Verify.{bip16_rule, bip141_rule}
use bitprim_core.Chain.Checks.{ChainState, any_of, is_coinbase}
use bitprim_core.Chain.Checks.Accept.{max_block_weight, fees, signature_operations, accept, connect}

-- What a block needs to know of a `chain_state`, behind what its transactions need.
pub record BlockState : Type 0 where
  pub chain_state : ChainState
  pub work_required : ℕ
  pub minimum_version : ℕ
  pub is_checkpoint_conflict : Bytes → Bool

abbrev pub bip34_rule : ℕ
bip34_rule = 2 ^ 3

abbrev pub bip113_rule : ℕ
bip113_rule = 2 ^ 10

-- `get_allowed_sigops(block_size)`
unfoldable pub get_allowed_sigops : ℕ → ℕ
get_allowed_sigops block_size = (1 + (block_size - 1) / 1_000_000) * 20_000

-- `transaction::hash(witness)`
unfoldable pub transaction_hash : (Bytes → Bytes) → Bool → Transaction → Bytes
transaction_hash sha256_hash witness tx =
    let segregated = witness && is_segregated tx.inputs in
    if segregated && is_coinbase tx
    then null_hash
    else bitcoin_hash sha256_hash (transaction_to_data segregated tx)

-- `header::accept(state)`
unfoldable pub accept_header : (Bytes → Bytes) → BlockState → Header → ErrorCode
accept_header sha256_hash state header =
    if not (header.bits == state.work_required)
    then ErrorCode.incorrect_proof_of_work
    else if state.is_checkpoint_conflict (header_hash sha256_hash header)
    then ErrorCode.checkpoints_failed
    else if state.chain_state.is_under_checkpoint
    then ErrorCode.success
    else if ltb header.version state.minimum_version
    then ErrorCode.old_version_block
    else if leb header.timestamp state.chain_state.median_time_past
    then ErrorCode.timestamp_too_early
    else ErrorCode.success

-- The input refers to one of the hashes.
unfoldable pub is_forward : List Bytes → Input → Bool
is_forward hashes input = any_of (bytes_eq input.previous_output.hash) hashes

-- `for (const auto& tx: reverse(transactions_))`: whether there is a forward reference, and the
-- hashes so far.
unfoldable pub forward_references : (Bytes → Bytes) → List Transaction → Bool × List Bytes
forward_references sha256_hash [] = (false, [])
forward_references sha256_hash (tx ∷ txs) =
    let (found, later) = forward_references sha256_hash txs in
    let hashes = transaction_hash sha256_hash false tx ∷ later in
    (found || any_of (is_forward hashes) tx.inputs, hashes)

-- `block::is_forward_reference()`
unfoldable pub is_forward_reference : (Bytes → Bytes) → List Transaction → Bool
is_forward_reference sha256_hash txs = (forward_references sha256_hash txs).0

-- `block::generate_merkle_root(witness)`
unfoldable pub block_merkle_root : (Bytes → Bytes) → Bool → Block → Option Bytes
block_merkle_root sha256_hash witness block =
    generate_merkle_root sha256_hash (map (transaction_hash sha256_hash witness) block.transactions)

-- `block::is_valid_merkle_root()`
unfoldable pub is_valid_merkle_root : (Bytes → Bytes) → Block → Bool
is_valid_merkle_root sha256_hash block = elim (block_merkle_root sha256_hash false block) [
  | none ↦ false
  | some root ↦ bytes_eq root block.header.merkle
]

-- The hash that a block with witnesses must commit to.
unfoldable pub commitment : (Bytes → Bytes) → Block → Bytes → Option Bytes
commitment sha256_hash block reserved = elim (block_merkle_root sha256_hash true block) [
  | none ↦ none
  | some root ↦ some (bitcoin_hash sha256_hash (root ++ reserved))
]

-- `committed == bitcoin_hash(build_chunk({ generate_merkle_root(true), reserved }))`
unfoldable pub is_committed : (Bytes → Bytes) → Block → Bytes → Bytes → Bool
is_committed sha256_hash block reserved committed = elim (commitment sha256_hash block reserved) [
  | none ↦ false
  | some expected ↦ bytes_eq committed expected
]

-- `block::is_valid_witness_commitment()`
unfoldable pub is_valid_witness_commitment : (Bytes → Bytes) → Block → Bool
is_valid_witness_commitment sha256_hash block =
    let coinbase = get_or block.transactions 0 reset_transaction in
    let reserved = extract_reserved_hash (get_or coinbase.inputs 0 reset_input) in
    if length block.transactions == 0 || length coinbase.inputs == 0 then false else elim reserved [
      | none ↦ not (is_segregated_block block)
      | some value ↦ elim (last_commitment coinbase.outputs) [
        | none ↦ not (is_segregated_block block)
        | some committed ↦ is_committed sha256_hash block value committed
      ]
    ]

-- `block::check()`, at a time of the clock. The header is checked with no retargeting.
unfoldable pub check_block : (Bytes → Bytes) → ℕ → Block → ErrorCode
check_block sha256_hash now block =
    let ec = check_header sha256_hash false now block.header in
    if not (is_success ec)
    then ec
    else if ltb max_block_size (block_serialized_size false block)
    then ErrorCode.block_size_limit
    else if length block.transactions == 0
    then ErrorCode.empty_block
    else if not (is_coinbase (get_or block.transactions 0 reset_transaction))
    then ErrorCode.first_not_coinbase
    else if is_extra_coinbases block.transactions
    then ErrorCode.extra_coinbases
    else if is_forward_reference sha256_hash block.transactions
    then ErrorCode.forward_reference
    else if is_block_internal_double_spend block.transactions
    then ErrorCode.block_internal_double_spend
    else if not (is_valid_merkle_root sha256_hash block)
    then ErrorCode.merkle_mismatch
    else check_transactions block.transactions

module _ (prevout : Input → Validation) (sha256_hash : Bytes → Bytes) where
  -- `block::fees()`
  unfoldable pub block_fees : Block → ℕ
  block_fees block = accumulate (fees prevout) block.transactions 0

  -- `block::reward(height)`
  unfoldable pub reward : Block → ℕ → ℕ
  reward block height = ceiling_add (block_fees block) (subsidy height true)

  unfoldable pub is_valid_coinbase_claim : Block → ℕ → Bool
  is_valid_coinbase_claim block height = leb (claim block.transactions) (reward block height)

  -- `block::signature_operations(bip16, bip141)`
  unfoldable pub block_signature_operations : Bool → Bool → Block → ℕ
  block_signature_operations bip16 bip141 block =
      accumulate (signature_operations prevout bip16 bip141) block.transactions 0

  -- `block::accept(state, transactions)`. A transaction that the chain has already is told by the
  -- last argument.
  unfoldable pub accept_block : BlockState → Bool → (Transaction → Bool) → Block → ErrorCode
  accept_block state transactions duplicate block =
      let forks = state.chain_state.enabled_forks in
      let height = state.chain_state.height in
      let bip16 = is_enabled forks bip16_rule in
      let bip34 = is_enabled forks bip34_rule in
      let bip113 = is_enabled forks bip113_rule in
      let bip141 = is_enabled forks bip141_rule in
      let block_time =
        (if bip113 then state.chain_state.median_time_past else block.header.timestamp) in
      let allowed_sigops = get_allowed_sigops (block_serialized_size false block) in
      let ec = accept_header sha256_hash state block.header in
      if not (is_success ec)
      then ec
      else if state.chain_state.is_under_checkpoint
      then ErrorCode.success
      else if bip141 && ltb max_block_weight (block_weight block)
      then ErrorCode.block_weight_limit
      else if bip34 && not (is_valid_coinbase_script block height)
      then ErrorCode.coinbase_height_mismatch
      else if not (is_valid_coinbase_claim block height)
      then ErrorCode.coinbase_value_limit
      else if not (is_final_block block height block_time)
      then ErrorCode.block_non_final
      else if bip141 && not (is_valid_witness_commitment sha256_hash block)
      then ErrorCode.invalid_witness_commitment
      else if transactions && ltb allowed_sigops (block_signature_operations bip16 bip141 block)
      then ErrorCode.block_embedded_sigop_limit
      else if transactions
      then first_failure (λ tx. accept prevout state.chain_state false (duplicate tx) tx)
          block.transactions
      else ec

  -- `block::connect(state)`
  unfoldable pub connect_block : Library → ChainState → Block → ErrorCode
  connect_block library state block =
      if state.is_under_checkpoint
      then ErrorCode.success
      else first_failure (connect prevout library state) block.transactions
