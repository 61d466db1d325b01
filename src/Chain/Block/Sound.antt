-- ===== src/Chain/Block/Sound.antt =====
-- What a block is that passes its checks and is accepted: src/chain/block.cpp.
use bitprim_core.Common.{ℕ, ◌+◌, ◌≤◌, ◌<◌, ◌≡◌, refl, sym, ◌∙◌, ap}
use bitprim_core.Common.{arith, Bool, true, false, some, List, [], ◌∷◌, length}
use bitprim_core.Common.{get_or, ◌==◌, Bytes, bytes_eq→eq, ltb, Option-cases}
use bitprim_core.Common.{inl, inr, All, drop, Bool-cases}
use bitprim_core.Machine.ErrorCode.{is_success}
use bitprim_core.Machine.Operation.{max_block_size}
use bitprim_core.Machine.Interpreter.Crypto.{is_enabled}
use bitprim_core.Chain.Types.{Input, Transaction}
use bitprim_core.Chain.Transaction.{reset_transaction}
use bitprim_core.Chain.Amounts.{ceiling_add}
use bitprim_core.Chain.Points.Distinct.{has_equal, has_equal_neighbours-sort}
use bitprim_core.Chain.Prevout.{Validation}
use bitprim_core.Chain.Verify.{bip16_rule, bip141_rule}
use bitprim_core.Chain.Checks.{any_of, is_coinbase, check}
use bitprim_core.Chain.Checks.Sound.{IsChecked, check_iff, ValuesFit}
use bitprim_core.Chain.ProofOfWork.{check_header}
use bitprim_core.Chain.Block.{
  Block, block_serialized_size, subsidy, is_extra_coinbases, is_block_internal_double_spend,
  all_previous_outputs, claim, first_failure, check_transactions,
}
use bitprim_core.Chain.Block.Checks.{
  BlockState, get_allowed_sigops, block_merkle_root, is_valid_merkle_root, is_forward_reference,
  block_fees, reward, is_valid_coinbase_claim, block_signature_operations, check_block,
  accept_block,
}

-- What the checks of a block promise, at a time of the clock.
pub record IsBlockChecked (sha256_hash : Bytes → Bytes) (now : ℕ) (block : Block) : Type 0 where
  pub work : is_success (check_header sha256_hash false now block.header) ≡ true
  pub small : block_serialized_size false block ≤ max_block_size
  pub some_transaction : 0 < length block.transactions
  pub coinbase : is_coinbase (get_or block.transactions 0 reset_transaction) ≡ true
  pub no_more : any_of is_coinbase (drop 1 block.transactions) ≡ false
  pub ordered : is_forward_reference sha256_hash block.transactions ≡ false
  pub distinct : has_equal (all_previous_outputs (drop 1 block.transactions)) ≡ false
  pub root : block_merkle_root sha256_hash false block ≡ some block.header.merkle
  pub each : All (IsChecked false true) block.transactions

valid_root :
    (sha256_hash : Bytes → Bytes) (block : Block)
    → is_valid_merkle_root sha256_hash block ≡ true
    → block_merkle_root sha256_hash false block ≡ some block.header.merkle
unfolding is_valid_merkle_root
valid_root sha256_hash block h = elim (Option-cases (block_merkle_root sha256_hash false block)) [
  | inl e ↦ absurd (ground (arith, h, e))
  | inr (root, e) ↦ e ∙ ap some (bytes_eq→eq root block.header.merkle (ground (arith, h, e)))
]

double_spend_lem :
    (txs : List Transaction)
    → is_block_internal_double_spend txs ≡ has_equal (all_previous_outputs (drop 1 txs))
unfolding is_block_internal_double_spend all_previous_outputs has_equal
double_spend_lem [] = refl
double_spend_lem (tx ∷ txs) = has_equal_neighbours-sort (all_previous_outputs txs)

extra_coinbases_lem :
    (txs : List Transaction) → is_extra_coinbases txs ≡ any_of is_coinbase (drop 1 txs)
unfolding is_extra_coinbases any_of
extra_coinbases_lem [] = refl
extra_coinbases_lem (tx ∷ txs) = refl

each_checked :
    (txs : List Transaction)
    → All (λ tx. ValuesFit tx.outputs) txs
    → is_success (check_transactions txs) ≡ true
    → All (IsChecked false true) txs
unfolding check_transactions first_failure
each_checked [] fit h = tt
each_checked (tx ∷ txs) (first, fit) h = elim (Bool-cases (is_success (check false true tx))) [
  | inl e ↦ ((check_iff false true tx first).0 e, each_checked txs fit (ground (arith, h, e)))
  | inr e ↦ absurd (ground (arith, h, e))
]

-- A block that passes its checks has a header of enough work, and the Merkle root of its
-- transactions, of which the first, and it alone, is a coinbase, of which none spends an output of a
-- later one, of which no two spend the same output, and which pass their checks.
pub check_block-IsBlockChecked :
    (sha256_hash : Bytes → Bytes) (now : ℕ) (block : Block)
    → All (λ tx. ValuesFit tx.outputs) block.transactions
    → is_success (check_block sha256_hash now block) ≡ true
    → IsBlockChecked sha256_hash now block
unfolding check_block is_success
check_block-IsBlockChecked sha256_hash now block fit h =
    let spends = double_spend_lem block.transactions in
    let extra = extra_coinbases_lem block.transactions in
    let work : is_success (check_header sha256_hash false now block.header) ≡ true =
      ground (arith, h) in
    let small : ltb max_block_size (block_serialized_size false block) ≡ false =
      ground (arith, h) in
    let full : (length block.transactions == 0) ≡ false = ground (arith, h) in
    let first : is_coinbase (get_or block.transactions 0 reset_transaction) ≡ true =
      ground (arith, h) in
    let no_more : is_extra_coinbases block.transactions ≡ false = ground (arith, h) in
    let ordered : is_forward_reference sha256_hash block.transactions ≡ false = ground (arith, h) in
    let distinct : is_block_internal_double_spend block.transactions ≡ false = ground (arith, h) in
    let root : is_valid_merkle_root sha256_hash block ≡ true = ground (arith, h) in
    let pass : is_success (check_transactions block.transactions) ≡ true =
      (rw (work, small, full, first, no_more, ordered, distinct, root) at h) in
    record {
      work = work;
      small = ground (arith, small);
      some_transaction = ground (arith, full);
      coinbase = first;
      no_more = sym extra ∙ no_more;
      ordered = ordered;
      distinct = sym spends ∙ distinct;
      root = valid_root sha256_hash block root;
      each = each_checked block.transactions fit pass;
    }

module _ (prevout : Input → Validation) (sha256_hash : Bytes → Bytes) (state : BlockState)
    (transactions : Bool) (duplicate : Transaction → Bool) (block : Block) where
  -- The coinbase of a block that is accepted, and is under no checkpoint, claims no more than the fees
  -- of the transactions and the subsidy of the height.
  pub accept_block-claim :
      state.chain_state.is_under_checkpoint ≡ false
      → is_success (accept_block prevout sha256_hash state transactions duplicate block) ≡ true
      → claim block.transactions
        ≤ block_fees prevout sha256_hash block + subsidy state.chain_state.height true
  unfolding accept_block is_valid_coinbase_claim reward is_success ceiling_add
  accept_block-claim under h = ground (arith, under, h)

  -- A block that is accepted with its transactions, is under no checkpoint and has no more than a
  -- million bytes without witnesses, has no more than 20000 signature operations, whether or not
  -- bip141 is on and each counts for four.
  pub accept_block-sigops :
      state.chain_state.is_under_checkpoint ≡ false
      → transactions ≡ true
      → block_serialized_size false block ≤ 1_000_000
      → is_success (accept_block prevout sha256_hash state transactions duplicate block) ≡ true
      → block_signature_operations prevout sha256_hash
          (is_enabled state.chain_state.enabled_forks bip16_rule)
          (is_enabled state.chain_state.enabled_forks bip141_rule)
          block
        ≤ 20_000
  unfolding accept_block is_success get_allowed_sigops
  accept_block-sigops under with_txs small h = ground (arith, under, with_txs, small, h)
