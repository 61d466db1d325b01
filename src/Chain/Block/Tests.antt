-- ===== src/Chain/Block/Tests.antt =====
-- Blocks at concrete inputs, with a hash that depends on the length only.
use bitprim_core.Wire.Deserializer.{read_bytes, read_byte, is_exhausted}
use bitprim_core.Machine.Operation.{read_data_size, op_from_data}
use bitprim_core.Machine.Opcode.{opcode_from_byte, opcode_byte}
use bitprim_core.Machine.Operation.Script.{operations_loop, operations}
use bitprim_core.Chain.Sigops.{code_sigops, sigops_loop, sigops}
use bitprim_core.Wire.Serializer.{
  write_variable_little_endian, write_bytes, write_byte, write_8_bytes_little_endian,
  write_4_bytes_little_endian, write_2_bytes_little_endian,
}
use bitprim_core.Wire.Sequences.{write_all}
use bitprim_core.Wire.Endian.{to_little_endian, or_little, from_little_endian}
use bitprim_core.Machine.Interpreter.Crypto.{is_enabled}
use bitprim_core.Chain.Witness.{
  write_element, witness_to_data, witness_serialized_size, elements_size,
}
use bitprim_core.Chain.Transaction.{write_witnesses, write_puts, transaction_to_data, is_segregated}
use bitprim_core.Chain.SignatureHash.{bitcoin_hash}
use bitprim_core.Chain.Script.{variable_uint_size, script_to_data, script_serialized_size}
use bitprim_core.Chain.ProofOfWork.{
  limit, is_work, is_valid_timestamp, is_valid_proof_of_work, header_hash, check_header,
}
use bitprim_core.Chain.Points.{sort, less_bytes, less, insert, has_equal_neighbours, equal}
use bitprim_core.Chain.Point.{write_index, point_to_data, point_serialized_size}
use bitprim_core.Chain.Output.{write_height, output_to_data, output_serialized_size}
use bitprim_core.Chain.Input.{input_to_data, input_serialized_size}
use bitprim_core.Chain.Compact.{log_256, is_overflow, is_negated, from_compact}
use bitprim_core.Chain.Checks.Accept.{
  is_overspent, is_mature, is_spent, is_missing_previous_outputs, is_missing, is_double_spend,
  accept, signature_operations, total_input_value, input_value, fees,
}
use bitprim_core.Common.{ℕ, ◌+◌, ◌-◌, ◌*◌, ◌%◌, ◌^◌, ◌≤◌, ◌≡◌, refl, arith, true, false}
use bitprim_core.Common.{List, [], ◌∷◌, some, replicate, Bytes, length}
use bitprim_core.Machine.ErrorCode.{is_success}
use bitprim_core.Chain.Types.{Input, Transaction}
use bitprim_core.Chain.Header.{header_to_data, header_serialized_size}
use bitprim_core.Chain.Amounts.{floor_subtract, ceiling_add, accumulate, max_money}
use bitprim_core.Chain.Prevout.{
  is_mature_point, output_signature_operations, input_signature_operations, is_valid_output,
  is_null, Validation,
}
use bitprim_core.Chain.Checks.{
  is_final_transaction, transaction_serialized_size, total_output_value, previous_outputs,
  is_oversized_coinbase, is_null_non_coinbase, is_internal_double_spend, is_coinbase, check, any_of,
  all_of,
}
use bitprim_core.Chain.Block.{
  is_final_block, is_extra_coinbases, is_block_internal_double_spend, first_failure,
  check_transactions, block_serialized_size, all_previous_outputs, Block, claim, subsidy,
}
use bitprim_core.Chain.Block.Checks.{
  get_allowed_sigops, transaction_hash, reward, is_valid_merkle_root, is_valid_coinbase_claim,
  is_forward_reference, is_forward, forward_references, block_merkle_root, accept_header,
  BlockState, block_fees, block_signature_operations, check_block, accept_block,
}
use bitprim_core.Chain.Block.Merkle.{
  pairs, node, merkle_round, merkle_loop, make_even, generate_merkle_root,
}
use bitprim_core.Chain.Block.Merkle.Rounds.{generate_merkle_root_ends, generate_merkle_root-append}
use bitprim_core.Chain.Block.Merkle.Tree.{tree_root, generate_merkle_root-tree_root}
use bitprim_core.Chain.Block.Locator.{locator_heights, IsDescent, locator_heights-IsDescent}
use bitprim_core.Chain.Block.Subsidy.{subsidies, subsidies-max_money, subsidy_restarts}
use bitprim_core.Chain.Block.Sound.{
  IsBlockChecked, check_block-IsBlockChecked, accept_block-claim, accept_block-sigops,
}

abbrev length_hash : Bytes → Bytes
length_hash bytes = length bytes % 256 ∷ replicate 31 0

abbrev three_hashes : List Bytes
three_hashes = (1 ∷ []) ∷ (2 ∷ []) ∷ (3 ∷ []) ∷ []

generate_merkle_root_ends_example :
    (root : Bytes) × (generate_merkle_root length_hash three_hashes ≡ some root)
generate_merkle_root_ends_example = generate_merkle_root_ends length_hash three_hashes

-- The hash of the third transaction counts once or twice.
generate_merkle_root-append_example :
    generate_merkle_root length_hash ((1 ∷ []) ∷ (2 ∷ []) ∷ (3 ∷ []) ∷ (3 ∷ []) ∷ [])
    ≡ generate_merkle_root length_hash three_hashes
generate_merkle_root-append_example =
    generate_merkle_root-append length_hash three_hashes (omega arith) refl

generate_merkle_root-tree_root_example :
    generate_merkle_root length_hash ((1 ∷ []) ∷ (2 ∷ []) ∷ (3 ∷ []) ∷ (4 ∷ []) ∷ [])
    ≡ some (tree_root length_hash 2 ((1 ∷ []) ∷ (2 ∷ []) ∷ (3 ∷ []) ∷ (4 ∷ []) ∷ []))
generate_merkle_root-tree_root_example =
    generate_merkle_root-tree_root length_hash 2 ((1 ∷ []) ∷ (2 ∷ []) ∷ (3 ∷ []) ∷ (4 ∷ []) ∷ [])
      refl

locator_heights-IsDescent_example :
    (heights : List ℕ) × ((locator_heights 500_000 ≡ some heights) × IsDescent 500_000 heights)
locator_heights-IsDescent_example = locator_heights-IsDescent 500_000 (omega arith)

subsidies-max_money_example : subsidies true (64 * 210_000) ≡ max_money true
subsidies-max_money_example = subsidies-max_money true

-- A block long behind the last that pays anything pays 50 coins.
subsidy_restarts_example : subsidy 13_440_000 true ≡ 5_000_000_000
unfolding subsidy
subsidy_restarts_example = subsidy_restarts true 13_440_000 (omega arith)

abbrev coinbase : Transaction
coinbase = record {
  version = 1;
  locktime = 0;
  inputs =
      record {
        previous_output = record { hash = replicate 32 0; index = 2 ^ 32 - 1; valid = true };
        script = 0x51 ∷ 0x52 ∷ [];
        witness = [];
        sequence = 2 ^ 32 - 1;
      }
      ∷ [];
  outputs = record { value = 5_000_000_020; script = 0x51 ∷ []; spender_height = 0 } ∷ [];
}

-- 120 are spent for 100.
abbrev payment : Transaction
payment = record {
  version = 1;
  locktime = 0;
  inputs =
      record {
        previous_output = record { hash = 7 ∷ replicate 31 0; index = 0; valid = true };
        script = [];
        witness = [];
        sequence = 2 ^ 32 - 1;
      }
      ∷ [];
  outputs = record { value = 100; script = 0x51 ∷ []; spender_height = 0 } ∷ [];
}

abbrev a_block : Block
a_block = record {
  header = record {
    version = 4;
    previous_block_hash = replicate 32 0;
    merkle = 32 ∷ replicate 31 0;
    timestamp = 2000;
    bits = 0x1d00_ffff;
    nonce = 0;
    median_time_past = 0;
  };
  transactions = coinbase ∷ payment ∷ [];
}

abbrev confirmed : Input → Validation
confirmed input = record {
  spent = false;
  confirmed = true;
  coinbase = false;
  height = 10;
  median_time_past = 0;
  cache = record { value = 120; script = 0x51 ∷ []; spender_height = 0 };
}

abbrev a_state : BlockState
a_state = record {
  chain_state = record {
    enabled_forks = 0;
    height = 20;
    median_time_past = 1000;
    is_under_checkpoint = false;
  };
  work_required = 0x1d00_ffff;
  minimum_version = 2;
  is_checkpoint_conflict = λ hash. false;
}

block_passes : is_success (check_block length_hash 3000 a_block) ≡ true
unfolding check_block is_success accept_block accumulate ceiling_add floor_subtract accept_header
    block_merkle_root forward_references is_forward is_forward_reference is_valid_coinbase_claim
    is_valid_merkle_root reward transaction_hash make_even merkle_loop merkle_round node pairs
    all_previous_outputs block_serialized_size check_transactions first_failure
    is_block_internal_double_spend is_extra_coinbases is_final_block fees input_value
    total_input_value all_of any_of check is_coinbase is_internal_double_spend is_null_non_coinbase
    is_oversized_coinbase previous_outputs total_output_value transaction_serialized_size
    from_compact is_negated is_overflow log_256 header_serialized_size header_to_data
    input_serialized_size input_to_data output_serialized_size output_to_data write_height
    point_serialized_size point_to_data write_index equal has_equal_neighbours insert less
    less_bytes sort is_null is_valid_output check_header header_hash is_valid_proof_of_work
    is_valid_timestamp is_work limit script_serialized_size script_to_data variable_uint_size
    bitcoin_hash is_segregated transaction_to_data write_puts write_witnesses elements_size
    witness_serialized_size witness_to_data write_element is_enabled from_little_endian or_little
    to_little_endian write_all write_2_bytes_little_endian write_4_bytes_little_endian
    write_8_bytes_little_endian write_byte write_bytes write_variable_little_endian block_fees claim
    generate_merkle_root subsidy
block_passes = refl

check_block-IsBlockChecked_example : IsBlockChecked length_hash 3000 a_block
check_block-IsBlockChecked_example =
    check_block-IsBlockChecked length_hash 3000 a_block ((omega arith, tt), ((omega arith, tt), tt))
      block_passes

block_accepted :
    is_success (accept_block confirmed length_hash a_state true (λ tx. false) a_block) ≡ true
unfolding accept_block is_success accept_header accumulate all_of to_little_endian block_fees
    ceiling_add claim fees floor_subtract input_value is_enabled is_final_block
    is_valid_coinbase_claim is_valid_output reward subsidy total_input_value total_output_value
    get_allowed_sigops signature_operations is_final_transaction input_signature_operations sigops
    sigops_loop operations operations_loop block_serialized_size block_signature_operations
    header_serialized_size input_serialized_size output_serialized_size point_serialized_size
    script_serialized_size transaction_serialized_size variable_uint_size any_of accept
    is_double_spend is_missing is_missing_previous_outputs is_spent output_signature_operations
    code_sigops opcode_byte opcode_from_byte op_from_data read_data_size is_exhausted read_byte
    read_bytes first_failure is_segregated is_mature is_overspent is_coinbase is_mature_point
    is_null
block_accepted = refl

-- The coinbase takes 50 coins and the fees of 20.
accept_block-claim_example :
    claim a_block.transactions ≤ block_fees confirmed length_hash a_block + subsidy 20 true
accept_block-claim_example =
    accept_block-claim confirmed length_hash a_state true (λ tx. false) a_block refl block_accepted

accept_block-sigops_example :
    block_signature_operations confirmed length_hash false false a_block ≤ 20_000
unfolding is_enabled header_serialized_size variable_uint_size transaction_serialized_size
    input_serialized_size point_serialized_size script_serialized_size output_serialized_size
accept_block-sigops_example =
    accept_block-sigops confirmed length_hash a_state true (λ tx. false) a_block refl refl
      (unfold block_serialized_size in omega arith) block_accepted
