-- ===== src/Machine/ErrorCode.antt =====
-- include/bitcoin/bitcoin/error.hpp: the codes that script evaluation and the checks of transactions,
-- headers and blocks return.
use bitprim_core.Common.{Bool, true, false}

pub data ErrorCode : Type 0 where
  success invalid_script invalid_push_data_size invalid_operation_count : ErrorCode
  invalid_stack_size invalid_stack_scope invalid_signature_encoding : ErrorCode
  invalid_signature_lax_encoding incorrect_signature stack_false op_disabled : ErrorCode
  op_reserved op_push_size op_push_data op_if op_notif op_else op_endif op_verify1 : ErrorCode
  op_verify2 op_return op_to_alt_stack op_from_alt_stack op_drop2 op_dup2 op_dup3 : ErrorCode
  op_over2 op_rot2 op_swap2 op_if_dup op_drop op_dup op_nip op_over op_pick op_roll : ErrorCode
  op_rot op_swap op_tuck op_size op_equal op_equal_verify1 op_equal_verify2 op_add1 : ErrorCode
  op_sub1 op_negate op_abs op_not op_nonzero op_add op_sub op_bool_and op_bool_or : ErrorCode
  op_num_equal op_num_equal_verify1 op_num_equal_verify2 op_num_not_equal : ErrorCode
  op_less_than op_greater_than op_less_than_or_equal op_greater_than_or_equal op_min : ErrorCode
  op_max op_within op_ripemd160 op_sha1 op_sha256 op_hash160 op_hash256 : ErrorCode
  op_code_seperator op_check_sig_verify1 op_check_sig op_check_multisig_verify1 : ErrorCode
  op_check_multisig_verify2 op_check_multisig_verify3 op_check_multisig_verify4 : ErrorCode
  op_check_multisig_verify5 op_check_multisig_verify6 op_check_multisig_verify7 : ErrorCode
  op_check_multisig op_check_locktime_verify1 op_check_locktime_verify2 : ErrorCode
  op_check_locktime_verify3 op_check_locktime_verify4 op_check_locktime_verify5 : ErrorCode
  op_check_locktime_verify6 op_check_sequence_verify1 op_check_sequence_verify2 : ErrorCode
  op_check_sequence_verify3 op_check_sequence_verify4 op_check_sequence_verify5 : ErrorCode
  op_check_sequence_verify6 op_check_sequence_verify7 op_check_multisig_verify8 : ErrorCode
  invalid_script_embed dirty_witness unexpected_witness invalid_witness : ErrorCode
  operation_failed empty_transaction previous_output_null spend_overflow : ErrorCode
  invalid_coinbase_script_size transaction_internal_double_spend : ErrorCode
  transaction_size_limit transaction_legacy_sigop_limit transaction_embedded_sigop_limit : ErrorCode
  transaction_non_final transaction_weight_limit premature_validation : ErrorCode
  coinbase_transaction unspent_duplicate missing_previous_output double_spend : ErrorCode
  coinbase_maturity spend_exceeds_value sequence_locked : ErrorCode
  invalid_proof_of_work futuristic_timestamp checkpoints_failed old_version_block : ErrorCode
  timestamp_too_early incorrect_proof_of_work block_size_limit empty_block : ErrorCode
  first_not_coinbase extra_coinbases forward_reference internal_duplicate : ErrorCode
  block_internal_double_spend merkle_mismatch block_legacy_sigop_limit : ErrorCode
  block_weight_limit block_non_final coinbase_height_mismatch coinbase_value_limit : ErrorCode
  block_embedded_sigop_limit invalid_witness_commitment non_canonical_ordered : ErrorCode

-- `code == error::success`, the test of `if ((ec = …))` turned round.
unfoldable pub is_success : ErrorCode → Bool
is_success ErrorCode.success = true
is_success code = false

-- `code == error::invalid_signature_lax_encoding`
unfoldable pub is_lax_encoding : ErrorCode → Bool
is_lax_encoding ErrorCode.invalid_signature_lax_encoding = true
is_lax_encoding code = false
