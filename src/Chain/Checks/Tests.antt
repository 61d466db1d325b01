-- ===== src/Chain/Checks/Tests.antt =====
-- The checks of transactions at concrete inputs.
use bitprim_core.Common.{ℕ, ◌+◌, ◌-◌, ◌^◌, ◌≡◌, refl, arith, true, false}
use bitprim_core.Common.{[], ◌∷◌, replicate, bytes_eq, some}
use bitprim_core.Machine.ErrorCode.{ErrorCode, is_success}
use bitprim_core.Machine.Interpreter.Crypto.{Library}
use bitprim_core.Chain.Script.{variable_uint_size, script_serialized_size}
use bitprim_core.Chain.Point.{point_serialized_size}
use bitprim_core.Chain.Input.{input_serialized_size}
use bitprim_core.Chain.Output.{output_serialized_size}
use bitprim_core.Chain.Transaction.{is_segregated}
use bitprim_core.Chain.Sigops.{sigops, sigops_loop, code_sigops}
use bitprim_core.Chain.Verify.{is_pay_to_script_hash}
use bitprim_core.Machine.Opcode.{opcode_byte, opcode_from_byte}
use bitprim_core.Machine.Operation.{op_from_data, read_data_size}
use bitprim_core.Machine.Operation.Script.{operations, operations_loop}
use bitprim_core.Machine.Interpreter.Crypto.{is_enabled}
use bitprim_core.Wire.Deserializer.{is_exhausted, read_byte, read_bytes}
use bitprim_core.Chain.Types.{Point, Input, Output, Transaction}
use bitprim_core.Chain.Amounts.{accumulate, ceiling_add, sum}
use bitprim_core.Chain.Points.{has_equal_neighbours, sort, insert, less, less_bytes, equal}
use bitprim_core.Chain.Points.Distinct.{has, has_equal, has_equal_neighbours-sort}
use bitprim_core.Chain.Prevout.{
  Validation, is_null, is_valid_output, is_mature_point, output_signature_operations,
  input_signature_operations, extract_input_script,
}
use bitprim_core.Chain.ProofOfWork.{target_proof, target_proof_lem}
use bitprim_core.Chain.Checks.{
  ChainState, any_of, all_of, is_coinbase, is_null_non_coinbase, is_oversized_coinbase,
  is_final_transaction, total_output_value, previous_outputs, is_internal_double_spend,
  transaction_serialized_size, check,
}
use bitprim_core.Chain.Checks.Accept.{
  input_value, total_input_value, fees, is_overspent, signature_operations, is_missing,
  is_missing_previous_outputs, is_spent, is_double_spend, is_mature, accept, connect_input, connect,
}
use bitprim_core.Chain.Checks.Sound.{IsChecked, check_iff}
use bitprim_core.Chain.Checks.Money.{accept-fees}
use bitprim_core.Chain.Checks.Connect.{connect_fails}

abbrev point_at : ℕ → ℕ → Point
point_at first index = record { hash = first ∷ replicate 31 0; index = index; valid = true }

abbrev spend : Point → Input
spend point = record { previous_output = point; script = []; witness = []; sequence = 2 ^ 32 - 1 }

abbrev pay : ℕ → Output
pay value = record { value = value; script = 0x51 ∷ []; spender_height = 0 }

-- Two outputs of 60 and 60 are spent, for one of 100.
abbrev payment : Transaction
payment = record {
  version = 1;
  locktime = 0;
  inputs = spend (point_at 7 1) ∷ spend (point_at 7 0) ∷ [];
  outputs = pay 100 ∷ [];
}

-- What is spent was confirmed in block 10, and anyone can spend it.
abbrev confirmed_sixty : Input → Validation
confirmed_sixty input = record {
  spent = false;
  confirmed = true;
  coinbase = false;
  height = 10;
  median_time_past = 0;
  cache = pay 60;
}

abbrev at_height_twenty : ChainState
at_height_twenty = record {
  enabled_forks = 0;
  height = 20;
  median_time_past = 1000;
  is_under_checkpoint = false;
}

abbrev no_library : Library
no_library = record {
  ripemd160_hash = λ bytes. bytes;
  sha1_hash = λ bytes. bytes;
  sha256_hash = λ bytes. bytes;
  parse_der = λ der strict. some der;
  verify_signature = λ public_key digest signature. bytes_eq public_key signature;
}

payment_passes : is_success (check true true payment) ≡ true
unfolding check is_success is_null_non_coinbase is_coinbase is_null any_of total_output_value
    accumulate ceiling_add is_oversized_coinbase is_internal_double_spend previous_outputs sort
    insert less less_bytes equal has_equal_neighbours transaction_serialized_size is_segregated
    variable_uint_size input_serialized_size output_serialized_size point_serialized_size
    script_serialized_size
payment_passes = refl

check_iff_example : IsChecked true true payment
check_iff_example = (check_iff true true payment (omega arith, tt)).0 payment_passes

has_equal_neighbours-sort_example :
    has_equal_neighbours (sort (point_at 1 0 ∷ point_at 2 0 ∷ point_at 1 0 ∷ [])) ≡ true
unfolding has_equal has equal
has_equal_neighbours-sort_example =
    has_equal_neighbours-sort (point_at 1 0 ∷ point_at 2 0 ∷ point_at 1 0 ∷ [])

payment_accepted : is_success (accept confirmed_sixty at_height_twenty true false payment) ≡ true
unfolding accept is_success is_enabled is_segregated is_final_transaction
    is_missing_previous_outputs is_missing is_valid_output is_null any_of is_double_spend is_spent
    is_mature all_of is_mature_point is_overspent total_input_value input_value total_output_value
    accumulate ceiling_add is_coinbase signature_operations input_signature_operations
    output_signature_operations sigops sigops_loop code_sigops operations operations_loop
    op_from_data read_data_size opcode_from_byte opcode_byte read_byte is_exhausted read_bytes
    extract_input_script is_pay_to_script_hash
payment_accepted = refl

-- 60 and 60 come in, 100 go out, and 20 are left for the fees.
accept-fees_example : 100 + fees confirmed_sixty payment ≡ 120
unfolding input_value sum is_valid_output
accept-fees_example =
    accept-fees confirmed_sixty at_height_twenty true true false payment (omega arith, tt)
      (omega arith, (omega arith, tt)) (unfold is_coinbase in refl) payment_passes payment_accepted

-- Nothing is known of what is spent.
abbrev unknown : Input → Validation
unknown input = record (confirmed_sixty input) { cache = pay (2 ^ 64 - 1) }

connect_fails_example :
    connect unknown no_library at_height_twenty payment ≡ ErrorCode.missing_previous_output
unfolding connect_input is_coinbase is_valid_output is_success
connect_fails_example =
    connect_fails unknown no_library at_height_twenty payment 0 (omega arith)
      (λ j lt. absurd (omega (arith, lt))) refl

-- A target of which half of all hashes are no more.
target_proof_lem_example : target_proof (2 ^ 255 - 1) ≡ 2
target_proof_lem_example = target_proof_lem (2 ^ 255 - 1) (omega arith) (omega arith)
