-- ===== src/Chain/Verify/Spend.antt =====
-- src/chain/script.cpp: `verify` of an output that pays to a key hash.
use bitprim_core.Common.{ℕ, ◌-◌, ◌^◌, ◌≡◌, inl, inr, refl, ◌∙◌, Bool, true, false, ◌&&◌, []}
use bitprim_core.Common.{length, Bytes, Bool-cases}
use bitprim_core.Chain.Types.{Transaction}
use bitprim_core.Chain.Patterns.{
  short_hash_size, is_witness_program_pattern, is_pay_script_hash_pattern,
}
use bitprim_core.Chain.Patterns.Make.{to_pay_key_hash_pattern}
use bitprim_core.Chain.Patterns.Outputs.{made-IsCoded, to_key_hash, ops_of}
use bitprim_core.Machine.ErrorCode.{ErrorCode, is_success}
use bitprim_core.Machine.Operation.RoundTrip.{operations-operations_to_data}
use bitprim_core.Machine.Operation.Script.{operations, operations_to_data}
use bitprim_core.Machine.Program.{Program, unversioned, program, stack_result}
use bitprim_core.Machine.Interpreter.Crypto.{Library}
use bitprim_core.Machine.Interpreter.Run.{run}
use bitprim_core.Chain.Verify.Rounds.{spends}
use bitprim_core.Chain.Verify.KeyHashOps.{Setting}
use bitprim_core.Chain.Verify.{
  program_after, is_pay_to_witness, is_pay_to_script_hash, verify_output, verify_script,
}
use bitprim_core.Chain.Verify.PayKeyHash.{can_spend, run-can_spend}

-- What the evaluation of the output script is about, once the input script was evaluated.
abbrev pub setting_after : Bytes → Program → Setting
setting_after script p = record {
  script = script;
  transaction = p.transaction;
  input_index = p.input_index;
  forks = p.forks;
  value = p.value;
  version = unversioned;
}

-- The evaluation of the input script.
abbrev pub input_run : Library → Transaction → ℕ → ℕ → Bytes → ErrorCode × Program
input_run library tx input_index forks input_script =
    run library (program input_script tx input_index forks [] (2 ^ 64 - 1) unversioned)

and_false : (b : Bool) → (b && false) ≡ false
and_false true = refl
and_false false = refl

module _ (library : Library) (tx : Transaction) (input_index forks value : ℕ)
    (input_script hash : Bytes) (size : length hash ≡ short_hash_size) where
  lock : Bytes
  lock = operations_to_data (to_pay_key_hash_pattern hash)

  lock_eq : lock ≡ operations_to_data (to_pay_key_hash_pattern hash)
  unfolding lock
  lock_eq = refl

  reads_lock : operations lock ≡ to_pay_key_hash_pattern hash
  unfolding lock ops_of
  reads_lock =
      operations-operations_to_data (to_pay_key_hash_pattern hash)
        (made-IsCoded (to_key_hash hash) size)

  not_witness : is_pay_to_witness forks lock ≡ false
  unfolding is_pay_to_witness is_witness_program_pattern to_pay_key_hash_pattern
  not_witness = rw (reads_lock) (and_false _)

  not_embedded : is_pay_to_script_hash forks lock ≡ false
  unfolding is_pay_to_script_hash is_pay_script_hash_pattern to_pay_key_hash_pattern
  not_embedded = rw (reads_lock) (and_false _)

  output_spends :
      (input : Program) (r : ErrorCode × Program)
      → is_success (verify_output library tx input_index forks input_script [] lock value input r)
        ≡ spends r
  unfolding verify_output spends is_success
  output_spends input (code, p) = elim (Bool-cases (is_success code)) [
    | inr failed ↦ rw (failed) failed
    | inl ok ↦ elim (Bool-cases (stack_result false p)) [
      | inr dirty ↦ rw (ok, dirty) refl
      | inl clean ↦ rw (ok, clean, not_witness, not_embedded) refl
    ]
  ]

  -- The output script's evaluation, on the stack that the input script left.
  prevout_spends :
      (input : Program)
      → spends (run library (program_after lock input))
        ≡ can_spend library (setting_after lock input) hash input.primary
  unfolding program_after program
  prevout_spends input =
      run-can_spend library (setting_after lock input) hash size lock_eq input.primary

  verify-lock :
      is_success (verify_script library tx input_index forks input_script [] lock value) ≡ (
        is_success (input_run library tx input_index forks input_script).0
        && can_spend library
            (setting_after lock (input_run library tx input_index forks input_script).1)
            hash
            (input_run library tx input_index forks input_script).1.primary)
  unfolding verify_script
  verify-lock =
      elim (Bool-cases (is_success (input_run library tx input_index forks input_script).0)) [
        | inr failed ↦ rw (verify_script, failed, failed) refl
        | inl ok ↦
            rw (verify_script, ok)
              (output_spends (input_run library tx input_index forks input_script).1 _
                ∙ prevout_spends (input_run library tx input_index forks input_script).1)
      ]

-- `verify` of an output that pays to a key hash of 20 bytes, by an input with no witness, succeeds
-- exactly where the input script is evaluated with success and leaves at the top of the stack a
-- public key that has the hash and below it an endorsement that is, for this input and with that
-- endorsement deleted from the output script, signed by the key, with at most 996 items more.
pub verify_script-pay_key_hash :
    (library : Library) (tx : Transaction) (input_index forks value : ℕ) (input_script hash : Bytes)
    → length hash ≡ short_hash_size
    → is_success (
        verify_script library tx input_index forks input_script []
          (operations_to_data (to_pay_key_hash_pattern hash))
          value)
      ≡ (is_success (input_run library tx input_index forks input_script).0
          && can_spend library
              (setting_after
                (operations_to_data (to_pay_key_hash_pattern hash))
                (input_run library tx input_index forks input_script).1)
              hash
              (input_run library tx input_index forks input_script).1.primary)
unfolding lock
verify_script-pay_key_hash library tx input_index forks value input_script hash size =
    verify-lock library tx input_index forks value input_script hash size
