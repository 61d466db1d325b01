-- ===== src/Chain/Checks/Money.antt =====
-- A transaction that the chain accepts makes no money: src/chain/transaction.cpp.
use bitprim_core.Common.{ℕ, ◌+◌, ◌≤◌, ◌≡◌, min, arith, Bool, true, false, List}
use bitprim_core.Common.{All}
use bitprim_core.Machine.ErrorCode.{is_success}
use bitprim_core.Chain.Types.{Input, Transaction}
use bitprim_core.Chain.Amounts.{max_uint64, sum, accumulate-sum, floor_subtract_lem}
use bitprim_core.Chain.Prevout.{Validation}
use bitprim_core.Chain.Checks.{ChainState, is_coinbase, total_output_value, check}
use bitprim_core.Chain.Checks.Accept.{
  input_value, total_input_value, fees, is_overspent, is_missing_previous_outputs, is_double_spend,
  is_mature, accept,
}
use bitprim_core.Chain.Checks.Sound.{
  ValuesFit, output_sum, total_output_value-sum, max_money_fits, check_iff,
}

module _ (prevout : Input → Validation) where
  -- The values of the outputs that are spent are numbers of 64 bits.
  abbrev pub SpentFit : List Input → Type 0
  SpentFit inputs = All (λ input. input_value prevout input ≤ max_uint64) inputs

  abbrev pub input_sum : Transaction → ℕ
  input_sum tx = sum (input_value prevout) tx.inputs

  total_input_value-sum :
      (tx : Transaction)
      → SpentFit tx.inputs
      → total_input_value prevout tx ≡ min max_uint64 (input_sum tx)
  unfolding total_input_value
  total_input_value-sum tx fit = accumulate-sum (input_value prevout) tx.inputs fit

  -- What acceptance promises of what a transaction spends.
  pub accepted_lem :
      (state : ChainState) (transaction_pool duplicate : Bool) (tx : Transaction)
      → is_success (accept prevout state transaction_pool duplicate tx) ≡ true
      → (is_overspent prevout tx ≡ false)
        × (is_missing_previous_outputs prevout tx ≡ false)
        × (is_double_spend prevout tx transaction_pool ≡ false)
        × (is_mature prevout tx state.height ≡ true)
  unfolding accept is_success
  accepted_lem state transaction_pool duplicate tx h = ground (arith, h)

  not_overspent :
      (tx : Transaction)
      → is_coinbase tx ≡ false
      → is_overspent prevout tx ≡ false
      → total_output_value tx ≤ total_input_value prevout tx
  unfolding is_overspent
  not_overspent tx h k = ground (arith, h, k)

  -- A transaction that passes its checks and is accepted, and is no coinbase, spends outputs whose
  -- values are those of its own outputs and its fees, but for a sum beyond 64 bits.
  pub accept-fees :
      (state : ChainState) (transaction_pool retarget duplicate : Bool) (tx : Transaction)
      → ValuesFit tx.outputs
      → SpentFit tx.inputs
      → is_coinbase tx ≡ false
      → is_success (check transaction_pool retarget tx) ≡ true
      → is_success (accept prevout state transaction_pool duplicate tx) ≡ true
      → output_sum tx + fees prevout tx ≡ min max_uint64 (input_sum tx)
  unfolding fees
  accept-fees state transaction_pool retarget duplicate tx fit spent h c a =
      let checks = (check_iff transaction_pool retarget tx fit).0 c in
      let limit = max_money_fits retarget in
      let outs = total_output_value-sum tx fit in
      let ins = total_input_value-sum tx spent in
      let paid = not_overspent tx h (accepted_lem state transaction_pool duplicate tx a).0 in
      let rest = floor_subtract_lem (total_input_value prevout tx) (total_output_value tx) in
      omega (arith, checks.amount, limit, outs, ins, paid, rest)
