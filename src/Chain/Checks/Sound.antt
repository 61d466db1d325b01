-- ===== src/Chain/Checks/Sound.antt =====
-- What a transaction is that passes its checks: src/chain/transaction.cpp.
use bitprim_core.Common.{ℕ, ◌≤◌, ◌<◌, ◌≡◌, ◌↔◌, min, arith, Bool, true, false, not}
use bitprim_core.Common.{◌&&◌, leb, List, length, All}
use bitprim_core.Machine.ErrorCode.{is_success}
use bitprim_core.Machine.Operation.{max_block_size}
use bitprim_core.Chain.Types.{Output, Transaction}
use bitprim_core.Chain.Amounts.{max_uint64, max_money, sum, accumulate-sum}
use bitprim_core.Chain.Points.Distinct.{has_equal, has_equal_neighbours-sort}
use bitprim_core.Chain.Checks.{
  is_coinbase, is_oversized_coinbase, is_null_non_coinbase, total_output_value, previous_outputs,
  is_internal_double_spend, transaction_serialized_size, check,
}

-- The values of outputs are numbers of 64 bits.
abbrev pub ValuesFit : List Output → Type 0
ValuesFit outputs = All (λ output. output.value ≤ max_uint64) outputs

abbrev pub output_sum : Transaction → ℕ
output_sum tx = sum (λ output. output.value) tx.outputs

pub total_output_value-sum :
    (tx : Transaction)
    → ValuesFit tx.outputs
    → total_output_value tx ≡ min max_uint64 (output_sum tx)
unfolding total_output_value
total_output_value-sum tx fit = accumulate-sum (λ output. output.value) tx.outputs fit

-- What the checks of a transaction promise, in the pool of transactions and in a block.
pub record IsChecked (transaction_pool retarget : Bool) (tx : Transaction) : Type 0 where
  pub some_input : 0 < length tx.inputs
  pub some_output : 0 < length tx.outputs
  pub refers : is_null_non_coinbase tx ≡ false
  pub amount : output_sum tx ≤ max_money retarget
  pub coinbase_size : (not transaction_pool && is_oversized_coinbase tx) ≡ false
  pub spends : (transaction_pool && is_coinbase tx) ≡ false
  pub distinct : (transaction_pool && has_equal (previous_outputs tx)) ≡ false
  pub small :
      (transaction_pool && leb max_block_size (transaction_serialized_size false tx)) ≡ false

pub max_money_fits : (retarget : Bool) → max_money retarget < max_uint64
max_money_fits true = omega arith
max_money_fits false = omega arith

module _ (transaction_pool retarget : Bool) (tx : Transaction) (fit : ValuesFit tx.outputs) where
  total : total_output_value tx ≡ min max_uint64 (output_sum tx)
  total = total_output_value-sum tx fit

  search : is_internal_double_spend tx ≡ has_equal (previous_outputs tx)
  unfolding is_internal_double_spend
  search = has_equal_neighbours-sort (previous_outputs tx)

  checked :
      is_success (check transaction_pool retarget tx) ≡ true
      → IsChecked transaction_pool retarget tx
  unfolding check is_success
  checked h = record {
    some_input = ground (arith, h);
    some_output = ground (arith, h);
    refers = ground (arith, h);
    amount = ground (arith, h, total, max_money_fits retarget);
    coinbase_size = ground (arith, h);
    spends = ground (arith, h);
    distinct = ground (arith, h, search);
    small = ground (arith, h);
  }

  passes :
      IsChecked transaction_pool retarget tx
      → is_success (check transaction_pool retarget tx) ≡ true
  unfolding check is_success
  passes p = ground (
    arith, p.some_input, p.some_output, p.refers, p.amount, p.coinbase_size, p.spends, p.distinct,
    p.small, total, search,
  )

-- A transaction passes its checks exactly when it has inputs and outputs, spends no null point unless
-- it is a coinbase, has outputs of no more than all the money, and a coinbase in a block has a script
-- of a fit size, while in the pool it is no coinbase, spends no output twice, and is small enough.
pub check_iff :
    (transaction_pool retarget : Bool) (tx : Transaction)
    → ValuesFit tx.outputs
    → (is_success (check transaction_pool retarget tx) ≡ true)
      ↔ IsChecked transaction_pool retarget tx
check_iff transaction_pool retarget tx fit =
    (checked transaction_pool retarget tx fit, passes transaction_pool retarget tx fit)
