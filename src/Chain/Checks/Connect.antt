-- ===== src/Chain/Checks/Connect.antt =====
-- Which code the scripts of a transaction give, and those of a block: src/chain/transaction.cpp and
-- src/chain/block.cpp.
use bitprim_core.Common.{ℕ, zero, suc, ◌+◌, ◌≤◌, ◌<◌, ◌≡◌, refl, ◌∙◌, ap, arith}
use bitprim_core.Common.{true, false, length, if◌then◌else◌, inl, inr, ◌⊎◌}
use bitprim_core.Machine.ErrorCode.{ErrorCode, is_success}
use bitprim_core.Machine.Interpreter.Crypto.{Library}
use bitprim_core.Chain.Types.{Input, Transaction}
use bitprim_core.Chain.Prevout.{Validation}
use bitprim_core.Chain.Checks.{ChainState}
use bitprim_core.Chain.Checks.Accept.{connect_input, connect_from, connect}

same_or_later : (i k : ℕ) → i ≤ k → (i ≡ k) ⊎ (i < k)
same_or_later i k le = ground (arith, le)

module _ (prevout : Input → Validation) (library : Library) (state : ChainState)
    (tx : Transaction) where
  abbrev code_of : ℕ → ErrorCode
  code_of i = connect_input prevout library state tx i

  passed_on :
      (i left : ℕ)
      → is_success (code_of i) ≡ true
      → connect_from prevout library state tx i (suc left)
        ≡ connect_from prevout library state tx (suc i) left
  unfolding connect_from
  passed_on i left h =
      ap (λ b. if b then connect_from prevout library state tx (suc i) left else code_of i) h

  stopped :
      (i left : ℕ)
      → is_success (code_of i) ≡ false
      → connect_from prevout library state tx i (suc left) ≡ code_of i
  unfolding connect_from
  stopped i left h =
      ap (λ b. if b then connect_from prevout library state tx (suc i) left else code_of i) h

  all_connect :
      (i left : ℕ)
      → ((k : ℕ) → i ≤ k → k < i + left → is_success (code_of k) ≡ true)
      → connect_from prevout library state tx i left ≡ ErrorCode.success
  unfolding connect_from
  all_connect i zero h = refl
  all_connect i (suc left) h =
      passed_on i left (h i (omega arith) (omega arith))
      ∙ all_connect (suc i) left (λ k le lt. h k (omega (arith, le)) (omega (arith, lt)))

  first_stops :
      (i left k : ℕ)
      → i ≤ k
      → k < i + left
      → ((j : ℕ) → i ≤ j → j < k → is_success (code_of j) ≡ true)
      → is_success (code_of k) ≡ false
      → connect_from prevout library state tx i left ≡ code_of k
  first_stops i zero k le lt before fails = absurd (omega (arith, le, lt))
  first_stops i (suc left) k le lt before fails = elim (same_or_later i k le) [
    | inl e ↦ stopped i left (ap (λ n. is_success (code_of n)) e ∙ fails) ∙ ap code_of e
    | inr later ↦
        passed_on i left (before i (omega arith) later)
        ∙ first_stops (suc i) left k (omega (arith, later)) (omega (arith, lt))
            (λ j le' lt'. before j (omega (arith, le')) lt') fails
  ]

  -- A transaction connects if all its inputs do.
  pub connect_success :
      ((k : ℕ)
        → k < length tx.inputs
        → is_success (connect_input prevout library state tx k) ≡ true)
      → connect prevout library state tx ≡ ErrorCode.success
  unfolding connect
  connect_success h = all_connect 0 (length tx.inputs) (λ k le lt. h k (omega (arith, lt)))

  -- A transaction gives the code of the first of its inputs that does not connect.
  pub connect_fails :
      (k : ℕ)
      → k < length tx.inputs
      → ((j : ℕ) → j < k → is_success (connect_input prevout library state tx j) ≡ true)
      → is_success (connect_input prevout library state tx k) ≡ false
      → connect prevout library state tx ≡ connect_input prevout library state tx k
  unfolding connect
  connect_fails k lt before fails =
      first_stops 0 (length tx.inputs) k (omega arith) (omega (arith, lt))
        (λ j le lt'. before j lt') fails
