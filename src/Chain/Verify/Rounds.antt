-- ===== src/Chain/Verify/Rounds.antt =====
-- src/machine/interpreter.cpp: the rounds of an evaluation, one operation at a time.
use bitprim_core.Common.{ℕ, suc, ◌≡◌, refl, ap, ◌∙◌, sym, arith, Bool, true, false, ◌&&◌, List, ◌∷◌}
use bitprim_core.Common.{ltb, ◌==◌, if◌then◌else◌}
use bitprim_core.Machine.ErrorCode.{ErrorCode, is_success, is_lax_encoding}
use bitprim_core.Machine.Operation.{Operation, is_oversized}
use bitprim_core.Machine.Operation.Classes.{is_disabled}
use bitprim_core.Machine.Program.{
  Program, stack_result, is_stack_overflow, increment_operation_count, if_,
}
use bitprim_core.Machine.Interpreter.Crypto.{Library}
use bitprim_core.Machine.Interpreter.Run.{run_op, execute, step, run_ops}

-- An evaluation that ends with success and a true item at the top.
unfoldable pub spends : ErrorCode × Program → Bool
spends (code, p) = is_success code && stack_result false p

module _ (library : Library) where
  pub goes_on :
      (address : ℕ) (op : Operation) (ops : List Operation) (p q : Program)
      → step library address op p ≡ (ErrorCode.success, q)
      → run_ops library address (op ∷ ops) p ≡ run_ops library (suc address) ops q
  unfolding run_ops is_success
  goes_on address op ops p q h = rw (run_ops, h) refl

  pub stops :
      (address : ℕ) (op : Operation) (ops : List Operation) (p q : Program) (code : ErrorCode)
      → step library address op p ≡ (code, q)
      → is_success code ≡ false
      → spends (run_ops library address (op ∷ ops) p) ≡ false
  unfolding run_ops spends
  stops address op ops p q code h k = rw (run_ops, h, k, k) refl

pub some_item : (n : ℕ) → (suc n == 0) ≡ false
some_item n = ground arith

pub two_items : (n : ℕ) → ltb (suc (suc n)) 2 ≡ false
two_items n = ground arith

pub if-pair :
    (b : Bool) (x y : ErrorCode) (p : Program)
    → ◌≡◌ {A = ErrorCode × Program} (if b then (x, p) else (y, p)) (if b then x else y, p)
if-pair true x y p = refl
if-pair false x y p = refl

pub success-if :
    (b : Bool) → is_success (if b then ErrorCode.success else ErrorCode.incorrect_signature) ≡ b
unfolding is_success
success-if true = refl
success-if false = refl

pub failed_check : is_success ErrorCode.op_check_sig ≡ false
unfolding is_success
failed_check = refl

pub lax_fails : (code : ErrorCode) → is_lax_encoding code ≡ true → is_success code ≡ false
unfolding is_lax_encoding is_success
lax_fails ErrorCode.success h = sym h
lax_fails code h = refl

-- An operation that a round comes to, with the program that has it counted.
pub record IsReady (op : Operation) (p p' : Program) : Type 0 where
  pub fits : is_oversized op ≡ false
  pub enabled : is_disabled op.code ≡ false
  pub counted : increment_operation_count op p ≡ (true, p')
  pub taken : if_ op p' ≡ true

module _ (library : Library) (address : ℕ) (op : Operation) (p p' : Program)
    (r : IsReady op p p') where
  pub ready_step : step library address op p ≡ execute library address op p'
  unfolding step
  ready_step = rw (step, r.fits, r.enabled, r.counted, r.taken) refl

  pub round_fails :
      (code : ErrorCode) (q : Program)
      → run_op library address op p' ≡ (code, q)
      → is_success code ≡ false
      → step library address op p ≡ (code, q)
  unfolding execute
  round_fails code q h k = ready_step ∙ rw (execute, h, k) refl

  pub round_overflows :
      (q : Program)
      → run_op library address op p' ≡ (ErrorCode.success, q)
      → is_stack_overflow q ≡ true
      → step library address op p ≡ (ErrorCode.invalid_stack_size, q)
  unfolding execute is_success
  round_overflows q h k = ready_step ∙ rw (execute, h, k) refl

  pub round_passes :
      (q : Program)
      → run_op library address op p' ≡ (ErrorCode.success, q)
      → is_stack_overflow q ≡ false
      → step library address op p ≡ (ErrorCode.success, q)
  unfolding execute is_success
  round_passes q h k = ready_step ∙ rw (execute, h, k) refl

  -- The evaluation goes on behind a round that passes.
  pub spends-passed :
      (ops : List Operation) (q : Program)
      → run_op library address op p' ≡ (ErrorCode.success, q)
      → is_stack_overflow q ≡ false
      → spends (run_ops library address (op ∷ ops) p) ≡ spends (run_ops library (suc address) ops q)
  spends-passed ops q h k = ap spends (goes_on library address op ops p q (round_passes q h k))

  pub spends-failed :
      (ops : List Operation) (code : ErrorCode) (q : Program)
      → run_op library address op p' ≡ (code, q)
      → is_success code ≡ false
      → spends (run_ops library address (op ∷ ops) p) ≡ false
  spends-failed ops code q h k = stops library address op ops p q code (round_fails code q h k) k

  pub spends-overflowed :
      (ops : List Operation) (q : Program)
      → run_op library address op p' ≡ (ErrorCode.success, q)
      → is_stack_overflow q ≡ true
      → spends (run_ops library address (op ∷ ops) p) ≡ false
  unfolding is_success
  spends-overflowed ops q h k =
      stops library address op ops p q ErrorCode.invalid_stack_size (round_overflows q h k) refl
