-- ===== src/Chain/Verify/KeyHashOps.antt =====
-- The five operations of an output that pays to a key hash, each on its own.
use bitprim_core.Common.{ℕ, ◌≤◌, ◌≡◌, inl, inr, refl, arith, true, false, List, [], ◌∷◌}
use bitprim_core.Common.{le→ltb, lt→ltb, if◌then◌else◌, length, Bytes, bytes_eq, Bool-cases}
use bitprim_core.Chain.Types.{Transaction}
use bitprim_core.Chain.Patterns.Make.{op_of_code}
use bitprim_core.Machine.ErrorCode.{ErrorCode, is_success, is_lax_encoding}
use bitprim_core.Machine.Opcode.{Opcode, opcode_byte}
use bitprim_core.Machine.Operation.{Operation, is_oversized}
use bitprim_core.Machine.Operation.Classes.{is_disabled, is_counted, is_conditional}
use bitprim_core.Machine.Program.{
  Program, ScriptVersion, program, push_move, duplicate, pop, push_bool, is_stack_overflow,
  increment_operation_count, if_,
}
use bitprim_core.Machine.Interpreter.Stack.{op_dup, op_push_size, op_equal_verify}
use bitprim_core.Machine.Interpreter.Crypto.{Library, op_hash160, op_check_sig_verify, op_check_sig}
use bitprim_core.Machine.Interpreter.Run.{dispatch, run_op}
use bitprim_core.Chain.Verify.Rounds.{some_item, two_items, IsReady}

-- What the program of an output script is about.
pub record Setting : Type 0 where
  pub script : Bytes
  pub transaction : Transaction
  pub input_index : ℕ
  pub forks : ℕ
  pub value : ℕ
  pub version : ScriptVersion

module _ (setting : Setting) where
  open setting use {script, transaction, input_index, forks, value, version}

  -- The program of the output script, with a number of operations counted.
  abbrev pub counted_at : ℕ → List Bytes → Program
  counted_at count stack =
      record (program script transaction input_index forks stack value version) {
        operation_count = count;
      }

  pub overflows :
      (n : ℕ) (stack : List Bytes)
      → 1001 ≤ length stack
      → is_stack_overflow (counted_at n stack) ≡ true
  unfolding is_stack_overflow program
  overflows n stack h = lt→ltb 1000 _ (omega arith)

  pub holds :
      (n : ℕ) (stack : List Bytes)
      → length stack ≤ 1000
      → is_stack_overflow (counted_at n stack) ≡ false
  unfolding is_stack_overflow program
  holds n stack h = le→ltb 1000 _ (omega arith)

module _ (library : Library) (setting : Setting) where
  abbrev at : ℕ → List Bytes → Program
  at = counted_at setting

  pub dup-IsReady : (stack : List Bytes) → IsReady (op_of_code Opcode.dup) (at 0 stack) (at 1 stack)
  unfolding is_oversized is_disabled increment_operation_count is_counted opcode_byte if_
      is_conditional program
  dup-IsReady stack = record { fits = refl; enabled = refl; counted = refl; taken = refl }

  pub dup_run :
      (key : Bytes) (stack : List Bytes)
      → run_op library 0 (op_of_code Opcode.dup) (at 1 (key ∷ stack))
        ≡ (ErrorCode.success, at 1 (key ∷ key ∷ stack))
  unfolding run_op dispatch op_dup duplicate program
  dup_run key stack = rw (some_item (length stack)) refl

  pub hash160-IsReady :
      (stack : List Bytes) → IsReady (op_of_code Opcode.hash160) (at 1 stack) (at 2 stack)
  unfolding is_oversized is_disabled increment_operation_count is_counted opcode_byte if_
      is_conditional program
  hash160-IsReady stack = record { fits = refl; enabled = refl; counted = refl; taken = refl }

  abbrev pub hash160 : Bytes → Bytes
  hash160 bytes = library.ripemd160_hash (library.sha256_hash bytes)

  pub hash160_run :
      (key : Bytes) (stack : List Bytes)
      → run_op library 1 (op_of_code Opcode.hash160) (at 2 (key ∷ stack))
        ≡ (ErrorCode.success, at 2 (hash160 key ∷ stack))
  unfolding run_op dispatch op_hash160 pop push_move program
  hash160_run key stack = rw (some_item (length stack)) refl

  abbrev pub push_of : Bytes → Operation
  push_of hash = record { code = Opcode.push_size 20; bytes = hash; valid = true }

  pub push-IsReady :
      (hash : Bytes) (stack : List Bytes)
      → length hash ≡ 20
      → IsReady (push_of hash) (at 2 stack) (at 2 stack)
  unfolding is_oversized is_disabled increment_operation_count is_counted opcode_byte if_
      is_conditional program
  push-IsReady hash stack h = record {
    fits = rw h refl;
    enabled = refl;
    counted = refl;
    taken = refl;
  }

  pub push_run :
      (hash : Bytes) (stack : List Bytes)
      → length hash ≡ 20
      → run_op library 2 (push_of hash) (at 2 stack) ≡ (ErrorCode.success, at 2 (hash ∷ stack))
  unfolding run_op dispatch op_push_size push_move program
  push_run hash stack h = rw h refl

  pub equal-IsReady :
      (stack : List Bytes) → IsReady (op_of_code Opcode.equalverify) (at 2 stack) (at 3 stack)
  unfolding is_oversized is_disabled increment_operation_count is_counted opcode_byte if_
      is_conditional program
  equal-IsReady stack = record { fits = refl; enabled = refl; counted = refl; taken = refl }

  pub equal_run :
      (a b : Bytes) (stack : List Bytes)
      → run_op library 3 (op_of_code Opcode.equalverify) (at 3 (a ∷ b ∷ stack))
        ≡ (if bytes_eq a b then ErrorCode.success else ErrorCode.op_equal_verify2, at 3 stack)
  unfolding run_op dispatch op_equal_verify pop program
  equal_run a b stack = elim (Bool-cases (bytes_eq a b)) [
    | inl same ↦ rw (op_equal_verify, two_items (length stack), same) refl
    | inr other ↦ rw (op_equal_verify, two_items (length stack), other) refl
  ]

  pub sig-IsReady :
      (stack : List Bytes) → IsReady (op_of_code Opcode.checksig) (at 3 stack) (at 4 stack)
  unfolding is_oversized is_disabled increment_operation_count is_counted opcode_byte if_
      is_conditional program
  sig-IsReady stack = record { fits = refl; enabled = refl; counted = refl; taken = refl }

  pub dup_empty : run_op library 0 (op_of_code Opcode.dup) (at 1 []) ≡ (ErrorCode.op_dup, at 1 [])
  unfolding run_op dispatch op_dup program
  dup_empty = refl

  -- With no endorsement under the key, the verification fails, which is pushed.
  pub sig_single :
      (key : Bytes)
      → run_op library 4 (op_of_code Opcode.checksig) (at 4 (key ∷ []))
        ≡ (ErrorCode.success, at 4 ([] ∷ key ∷ []))
  unfolding run_op dispatch op_check_sig op_check_sig_verify is_lax_encoding is_success push_bool
      push_move program
  sig_single key = refl
