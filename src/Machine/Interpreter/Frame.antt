-- ===== src/Machine/Interpreter/Frame.antt =====
-- What the operations leave alone: everything but the stacks, the jump register and the count.
use bitprim_core.Common.{ℕ, ◌≤◌, ◌≡◌, arith, ◌||◌, false, none, some, List}
use bitprim_core.Common.{Bytes, Bool-cases, Option-cases, inl, inr}
use bitprim_core.Common.Int.{ℤ, pos, negsuc, ltb_ℤ, pos_part}
use bitprim_core.Machine.ErrorCode.{ErrorCode}
use bitprim_core.Machine.Operation.{Operation}
use bitprim_core.Machine.Program.{
  Program, push_move, push_bool, pop, pop_number, pop_int32, pop_binary, pop_ternary, pop_position,
  pop_section, duplicate, swap, erase, push_alternate, pop_alternate, set_jump_register,
  count_public_keys, max_number_size,
}
use bitprim_core.Machine.Interpreter.Stack.{
  Handler, fail, op_depth, op_disabled, op_drop, op_drop2, op_dup, op_dup2, op_dup3, op_equal,
  op_equal_verify, op_from_alt_stack, op_if_dup, op_nip, op_nop, op_over, op_over2, op_pick,
  op_push_data, op_push_number, op_push_size, op_reserved, op_return, op_roll, op_rot, op_rot2,
  op_size, op_swap, op_swap2, op_to_alt_stack, op_tuck, op_verify,
}
use bitprim_core.Machine.Interpreter.Arithmetic.{
  op_abs, op_add, op_add1, op_bool_and, op_bool_or, op_greater_than, op_greater_than_or_equal,
  op_less_than, op_less_than_or_equal, op_max, op_min, op_negate, op_nonzero, op_not, op_num_equal,
  op_num_equal_verify, op_num_not_equal, op_sub, op_sub1, op_within,
}
use bitprim_core.Machine.Interpreter.Control.{op_codeseparator}
use bitprim_core.Machine.Interpreter.Locktime.{op_check_locktime_verify, op_check_sequence_verify}
use bitprim_core.Machine.Interpreter.Crypto
use bitprim_core.Machine.Interpreter.Crypto.{Library}
use bitprim_core.Machine.Interpreter.Run.{dispatch, run_op}
use bitprim_core.Machine.Operation.Classes.{is_conditional}
use bitprim_core.Machine.Opcode.{Opcode}

pub record SameFrame (p q : Program) : Type 0 where
  pub script : q.script ≡ p.script
  pub transaction : q.transaction ≡ p.transaction
  pub input_index : q.input_index ≡ p.input_index
  pub forks : q.forks ≡ p.forks
  pub value : q.value ≡ p.value
  pub version : q.version ≡ p.version
  pub negative_count : q.negative_count ≡ p.negative_count
  pub condition : q.condition ≡ p.condition
  pub operation_count : p.operation_count ≤ q.operation_count

-- A handler that keeps the frame, whatever it returns.
pub record Keeps (h : Handler) : Type 0 where
  pub frame : (p : Program) → SameFrame p (h p).1

abbrev Frame : (Program → Program) → Type 0
Frame f = (p : Program) → SameFrame p (f p)

same : (p : Program) → SameFrame p p
same p = ground arith

pop_number-Frame : (n : ℕ) → Frame (λ p. (pop_number n p).1)
unfolding pop_number
pop_number-Frame n p = ground arith

pop_binary-Frame : Frame (λ p. (pop_binary p).1)
unfolding pop_binary pop_number
pop_binary-Frame p = ground arith

pop_ternary-Frame : Frame (λ p. (pop_ternary p).1)
unfolding pop_ternary pop_number
pop_ternary-Frame p = ground (arith, pop_binary-Frame p)

pop_int32-Frame : Frame (λ p. (pop_int32 p).1)
unfolding pop_int32
pop_int32-Frame p = ground (arith, pop_number-Frame max_number_size p)

count_public_keys-Frame : (n : ℤ) → Frame (λ p. (count_public_keys n p).1)
unfolding count_public_keys
count_public_keys-Frame (pos n) p = ground arith
count_public_keys-Frame (negsuc n) p = ground arith

pop_section-Frame : (n : ℕ) → Frame (λ p. (pop_section n p).1)
unfolding pop_section
pop_section-Frame n p = ground arith

trans : {p q r : Program} → SameFrame p q → SameFrame q r → SameFrame p r
trans a b = ground arith

-- The pop of a section, and what follows it.
abbrev section_then : (List Bytes → Handler) → ErrorCode → ℕ → Handler
section_then next code n q =
    let (items, q') = pop_section n q in elim items [ none ↦ fail code q' | some xs ↦ next xs q' ]

section_then-Frame :
    (next : List Bytes → Handler) (code : ErrorCode) (n : ℕ) (q : Program)
    → ((xs : List Bytes) → Frame (λ p. (next xs p).1))
    → SameFrame q (section_then next code n q).1
section_then-Frame next code n q h = elim (Option-cases (pop_section n q).0) [
  | inl e ↦ rw (e, section_then) (pop_section-Frame n q)
  | inr (xs, e) ↦ rw (e, section_then) (trans (pop_section-Frame n q) (h xs _))
]

module _ (library : Library) where
  op_check_sig_verify-Frame : Frame (λ p. (Crypto.op_check_sig_verify library p).1)
  unfolding Crypto.op_check_sig_verify pop
  op_check_sig_verify-Frame p = ground arith

  push_verified-Frame :
      (code : ErrorCode) (p : Program) (r : ErrorCode × Program)
      → SameFrame p r.1
      → SameFrame p (Crypto.push_verified library code r).1
  unfolding push_bool
  push_verified-Frame code p (verified, q) h = ground arith

  multisig_dummy-Frame :
      (keys endorsements : List Bytes)
      → Frame (λ p. (Crypto.multisig_dummy library keys endorsements p).1)
  unfolding Crypto.multisig_dummy pop
  multisig_dummy-Frame keys endorsements p = ground arith

  multisig_endorsements-Frame :
      (n : ℤ) (keys : List Bytes) → Frame (λ p. (Crypto.multisig_endorsements library n keys p).1)
  unfolding Crypto.multisig_endorsements
  multisig_endorsements-Frame n keys p = elim (Option-cases (pop_int32 p).0) [
    | inl e ↦ rw (e, Crypto.multisig_endorsements) (pop_int32-Frame p)
    | inr (m, e) ↦
        rw (e, Crypto.multisig_endorsements)
          (elim (Bool-cases (ltb_ℤ m (pos 0) || ltb_ℤ n m)) [
            | inl bad ↦ rw bad (pop_int32-Frame p)
            | inr good ↦ rw good (trans (pop_int32-Frame p) (endorsed m (pop_int32 p).1))
          ])
  ]
    where
      endorsed :
          (m : ℤ) (q : Program)
          → SameFrame q
              (section_then
                (Crypto.multisig_dummy library keys)
                ErrorCode.op_check_multisig_verify6
                (pos_part m)
                q).1
      endorsed m q =
          section_then-Frame (Crypto.multisig_dummy library keys)
            ErrorCode.op_check_multisig_verify6 (pos_part m) q (multisig_dummy-Frame keys)

  op_check_multisig_verify-Frame : Frame (λ p. (Crypto.op_check_multisig_verify library p).1)
  unfolding Crypto.op_check_multisig_verify
  op_check_multisig_verify-Frame p = elim (Option-cases (pop_int32 p).0) [
    | inl e ↦ rw (e, Crypto.op_check_multisig_verify) (pop_int32-Frame p)
    | inr (n, e) ↦
        rw (e, Crypto.op_check_multisig_verify)
          (elim (Bool-cases (count_public_keys n (pop_int32 p).1).0) [
            | inr bad ↦ rw bad (trans (pop_int32-Frame p) (count_public_keys-Frame n _))
            | inl good ↦ rw good (
                trans (trans (pop_int32-Frame p) (count_public_keys-Frame n _)) (
                  section_then-Frame (Crypto.multisig_endorsements library n)
                    ErrorCode.op_check_multisig_verify3 (pos_part n) _
                    (multisig_endorsements-Frame n)))
          ])
  ]

  pub dispatch-Keeps :
      (op : Operation) (address : ℕ) (code : Opcode)
      → is_conditional code ≡ false
      → Keeps (dispatch library op address code)
  unfolding dispatch is_conditional push_move push_bool pop pop_int32 pop_position duplicate swap
      erase push_alternate pop_alternate op_depth op_disabled op_drop op_drop2 op_dup op_dup2
      op_dup3 op_equal op_equal_verify op_from_alt_stack op_if_dup op_nip op_nop op_over op_over2
      op_pick op_push_data op_push_number op_push_size op_reserved op_return op_roll op_rot op_rot2
      op_size op_swap op_swap2 op_to_alt_stack op_tuck op_verify op_abs op_add op_add1 op_bool_and
      op_bool_or op_greater_than op_greater_than_or_equal op_less_than op_less_than_or_equal op_max
      op_min op_negate op_nonzero op_not op_num_equal op_num_equal_verify op_num_not_equal op_sub
      op_sub1 op_within op_check_locktime_verify op_check_sequence_verify op_codeseparator
      set_jump_register Crypto.op_ripemd160 Crypto.op_sha1 Crypto.op_sha256 Crypto.op_hash160
      Crypto.op_hash256
  dispatch-Keeps op address Opcode.checksig h =
      unfold Crypto.op_check_sig in
      record { frame = λ p. push_verified-Frame _ p _ (op_check_sig_verify-Frame p) }
  dispatch-Keeps op address Opcode.checksigverify h = record { frame = op_check_sig_verify-Frame }
  dispatch-Keeps op address Opcode.checkmultisig h =
      unfold Crypto.op_check_multisig in
      record { frame = λ p. push_verified-Frame _ p _ (op_check_multisig_verify-Frame p) }
  dispatch-Keeps op address Opcode.checkmultisigverify h = record {
    frame = op_check_multisig_verify-Frame;
  }
  dispatch-Keeps op address code h = record {
    frame = λ p.
        ground (arith, pop_number-Frame max_number_size p, pop_binary-Frame p, pop_ternary-Frame p);
  }

-- An operation with none of the four conditional codes keeps, whatever it returns, the script, the
-- transaction and the rest of the program's constants, the conditional stack and the count of its
-- false values; the count of operations does not fall.
pub run_op-SameFrame :
    (library : Library) (address : ℕ) (op : Operation) (p : Program)
    → is_conditional op.code ≡ false
    → SameFrame p (run_op library address op p).1
unfolding run_op
run_op-SameFrame library address op p h = (dispatch-Keeps library op address op.code h).frame p
