-- ===== src/Machine/Interpreter/Round.antt =====
-- What a round of the evaluation loop that goes on guarantees.
use bitprim_core.Common.{ℕ, ◌+◌, ◌≤◌, ◌≡◌, refl, arith, true, false}
use bitprim_core.Common.{some, ltb, if◌then◌else◌, length}
use bitprim_core.Common.{Bool-cases, inl, inr}
use bitprim_core.Machine.Opcode.{Opcode}
use bitprim_core.Machine.ErrorCode.{is_success}
use bitprim_core.Machine.Operation.{Operation, is_oversized}
use bitprim_core.Machine.Operation.Classes.{is_disabled, is_conditional, is_counted}
use bitprim_core.Machine.Program.{
  Program, size, is_stack_overflow, increment_operation_count, if_, max_counted_ops, max_stack_size,
}
use bitprim_core.Machine.Program.Conditions.{IsBalanced}
use bitprim_core.Machine.Interpreter.Crypto.{Library}
use bitprim_core.Machine.Interpreter.Run.{run_op, execute, step}
use bitprim_core.Machine.Interpreter.Nesting.{nest_code, count_of, Nests, run_op-Nests}

-- Both stacks together are within the limit.
abbrev pub StacksFit : Program → Type 0
StacksFit p = size p + length p.alternate ≤ max_stack_size

-- What a round that goes on guarantees of its operation and of the program.
pub record Went (op : Operation) (p q : Program) : Type 0 where
  pub fits : is_oversized op ≡ false
  pub enabled : is_disabled op.code ≡ false
  pub nested : nest_code op.code (length p.condition) ≡ some (length q.condition)
  pub limited : p.operation_count + count_of op.code ≤ max_counted_ops
  pub counted : p.operation_count + count_of op.code ≤ q.operation_count
  pub balanced : IsBalanced p → IsBalanced q
  pub stacks : StacksFit p → StacksFit q

nest_code-skipped :
    (code : Opcode) (n : ℕ) → is_conditional code ≡ false → nest_code code n ≡ some n
unfolding nest_code is_conditional
nest_code-skipped Opcode.if_ n h = cc
nest_code-skipped Opcode.notif n h = cc
nest_code-skipped Opcode.else_ n h = cc
nest_code-skipped Opcode.endif n h = cc
nest_code-skipped code n h = refl

module _ (library : Library) (address : ℕ) where
  execute-Nests :
      (op : Operation) (p : Program)
      → is_success (execute library address op p).0 ≡ true
      → Nests op.code p (execute library address op p).1
        × StacksFit (execute library address op p).1
  unfolding execute is_stack_overflow is_success
  execute-Nests op p h = elim (Bool-cases (is_success (run_op library address op p).0)) [
    | inr failed ↦ absurd (stop (rw (execute, failed, failed) at h))
    | inl ok ↦ elim (Bool-cases (is_stack_overflow (run_op library address op p).1)) [
      | inl over ↦ absurd (stop (rw (execute, ok, over) at h))
      | inr fit ↦
          rw (execute, ok, fit)
            (run_op-Nests library address op p ok, unfold is_stack_overflow in ground arith)
    ]
  ]
    where
      stop : false ≡ true → ⊥
      stop e = cc

  -- The program with the operation counted.
  counted_program : Operation → Program → Program
  counted_program op p = record p {
    operation_count = if is_counted op.code then p.operation_count + 1 else p.operation_count;
  }

  count-counted :
      (op : Operation) (p : Program)
      → (counted_program op p).operation_count ≡ p.operation_count + count_of op.code
  unfolding counted_program
  count-counted op p = ground arith

  executed-Went :
      (op : Operation) (p q : Program)
      → is_oversized op ≡ false
      → is_disabled op.code ≡ false
      → (counted_program op p).operation_count ≤ max_counted_ops
      → Nests op.code (counted_program op p) q
      → (StacksFit p → StacksFit q)
      → Went op p q
  unfolding counted_program
  executed-Went op p q fits enabled limit n stacks = record {
    fits = fits;
    enabled = enabled;
    nested = n.nested;
    limited = omega (arith, limit, count-counted op p);
    counted = omega (arith, n.not_less, count-counted op p);
    balanced = λ v. n.balanced (record { count = v.count });
    stacks = stacks;
  }

  skipped-Nests :
      (op : Operation) (p : Program) → is_conditional op.code ≡ false → Nests op.code p p
  skipped-Nests op p h = record {
    nested = nest_code-skipped op.code (length p.condition) h;
    not_less = omega arith;
    balanced = λ v. v;
  }

  pub step-Went :
      (op : Operation) (p : Program)
      → is_success (step library address op p).0 ≡ true
      → Went op p (step library address op p).1
  unfolding step is_success increment_operation_count if_ counted_program
  step-Went op p h = elim (Bool-cases (is_oversized op)) [
    | inl big ↦ ground arith
    | inr fits ↦ elim (Bool-cases (is_disabled op.code)) [
      | inl disabled ↦ ground arith
      | inr enabled ↦
          elim (Bool-cases (ltb max_counted_ops (counted_program op p).operation_count)) [
            | inl over ↦ ground arith
            | inr within ↦ elim (Bool-cases (if_ op (counted_program op p))) [
              | inl run ↦
                  rw (step, fits, enabled, within, run)
                    (executed fits enabled within (rw (step, fits, enabled, within, run) at h))
              | inr skip ↦
                  rw (step, fits, enabled, within, skip)
                    (executed-Went op p (counted_program op p) fits enabled (ground arith)
                      (skipped-Nests op (counted_program op p) (ground arith)) (λ f. f))
            ]
          ]
    ]
  ]
    where
      executed :
          is_oversized op ≡ false
          → is_disabled op.code ≡ false
          → ltb max_counted_ops (counted_program op p).operation_count ≡ false
          → is_success (execute library address op (counted_program op p)).0 ≡ true
          → Went op p (execute library address op (counted_program op p)).1
      executed fits enabled within ok =
          let (n, fit) = execute-Nests op (counted_program op p) ok in
          executed-Went op p _ fits enabled (ground arith) n (λ _. fit)
