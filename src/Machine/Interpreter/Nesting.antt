-- ===== src/Machine/Interpreter/Nesting.antt =====
-- The conditional codes open and close conditionals, and nothing else does.
use bitprim_core.Common.{ℕ, ◌+◌, ◌-◌, ◌≤◌, ◌≡◌, refl, arith, Bool, true, false, not}
use bitprim_core.Common.{Option, none, some, List, [], ◌∷◌, sym, ap, ◌==◌, if◌then◌else◌, length}
use bitprim_core.Common.{Bool-cases, inl, inr}
use bitprim_core.Machine.Opcode.{Opcode}
use bitprim_core.Machine.ErrorCode.{is_success}
use bitprim_core.Machine.Operation.{Operation}
use bitprim_core.Machine.Operation.Classes.{is_conditional, is_counted}
use bitprim_core.Machine.Program.{
  Program, pop, open_condition, negate, close, succeeded, stack_true,
}
use bitprim_core.Machine.Program.Conditions.{
  IsBalanced, open_condition-IsBalanced, negate-IsBalanced, close-IsBalanced,
}
use bitprim_core.Machine.Interpreter.Control.{op_if, op_notif, op_else, op_endif}
use bitprim_core.Machine.Interpreter.Crypto.{Library}
use bitprim_core.Machine.Interpreter.Run.{dispatch, run_op}
use bitprim_core.Machine.Interpreter.Frame.{SameFrame, Keeps, dispatch-Keeps}

-- How a code changes the number of open conditionals, whatever the values on the stacks.
unfoldable pub nest_code : Opcode → ℕ → Option ℕ
nest_code Opcode.if_ depth = some (depth + 1)
nest_code Opcode.notif depth = some (depth + 1)
nest_code Opcode.else_ depth = if depth == 0 then none else some depth
nest_code Opcode.endif depth = if depth == 0 then none else some (depth - 1)
nest_code code depth = some depth

-- The open conditionals behind a list of operations.
unfoldable pub nest : List Operation → ℕ → Option ℕ
nest [] depth = some depth
nest (op ∷ ops) depth = elim (nest_code op.code depth) [ none ↦ none | some d ↦ nest ops d ]

abbrev pub count_of : Opcode → ℕ
count_of code = if is_counted code then 1 else 0

-- The effect of an operation that succeeds on the conditional stack and the count.
pub record Nests (code : Opcode) (p q : Program) : Type 0 where
  pub nested : nest_code code (length p.condition) ≡ some (length q.condition)
  pub not_less : p.operation_count ≤ q.operation_count
  pub balanced : IsBalanced p → IsBalanced q

-- A program with the conditions of another is balanced with it.
same-IsBalanced : {p q : Program} → SameFrame p q → IsBalanced p → IsBalanced q
same-IsBalanced f v = record { count = rw (f.negative_count, f.condition) (v.count) }

opens :
    (code : Opcode) (b : Bool) {p q : Program}
    → ((d : ℕ) → nest_code code d ≡ some (d + 1))
    → SameFrame p q
    → Nests code p (open_condition b q)
unfolding open_condition
opens code b {p} {q} h f = record {
  nested = ground (arith, h (length p.condition), f.condition);
  not_less = f.operation_count;
  balanced = λ v. open_condition-IsBalanced b q (same-IsBalanced f v);
}

popped : (p : Program) → SameFrame p (pop p).1
unfolding pop
popped p = ground arith

itself : (p : Program) → SameFrame p p
itself p = ground arith

module _ (p : Program) where
  op_if-Nests : is_success (op_if p).0 ≡ true → Nests Opcode.if_ p (op_if p).1
  unfolding op_if nest_code is_success
  op_if-Nests h = elim (Bool-cases (succeeded p)) [
    | inr off ↦ rw (op_if, off) (opens Opcode.if_ false (λ d. refl) (itself p))
    | inl on ↦ elim (Bool-cases (length p.primary == 0)) [
      | inl none_left ↦ ground arith
      | inr some_left ↦
          rw (op_if, on, some_left) (opens Opcode.if_ (stack_true false p) (λ d. refl) (popped p))
    ]
  ]

  op_notif-Nests : is_success (op_notif p).0 ≡ true → Nests Opcode.notif p (op_notif p).1
  unfolding op_notif nest_code is_success
  op_notif-Nests h = elim (Bool-cases (succeeded p)) [
    | inr off ↦ rw (op_notif, off) (opens Opcode.notif false (λ d. refl) (itself p))
    | inl on ↦ elim (Bool-cases (length p.primary == 0)) [
      | inl none_left ↦ ground arith
      | inr some_left ↦
          rw (op_notif, on, some_left)
            (opens Opcode.notif (not (stack_true false p)) (λ d. refl) (popped p))
    ]
  ]

  op_else-Nests : is_success (op_else p).0 ≡ true → Nests Opcode.else_ p (op_else p).1
  unfolding op_else nest_code is_success
  op_else-Nests h = elim (Bool-cases (length p.condition == 0)) [
    | inl none_left ↦ ground arith
    | inr some_left ↦
        rw (op_else, some_left)
          (record {
            nested = unfold negate in ground arith;
            not_less = unfold negate in omega arith;
            balanced = λ v. negate-IsBalanced p v some_left;
          })
  ]

  op_endif-Nests : is_success (op_endif p).0 ≡ true → Nests Opcode.endif p (op_endif p).1
  unfolding op_endif nest_code is_success
  op_endif-Nests h = elim (Bool-cases (length p.condition == 0)) [
    | inl none_left ↦ ground arith
    | inr some_left ↦
        rw (op_endif, some_left)
          (record {
            nested = unfold close in ground arith;
            not_less = unfold close in omega arith;
            balanced = λ v. close-IsBalanced p v some_left;
          })
  ]

module _ (library : Library) (address : ℕ) where
  dispatch-Nests :
      (op : Operation) (code : Opcode) (p : Program)
      → op.code ≡ code
      → is_success (dispatch library op address code p).0 ≡ true
      → Nests code p (dispatch library op address code p).1
  unfolding dispatch nest_code is_conditional run_op
  dispatch-Nests op Opcode.if_ p e h = op_if-Nests p h
  dispatch-Nests op Opcode.notif p e h = op_notif-Nests p h
  dispatch-Nests op Opcode.else_ p e h = op_else-Nests p h
  dispatch-Nests op Opcode.endif p e h = op_endif-Nests p h
  dispatch-Nests op code p e h = kept (dispatch-Keeps library op address code refl)
    where
      kept :
          Keeps (dispatch library op address code)
          → Nests code p (dispatch library op address code p).1
      kept k =
          let f = k.frame p in
          record {
            nested = ap (λ (l : List Bool). some (length l)) (sym f.condition);
            not_less = f.operation_count;
            balanced = same-IsBalanced f;
          }

  pub run_op-Nests :
      (op : Operation) (p : Program)
      → is_success (run_op library address op p).0 ≡ true
      → Nests op.code p (run_op library address op p).1
  unfolding run_op
  run_op-Nests op p h = dispatch-Nests op op.code p refl h
