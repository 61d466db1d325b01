-- ===== src/Machine/Interpreter/Arithmetic.antt =====
-- Operations on script numbers.
use bitprim_core.Common.{not, ◌&&◌, ◌||◌, none, some, if◌then◌else◌}
use bitprim_core.Common.Int.{pos, ◌+ℤ◌, ◌-ℤ◌, ltb_ℤ, leb_ℤ, eqb_ℤ}
use bitprim_core.Machine.ErrorCode.{ErrorCode}
use bitprim_core.Machine.Number.{Number, minus, is_true, is_false, number_data}
use bitprim_core.Machine.Program.{
  push_move, push_bool, pop_number, pop_binary, pop_ternary, max_number_size,
}
use bitprim_core.Machine.Interpreter.Stack.{Handler, succeed, fail}

-- Pop one number, or fail with the code.
abbrev pub unary : ErrorCode → (Number → Handler) → Handler
unary code next p =
    let (number, p') = pop_number max_number_size p in
    elim number [ none ↦ fail code p' | some n ↦ next n p' ]

-- Pop two numbers, the right hand side first.
abbrev pub binary : ErrorCode → (Number → Number → Handler) → Handler
binary code next p =
    let (pair, p') = pop_binary p in
    elim pair [ none ↦ fail code p' | some (first, second) ↦ next first second p' ]

unfoldable pub op_add1 : Handler
op_add1 =
    unary ErrorCode.op_add1 (λ number p. succeed (push_move (number_data (number +ℤ pos 1)) p))

unfoldable pub op_sub1 : Handler
op_sub1 =
    unary ErrorCode.op_sub1 (λ number p. succeed (push_move (number_data (number -ℤ pos 1)) p))

unfoldable pub op_negate : Handler
op_negate =
    unary ErrorCode.op_negate (λ number p. succeed (push_move (number_data (minus number)) p))

unfoldable pub op_abs : Handler
op_abs = unary ErrorCode.op_abs (λ number p.
    succeed (push_move (number_data (if ltb_ℤ number (pos 0) then minus number else number)) p))

unfoldable pub op_not : Handler
op_not = unary ErrorCode.op_not (λ number p. succeed (push_bool (is_false number) p))

unfoldable pub op_nonzero : Handler
op_nonzero = unary ErrorCode.op_nonzero (λ number p. succeed (push_bool (is_true number) p))

unfoldable pub op_add : Handler
op_add =
    binary ErrorCode.op_add
      (λ first second p. succeed (push_move (number_data (first +ℤ second)) p))

unfoldable pub op_sub : Handler
op_sub =
    binary ErrorCode.op_sub
      (λ first second p. succeed (push_move (number_data (second -ℤ first)) p))

unfoldable pub op_min : Handler
op_min = binary ErrorCode.op_min (λ first second p.
    succeed (push_move (number_data (if ltb_ℤ second first then second else first)) p))

unfoldable pub op_max : Handler
op_max = binary ErrorCode.op_max (λ first second p.
    succeed (push_move (number_data (if ltb_ℤ first second then second else first)) p))

unfoldable pub op_bool_and : Handler
op_bool_and =
    binary ErrorCode.op_bool_and
      (λ first second p. succeed (push_bool (is_true first && is_true second) p))

unfoldable pub op_bool_or : Handler
op_bool_or =
    binary ErrorCode.op_bool_or
      (λ first second p. succeed (push_bool (is_true first || is_true second) p))

unfoldable pub op_num_equal : Handler
op_num_equal =
    binary ErrorCode.op_num_equal (λ first second p. succeed (push_bool (eqb_ℤ first second) p))

unfoldable pub op_num_not_equal : Handler
op_num_not_equal =
    binary ErrorCode.op_num_not_equal
      (λ first second p. succeed (push_bool (not (eqb_ℤ first second)) p))

unfoldable pub op_less_than : Handler
op_less_than =
    binary ErrorCode.op_less_than (λ first second p. succeed (push_bool (ltb_ℤ second first) p))

unfoldable pub op_greater_than : Handler
op_greater_than =
    binary ErrorCode.op_greater_than (λ first second p. succeed (push_bool (ltb_ℤ first second) p))

unfoldable pub op_less_than_or_equal : Handler
op_less_than_or_equal =
    binary ErrorCode.op_less_than_or_equal
      (λ first second p. succeed (push_bool (leb_ℤ second first) p))

unfoldable pub op_greater_than_or_equal : Handler
op_greater_than_or_equal =
    binary ErrorCode.op_greater_than_or_equal
      (λ first second p. succeed (push_bool (leb_ℤ first second) p))

unfoldable pub op_num_equal_verify : Handler
op_num_equal_verify = binary ErrorCode.op_num_equal_verify1 (λ first second p.
    if eqb_ℤ first second then succeed p else fail ErrorCode.op_num_equal_verify2 p)

unfoldable pub op_within : Handler
op_within p =
    let (triple, p') = pop_ternary p in
    elim triple [
      | none ↦ fail ErrorCode.op_within p'
      | some (first, second, third) ↦
          succeed (push_bool (leb_ℤ second third && ltb_ℤ third first) p')
    ]
