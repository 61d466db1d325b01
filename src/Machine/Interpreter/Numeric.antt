-- ===== src/Machine/Interpreter/Numeric.antt =====
-- The operations on two script numbers, against the operations on integers that they stand for.
use bitprim_core.Common.{ℕ, ◌+◌, ◌^◌, ◌≤◌, ◌<◌, ◌≡◌, refl, arith, Bool, not}
use bitprim_core.Common.{◌&&◌, ◌||◌, none, some, List, [], ◌∷◌, if◌then◌else◌, Bytes}
use bitprim_core.Common.{Option-cases, inl, inr, All, IsByte}
use bitprim_core.Common.Int.{ℤ, ◌+ℤ◌, ◌-ℤ◌, ltb_ℤ, leb_ℤ, eqb_ℤ, nat_abs}
use bitprim_core.Machine.Opcode.{Opcode}
use bitprim_core.Machine.ErrorCode.{ErrorCode}
use bitprim_core.Machine.Number.{set_data, number_data, is_true}
use bitprim_core.Machine.Number.RoundTrip.{set_data-number_data, length-number_data}
use bitprim_core.Machine.Number.Bounds.{set_data-lt}
use bitprim_core.Machine.Operation.{Operation}
use bitprim_core.Machine.Program.{Program, push_move, push_bool, pop, pop_number, pop_binary}
use bitprim_core.Machine.Interpreter.Stack.{Handler}
use bitprim_core.Machine.Interpreter.Arithmetic.{
  binary, op_add, op_sub, op_bool_and, op_bool_or, op_num_equal, op_num_not_equal, op_less_than,
  op_greater_than, op_less_than_or_equal, op_greater_than_or_equal, op_min, op_max,
}
use bitprim_core.Machine.Interpreter.Crypto.{Library}
use bitprim_core.Machine.Interpreter.Run.{dispatch}

-- The operations that replace two numbers by one item.
pub data Binary : Type 0 where
  add_numbers sub_numbers booland_numbers boolor_numbers numequal_numbers numnotequal_numbers
        lessthan_numbers greaterthan_numbers lessthanorequal_numbers greaterthanorequal_numbers
        min_numbers max_numbers :
      Binary

abbrev pub binary_code : Binary → Opcode
binary_code add_numbers = Opcode.add
binary_code sub_numbers = Opcode.sub
binary_code booland_numbers = Opcode.booland
binary_code boolor_numbers = Opcode.boolor
binary_code numequal_numbers = Opcode.numequal
binary_code numnotequal_numbers = Opcode.numnotequal
binary_code lessthan_numbers = Opcode.lessthan
binary_code greaterthan_numbers = Opcode.greaterthan
binary_code lessthanorequal_numbers = Opcode.lessthanorequal
binary_code greaterthanorequal_numbers = Opcode.greaterthanorequal
binary_code min_numbers = Opcode.min
binary_code max_numbers = Opcode.max

abbrev pub flag : Bool → Bytes
flag b = if b then 1 ∷ [] else []

-- The item that an operation makes of the left and the right number.
abbrev pub result : Binary → ℤ → ℤ → Bytes
result add_numbers left right = number_data (right +ℤ left)
result sub_numbers left right = number_data (left -ℤ right)
result booland_numbers left right = flag (is_true right && is_true left)
result boolor_numbers left right = flag (is_true right || is_true left)
result numequal_numbers left right = flag (eqb_ℤ right left)
result numnotequal_numbers left right = flag (not (eqb_ℤ right left))
result lessthan_numbers left right = flag (ltb_ℤ left right)
result greaterthan_numbers left right = flag (ltb_ℤ right left)
result lessthanorequal_numbers left right = flag (leb_ℤ left right)
result greaterthanorequal_numbers left right = flag (leb_ℤ right left)
result min_numbers left right = number_data (if ltb_ℤ left right then left else right)
result max_numbers left right = number_data (if ltb_ℤ right left then left else right)

-- The code of an item that is missing or no number.
abbrev pub binary_error : Binary → ErrorCode
binary_error add_numbers = ErrorCode.op_add
binary_error sub_numbers = ErrorCode.op_sub
binary_error booland_numbers = ErrorCode.op_bool_and
binary_error boolor_numbers = ErrorCode.op_bool_or
binary_error numequal_numbers = ErrorCode.op_num_equal
binary_error numnotequal_numbers = ErrorCode.op_num_not_equal
binary_error lessthan_numbers = ErrorCode.op_less_than
binary_error greaterthan_numbers = ErrorCode.op_greater_than
binary_error lessthanorequal_numbers = ErrorCode.op_less_than_or_equal
binary_error greaterthanorequal_numbers = ErrorCode.op_greater_than_or_equal
binary_error min_numbers = ErrorCode.op_min
binary_error max_numbers = ErrorCode.op_max

-- What becomes of a stack, the right operand at its top. Items are lost up to the first that is no
-- number.
abbrev pub binary_outcome : ErrorCode → (ℤ → ℤ → Bytes) → Program → List Bytes → ErrorCode × Program
binary_outcome code f p [] = (code, record p { primary = [] })
binary_outcome code f p (right ∷ []) = (code, record p { primary = [] })
binary_outcome code f p (right ∷ left ∷ s) = elim (set_data right 4) [
  | none ↦ (code, record p { primary = left ∷ s })
  | some b ↦ elim (set_data left 4) [
    | none ↦ (code, record p { primary = s })
    | some a ↦ (ErrorCode.success, record p { primary = f a b ∷ s })
  ]
]

-- A handler that pushes `result` of two numbers.
abbrev pushes : ErrorCode → (ℤ → ℤ → Bytes) → Handler
pushes code f = binary code (λ right left p. (ErrorCode.success, push_move (f left right) p))

pushes_lem :
    (code : ErrorCode) (f : ℤ → ℤ → Bytes) (p : Program) (s : List Bytes)
    → pushes code f (record p { primary = s }) ≡ binary_outcome code f p s
unfolding pop_binary pop_number pop push_move
pushes_lem code f p [] = refl
pushes_lem code f p (right ∷ []) = elim (Option-cases (set_data right 4)) [
  | inl e ↦ ground (arith, e)
  | inr (b, e) ↦ ground (arith, e)
]
pushes_lem code f p (right ∷ left ∷ s) = elim (Option-cases (set_data right 4)) [
  | inl e ↦ ground (arith, e)
  | inr (b, e) ↦ (elim (Option-cases (set_data left 4)) [
    | inl g ↦ ground (arith, e, g)
    | inr (a, g) ↦ ground (arith, e, g)
  ])
]

-- The operations on two numbers, on every stack: two items that read as numbers of at most four
-- bytes are replaced by the result on integers, left operand below the right one; else the operation
-- returns its code, with the items lost up to the first that is no number.
pub binary_lem :
    (library : Library) (op : Operation) (address : ℕ) (code : Binary) (p : Program)
    → dispatch library op address (binary_code code) p
      ≡ binary_outcome (binary_error code) (result code) p p.primary
unfolding dispatch push_bool push_move op_add op_sub op_bool_and op_bool_or op_num_equal
    op_num_not_equal op_less_than op_greater_than op_less_than_or_equal op_greater_than_or_equal
    op_min op_max
binary_lem library op address add_numbers p =
    pushes_lem ErrorCode.op_add (result add_numbers) p p.primary
binary_lem library op address sub_numbers p =
    pushes_lem ErrorCode.op_sub (result sub_numbers) p p.primary
binary_lem library op address booland_numbers p =
    pushes_lem ErrorCode.op_bool_and (result booland_numbers) p p.primary
binary_lem library op address boolor_numbers p =
    pushes_lem ErrorCode.op_bool_or (result boolor_numbers) p p.primary
binary_lem library op address numequal_numbers p =
    pushes_lem ErrorCode.op_num_equal (result numequal_numbers) p p.primary
binary_lem library op address numnotequal_numbers p =
    pushes_lem ErrorCode.op_num_not_equal (result numnotequal_numbers) p p.primary
binary_lem library op address lessthan_numbers p =
    pushes_lem ErrorCode.op_less_than (result lessthan_numbers) p p.primary
binary_lem library op address greaterthan_numbers p =
    pushes_lem ErrorCode.op_greater_than (result greaterthan_numbers) p p.primary
binary_lem library op address lessthanorequal_numbers p =
    pushes_lem ErrorCode.op_less_than_or_equal (result lessthanorequal_numbers) p p.primary
binary_lem library op address greaterthanorequal_numbers p =
    pushes_lem ErrorCode.op_greater_than_or_equal (result greaterthanorequal_numbers) p p.primary
binary_lem library op address min_numbers p =
    pushes_lem ErrorCode.op_min (result min_numbers) p p.primary
binary_lem library op address max_numbers p =
    pushes_lem ErrorCode.op_max (result max_numbers) p p.primary

nat_abs-+ℤ : (a b : ℤ) → nat_abs (a +ℤ b) ≤ nat_abs a + nat_abs b
unfolding ◌+ℤ◌
nat_abs-+ℤ a b = ground arith

nat_abs--ℤ : (a b : ℤ) → nat_abs (a -ℤ b) ≤ nat_abs a + nat_abs b
unfolding ◌-ℤ◌
nat_abs--ℤ a b = ground arith

reads_back : (n : ℤ) → nat_abs n < 2 ^ 32 → set_data (number_data n) 5 ≡ some n
reads_back n h =
    set_data-number_data n 5 (omega arith) (length-number_data n 4 (omega arith) (omega arith))
      (omega arith)

-- The sum and the difference of two operands of at most four bytes are encoded in at most five
-- bytes, and read back as the sum and the difference on integers.
pub sums_read_back :
    (left right : Bytes) {a b : ℤ}
    → All IsByte left
    → All IsByte right
    → set_data left 4 ≡ some a
    → set_data right 4 ≡ some b
    → (set_data (result add_numbers a b) 5 ≡ some (b +ℤ a))
      × (set_data (result sub_numbers a b) 5 ≡ some (a -ℤ b))
sums_read_back left right {a} {b} hl hr ha hb =
    let la = set_data-lt left 3 hl (omega arith) ha in
    let lb = set_data-lt right 3 hr (omega arith) hb in
    (
      reads_back (b +ℤ a) (omega (arith, la, lb, nat_abs-+ℤ b a)),
      reads_back (a -ℤ b) (omega (arith, la, lb, nat_abs--ℤ a b)),
    )
