-- ===== src/Machine/Interpreter/Stack.antt =====
-- Operations that push data or rearrange the stacks.
use bitprim_core.Common.{ℕ, false, not, none, some, [], ◌∷◌, ltb}
use bitprim_core.Common.{if◌then◌else◌, length, Bytes, bytes_eq}
use bitprim_core.Common.Int.{pos}
use bitprim_core.Machine.ErrorCode.{ErrorCode}
use bitprim_core.Machine.Number.{number_data}
use bitprim_core.Machine.Operation.{Operation}
use bitprim_core.Machine.Program.{
  Program, push_move, push_bool, empty, size, pop, pop_position, item, duplicate, swap, erase,
  stack_true, empty_alternate, push_alternate, pop_alternate,
}

-- What an operation does to the program.
abbrev pub Handler : Type 0
Handler = Program → ErrorCode × Program

abbrev pub succeed : Handler
succeed p = (ErrorCode.success, p)

abbrev pub fail : ErrorCode → Handler
fail code p = (code, p)

-- `if (program.size() < count) return code;`
abbrev pub needs : ℕ → ErrorCode → Handler → Handler
needs count code next p = if ltb (size p) count then (code, p) else next p

unfoldable pub op_nop : Handler
op_nop = succeed

unfoldable pub op_disabled : Handler
op_disabled = fail ErrorCode.op_disabled

unfoldable pub op_reserved : Handler
op_reserved = fail ErrorCode.op_reserved

unfoldable pub op_push_number : ℕ → Handler
op_push_number value p = succeed (push_move (value ∷ []) p)

unfoldable pub op_push_size : Operation → Handler
op_push_size op p =
    if ltb 75 (length op.bytes)
    then fail ErrorCode.op_push_size p
    else succeed (push_move op.bytes p)

unfoldable pub op_push_data : Bytes → ℕ → Handler
op_push_data bytes size_limit p =
    if ltb size_limit (length bytes)
    then fail ErrorCode.op_push_data p
    else succeed (push_move bytes p)

unfoldable pub op_verify : Handler
op_verify p =
    if empty p
    then fail ErrorCode.op_verify1 p
    else if not (stack_true false p)
    then fail ErrorCode.op_verify2 p
    else succeed (pop p).1

unfoldable pub op_return : Handler
op_return = fail ErrorCode.op_return

unfoldable pub op_to_alt_stack : Handler
op_to_alt_stack p =
    if empty p
    then fail ErrorCode.op_to_alt_stack p
    else let (item, p') = pop p in succeed (push_alternate item p')

unfoldable pub op_from_alt_stack : Handler
op_from_alt_stack p =
    if empty_alternate p
    then fail ErrorCode.op_from_alt_stack p
    else let (item, p') = pop_alternate p in succeed (push_move item p')

unfoldable pub op_drop2 : Handler
op_drop2 = needs 2 ErrorCode.op_drop2 (λ p. succeed (pop (pop p).1).1)

unfoldable pub op_dup2 : Handler
op_dup2 = needs 2 ErrorCode.op_dup2 (λ p.
    let item1 = item 1 p in let item0 = item 0 p in succeed (push_move item0 (push_move item1 p)))

unfoldable pub op_dup3 : Handler
op_dup3 = needs 3 ErrorCode.op_dup3 (λ p.
    let item2 = item 2 p in
    let item1 = item 1 p in
    let item0 = item 0 p in succeed (push_move item0 (push_move item1 (push_move item2 p))))

unfoldable pub op_over2 : Handler
op_over2 = needs 4 ErrorCode.op_over2 (λ p.
    let item3 = item 3 p in let item2 = item 2 p in succeed (push_move item2 (push_move item3 p)))

-- `erase(position_5, position_4 + 1)` takes out the two items.
unfoldable pub op_rot2 : Handler
op_rot2 = needs 6 ErrorCode.op_rot2 (λ p.
    let copy5 = item 5 p in
    let copy4 = item 4 p in succeed (push_move copy4 (push_move copy5 (erase 4 (erase 5 p)))))

unfoldable pub op_swap2 : Handler
op_swap2 = needs 4 ErrorCode.op_swap2 (λ p. succeed (swap 2 0 (swap 3 1 p)))

unfoldable pub op_if_dup : Handler
op_if_dup p =
    if empty p
    then fail ErrorCode.op_if_dup p
    else if stack_true false p
    then succeed (duplicate 0 p)
    else succeed p

unfoldable pub op_depth : Handler
op_depth p = succeed (push_move (number_data (pos (size p))) p)

unfoldable pub op_drop : Handler
op_drop p = if empty p then fail ErrorCode.op_drop p else succeed (pop p).1

unfoldable pub op_dup : Handler
op_dup p = if empty p then fail ErrorCode.op_dup p else succeed (duplicate 0 p)

unfoldable pub op_nip : Handler
op_nip = needs 2 ErrorCode.op_nip (λ p. succeed (erase 1 p))

unfoldable pub op_over : Handler
op_over = needs 2 ErrorCode.op_over (λ p. succeed (duplicate 1 p))

unfoldable pub op_pick : Handler
op_pick p =
    let (position, p') = pop_position p in
    elim position [ none ↦ fail ErrorCode.op_pick p' | some i ↦ succeed (push_move (item i p') p') ]

unfoldable pub op_roll : Handler
op_roll p =
    let (position, p') = pop_position p in
    elim position [
      | none ↦ fail ErrorCode.op_roll p'
      | some i ↦ succeed (push_move (item i p') (erase i p'))
    ]

unfoldable pub op_rot : Handler
op_rot = needs 3 ErrorCode.op_rot (λ p. succeed (swap 1 0 (swap 2 1 p)))

unfoldable pub op_swap : Handler
op_swap = needs 2 ErrorCode.op_swap (λ p. succeed (swap 1 0 p))

unfoldable pub op_tuck : Handler
op_tuck = needs 2 ErrorCode.op_tuck (λ p.
    let (first, p1) = pop p in
    let (second, p2) = pop p1 in succeed (push_move first (push_move second (push_move first p2))))

unfoldable pub op_size : Handler
op_size p =
    if empty p
    then fail ErrorCode.op_size p
    else let (top, p') = pop p in
      succeed (push_move (number_data (pos (length top))) (push_move top p'))

unfoldable pub op_equal : Handler
op_equal = needs 2 ErrorCode.op_equal (λ p.
    let (first, p1) = pop p in
    let (second, p2) = pop p1 in succeed (push_bool (bytes_eq first second) p2))

unfoldable pub op_equal_verify : Handler
op_equal_verify = needs 2 ErrorCode.op_equal_verify1 (λ p.
    let (first, p1) = pop p in
    let (second, p2) = pop p1 in
    if bytes_eq first second then succeed p2 else fail ErrorCode.op_equal_verify2 p2)
