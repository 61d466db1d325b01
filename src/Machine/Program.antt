-- ===== src/Machine/Program.antt =====
-- include/bitcoin/bitcoin/impl/machine/program.ipp and src/machine/program.cpp: the state of a
-- script's evaluation. Each stack has its top first, so the item at an index of the source is the
-- item at that index of the list. The position of an operation in the script stands for its
-- address, and for the jump register.
pub mod Conditions
mod Tests
use bitprim_core.Common.{
  ℕ, zero, suc, ◌+◌, ◌-◌, ◌%◌, ◌^◌, Bool, true, false, not, ◌&&◌, ◌||◌, Option, none, some,
}
use bitprim_core.Common.{
  List, [], ◌∷◌, ◌++◌, ltb, leb, ◌==◌, if◌then◌else◌, length, get_or, set, take,
}
use bitprim_core.Common.{drop, erase_at, Bytes}
use bitprim_core.Common.Int.{ℤ, pos, negsuc, ltb_ℤ}
use bitprim_core.Chain.Types.{Transaction}
use bitprim_core.Machine.Number.{Number, set_data, int32}
use bitprim_core.Machine.Operation.{Operation}
use bitprim_core.Machine.Operation.Classes.{is_counted, is_conditional}
use bitprim_core.Machine.Operation.Script.{operations, is_valid_operations, is_unspendable}

-- include/bitcoin/bitcoin/machine/script_version.hpp
pub data ScriptVersion : Type 0 where
  version_zero version_reserved unversioned : ScriptVersion

pub record Program : Type 0 where
  pub script : Bytes
  pub transaction : Transaction
  pub input_index : ℕ
  pub forks : ℕ
  pub value : ℕ
  pub version : ScriptVersion
  pub negative_count : ℕ
  pub operation_count : ℕ
  pub jump : ℕ
  pub primary : List Bytes
  pub alternate : List Bytes
  pub condition : List Bool

-- `program(script, transaction, input_index, forks, stack, value, version)`
unfoldable pub program : Bytes → Transaction → ℕ → ℕ → List Bytes → ℕ → ScriptVersion → Program
program script transaction input_index forks stack value version = record {
  script = script;
  transaction = transaction;
  input_index = input_index;
  forks = forks;
  value = value;
  version = version;
  negative_count = 0;
  operation_count = 0;
  jump = 0;
  primary = stack;
  alternate = [];
  condition = [];
}

abbrev pub max_counted_ops : ℕ
max_counted_ops = 201

abbrev pub max_stack_size : ℕ
max_stack_size = 1000

abbrev pub max_script_public_keys : ℕ
max_script_public_keys = 20

abbrev pub max_number_size : ℕ
max_number_size = 4

unfoldable pub is_valid : Program → Bool
is_valid p = is_valid_operations p.script && not (is_unspendable p.script)

unfoldable pub operation_overflow : ℕ → Bool
operation_overflow count = ltb max_counted_ops count

-- `increment_operation_count(op)`: the count has no bound here, since the source relies on the size of
-- a script for its addition. A test comes with the program after it.
unfoldable pub increment_operation_count : Operation → Program → Bool × Program
unfolding operation_overflow
increment_operation_count op p =
    let count = if is_counted op.code then p.operation_count + 1 else p.operation_count in
    (not (operation_overflow count), record p { operation_count = count })

-- `increment_operation_count(public_keys)`
unfoldable pub count_public_keys : ℤ → Program → Bool × Program
unfolding operation_overflow
count_public_keys (pos keys) p =
    if ltb max_script_public_keys keys
    then (false, p)
    else let count = p.operation_count + keys in
      (not (operation_overflow count), record p { operation_count = count })
count_public_keys (negsuc n) p = (false, p)

-- `set_jump_register(op, offset)`, with the address of `op`.
unfoldable pub set_jump_register : ℕ → ℕ → Program → Bool × Program
set_jump_register address offset p =
    let end = length (operations p.script) in
    if end == 0
    then (false, p)
    else if ltb address end
    then (true, record p { jump = address + offset })
    else (false, record p { jump = end })

unfoldable pub push_move : Bytes → Program → Program
push_move item p = record p { primary = item ∷ p.primary }

-- `push(bool)`
unfoldable pub push_bool : Bool → Program → Program
unfolding push_move
push_bool value p = push_move (if value then 1 ∷ [] else []) p

abbrev pub empty : Program → Bool
empty p = length p.primary == 0

abbrev pub size : Program → ℕ
size p = length p.primary

-- `pop()`, which the source guards.
unfoldable pub pop : Program → Bytes × Program
pop p = (get_or p.primary 0 [], record p { primary = drop 1 p.primary })

-- `pop(out_number, maximum_size)`: the item is gone also where it is no number.
unfoldable pub pop_number : ℕ → Program → Option Number × Program
unfolding pop
pop_number maximum_size p =
    if empty p then (none, p) else let (item, p') = pop p in (set_data item maximum_size, p')

abbrev pub int32_of : Option Number → Option ℤ
int32_of none = none
int32_of (some n) = some (int32 n)

-- `pop(int32_t& out_value)`
unfoldable pub pop_int32 : Program → Option ℤ × Program
unfolding pop_number
pop_int32 p = let (n, p') = pop_number max_number_size p in (int32_of n, p')

-- `pop_binary`: the right hand side is at the top. No second pop follows a failed one.
unfoldable pub pop_binary : Program → Option (Number × Number) × Program
pop_binary p =
    let (first, p1) = pop_number max_number_size p in
    elim first [
      | none ↦ (none, p1)
      | some a ↦
          let (second, p2) = pop_number max_number_size p1 in
          elim second [ none ↦ (none, p2) | some b ↦ (some (a, b), p2) ]
    ]

-- `pop_ternary`: the upper bound is at the top, the lower bound next, the value next.
unfoldable pub pop_ternary : Program → Option (Number × Number × Number) × Program
pop_ternary p =
    let (pair, p2) = pop_binary p in
    elim pair [
      | none ↦ (none, p2)
      | some (a, b) ↦
          let (third, p3) = pop_number max_number_size p2 in
          elim third [ none ↦ (none, p3) | some c ↦ (some (a, b, c), p3) ]
    ]

-- An index of the stack, if it is one.
abbrev pub stack_index : Option ℤ → ℕ → Option ℕ
stack_index none n = none
stack_index (some (negsuc i)) n = none
stack_index (some (pos i)) n = if ltb i n then some i else none

-- `pop_position`: the popped value as an index of the stack that is left.
unfoldable pub pop_position : Program → Option ℕ × Program
unfolding pop_int32
pop_position p = let (index, p') = pop_int32 p in (stack_index index (size p'), p')

-- `pop(section, count)`: the items from the top on.
unfoldable pub pop_section : ℕ → Program → Option (List Bytes) × Program
pop_section count p =
    if ltb (size p) count
    then (none, p)
    else (some (take count p.primary), record p { primary = drop count p.primary })

-- `item(index)`, which the source guards.
abbrev pub item : ℕ → Program → Bytes
item index p = get_or p.primary index []

unfoldable pub duplicate : ℕ → Program → Program
unfolding push_move
duplicate index p = push_move (item index p) p

unfoldable pub swap : ℕ → ℕ → Program → Program
swap left right p = record p {
  primary = set (set p.primary left (item right p)) right (item left p);
}

-- `erase(position)`
unfoldable pub erase : ℕ → Program → Program
erase index p = record p { primary = erase_at p.primary index }

-- `stack_to_bool(clean)` of an item: the first byte that is not zero decides, unless it is a
-- terminating negative zero.
unfoldable pub item_to_bool : Bytes → Bool
item_to_bool [] = false
item_to_bool (b ∷ bs) = if b == 0 then item_to_bool bs else not (length bs == 0 && b == 0x80)

-- `stack_true(clean)`
unfoldable pub stack_true : Bool → Program → Bool
unfolding item_to_bool
stack_true clean p = if clean && not (size p == 1) then false else item_to_bool (item 0 p)

unfoldable pub stack_result : Bool → Program → Bool
unfolding stack_true
stack_result clean p = not (empty p) && stack_true clean p

unfoldable pub is_stack_overflow : Program → Bool
is_stack_overflow p = ltb max_stack_size (size p + length p.alternate)

-- `top(out_number, maximum_size)`
unfoldable pub top : ℕ → Program → Option Number
top maximum_size p = if empty p then none else set_data (item 0 p) maximum_size

unfoldable pub subscript : Program → List Operation
subscript p = drop p.jump (operations p.script)

abbrev pub empty_alternate : Program → Bool
empty_alternate p = length p.alternate == 0

unfoldable pub push_alternate : Bytes → Program → Program
push_alternate item p = record p { alternate = item ∷ p.alternate }

unfoldable pub pop_alternate : Program → Bytes × Program
pop_alternate p = (get_or p.alternate 0 [], record p { alternate = drop 1 p.alternate })

-- size_t: one more, one less.
abbrev pub increment : ℕ → ℕ
increment n = (n + 1) % 2 ^ 64

abbrev pub decrement : ℕ → ℕ
decrement n = (n + 2 ^ 64 - 1) % 2 ^ 64

unfoldable pub open_condition : Bool → Program → Program
open_condition value p = record p {
  negative_count = if value then p.negative_count else increment p.negative_count;
  condition = value ∷ p.condition;
}

-- `negate()`, which the source guards.
unfoldable pub negate : Program → Program
negate p =
    let value = get_or p.condition 0 true in
    record p {
      negative_count = if value then increment p.negative_count else decrement p.negative_count;
      condition = not value ∷ drop 1 p.condition;
    }

-- `close()`, which the source guards.
unfoldable pub close : Program → Program
close p =
    let value = get_or p.condition 0 true in
    record p {
      negative_count = if value then p.negative_count else decrement p.negative_count;
      condition = drop 1 p.condition;
    }

abbrev pub closed : Program → Bool
closed p = length p.condition == 0

unfoldable pub succeeded : Program → Bool
succeeded p = p.negative_count == 0

-- `if_(op)`
unfoldable pub if_ : Operation → Program → Bool
unfolding succeeded
if_ op p = is_conditional op.code || succeeded p
