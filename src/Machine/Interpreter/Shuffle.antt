-- ===== src/Machine/Interpreter/Shuffle.antt =====
-- The operations that only rearrange the main stack, against the table of their effects.
use bitprim_core.Common.{ℕ, ◌≡◌, refl, arith, Option, none, some, List, [], ◌∷◌, Bytes}
use bitprim_core.Machine.Opcode.{Opcode}
use bitprim_core.Machine.ErrorCode.{ErrorCode}
use bitprim_core.Machine.Operation.{Operation}
use bitprim_core.Machine.Program.{Program, push_move, pop, duplicate, swap, erase}
use bitprim_core.Machine.Interpreter.Stack.{
  Handler, op_drop, op_drop2, op_dup, op_dup2, op_dup3, op_nip, op_over, op_over2, op_rot, op_rot2,
  op_swap, op_swap2, op_tuck,
}
use bitprim_core.Machine.Interpreter.Crypto.{Library}
use bitprim_core.Machine.Interpreter.Run.{dispatch}

-- The operations that rearrange.
pub data Shuffle : Type 0 where
  drop_items drop2_items dup_items dup2_items dup3_items nip_items over_items over2_items rot_items
        rot2_items swap_items swap2_items tuck_items :
      Shuffle

abbrev pub code_of : Shuffle → Opcode
code_of drop_items = Opcode.drop
code_of drop2_items = Opcode.drop2
code_of dup_items = Opcode.dup
code_of dup2_items = Opcode.dup2
code_of dup3_items = Opcode.dup3
code_of nip_items = Opcode.nip
code_of over_items = Opcode.over
code_of over2_items = Opcode.over2
code_of rot_items = Opcode.rot
code_of rot2_items = Opcode.rot2
code_of swap_items = Opcode.swap
code_of swap2_items = Opcode.swap2
code_of tuck_items = Opcode.tuck

-- The stack after the operation, top first, or `none` where the stack is too short.
abbrev pub effect : Shuffle → List Bytes → Option (List Bytes)
effect drop_items (a ∷ s) = some (s)
effect drop2_items (b ∷ a ∷ s) = some (s)
effect dup_items (a ∷ s) = some (a ∷ a ∷ s)
effect dup2_items (b ∷ a ∷ s) = some (b ∷ a ∷ b ∷ a ∷ s)
effect dup3_items (c ∷ b ∷ a ∷ s) = some (c ∷ b ∷ a ∷ c ∷ b ∷ a ∷ s)
effect nip_items (b ∷ a ∷ s) = some (b ∷ s)
effect over_items (b ∷ a ∷ s) = some (a ∷ b ∷ a ∷ s)
effect over2_items (d ∷ c ∷ b ∷ a ∷ s) = some (b ∷ a ∷ d ∷ c ∷ b ∷ a ∷ s)
effect rot_items (c ∷ b ∷ a ∷ s) = some (a ∷ c ∷ b ∷ s)
effect rot2_items (f ∷ e ∷ d ∷ c ∷ b ∷ a ∷ s) = some (b ∷ a ∷ f ∷ e ∷ d ∷ c ∷ s)
effect swap_items (b ∷ a ∷ s) = some (a ∷ b ∷ s)
effect swap2_items (d ∷ c ∷ b ∷ a ∷ s) = some (b ∷ a ∷ d ∷ c ∷ s)
effect tuck_items (b ∷ a ∷ s) = some (b ∷ a ∷ b ∷ s)
effect shuffle s = none

-- The code that an operation returns on a stack that is too short.
abbrev pub shortage : Shuffle → ErrorCode
shortage drop_items = ErrorCode.op_drop
shortage drop2_items = ErrorCode.op_drop2
shortage dup_items = ErrorCode.op_dup
shortage dup2_items = ErrorCode.op_dup2
shortage dup3_items = ErrorCode.op_dup3
shortage nip_items = ErrorCode.op_nip
shortage over_items = ErrorCode.op_over
shortage over2_items = ErrorCode.op_over2
shortage rot_items = ErrorCode.op_rot
shortage rot2_items = ErrorCode.op_rot2
shortage swap_items = ErrorCode.op_swap
shortage swap2_items = ErrorCode.op_swap2
shortage tuck_items = ErrorCode.op_tuck

abbrev pub outcome : ErrorCode → Program → Option (List Bytes) → ErrorCode × Program
outcome code p none = (code, p)
outcome code p (some s) = (ErrorCode.success, record p { primary = s })

-- The handler does what the table says, on a program with the given stack.
abbrev Does : Shuffle → Handler → List Bytes → Program → Type 0
Does shuffle handler s p =
    handler (record p { primary = s })
    ≡ outcome (shortage shuffle) (record p { primary = s }) (effect shuffle s)

op_drop_lem : (s : List Bytes) (p : Program) → Does drop_items op_drop s p
unfolding op_drop push_move pop duplicate swap erase
op_drop_lem [] p = refl
op_drop_lem (a ∷ s) p = ground arith

op_drop2_lem : (s : List Bytes) (p : Program) → Does drop2_items op_drop2 s p
unfolding op_drop2 push_move pop duplicate swap erase
op_drop2_lem [] p = refl
op_drop2_lem (b ∷ []) p = refl
op_drop2_lem (b ∷ a ∷ s) p = ground arith

op_dup_lem : (s : List Bytes) (p : Program) → Does dup_items op_dup s p
unfolding op_dup push_move pop duplicate swap erase
op_dup_lem [] p = refl
op_dup_lem (a ∷ s) p = ground arith

op_dup2_lem : (s : List Bytes) (p : Program) → Does dup2_items op_dup2 s p
unfolding op_dup2 push_move pop duplicate swap erase
op_dup2_lem [] p = refl
op_dup2_lem (b ∷ []) p = refl
op_dup2_lem (b ∷ a ∷ s) p = ground arith

op_dup3_lem : (s : List Bytes) (p : Program) → Does dup3_items op_dup3 s p
unfolding op_dup3 push_move pop duplicate swap erase
op_dup3_lem [] p = refl
op_dup3_lem (c ∷ []) p = refl
op_dup3_lem (c ∷ b ∷ []) p = refl
op_dup3_lem (c ∷ b ∷ a ∷ s) p = ground arith

op_nip_lem : (s : List Bytes) (p : Program) → Does nip_items op_nip s p
unfolding op_nip push_move pop duplicate swap erase
op_nip_lem [] p = refl
op_nip_lem (b ∷ []) p = refl
op_nip_lem (b ∷ a ∷ s) p = ground arith

op_over_lem : (s : List Bytes) (p : Program) → Does over_items op_over s p
unfolding op_over push_move pop duplicate swap erase
op_over_lem [] p = refl
op_over_lem (b ∷ []) p = refl
op_over_lem (b ∷ a ∷ s) p = ground arith

op_over2_lem : (s : List Bytes) (p : Program) → Does over2_items op_over2 s p
unfolding op_over2 push_move pop duplicate swap erase
op_over2_lem [] p = refl
op_over2_lem (d ∷ []) p = refl
op_over2_lem (d ∷ c ∷ []) p = refl
op_over2_lem (d ∷ c ∷ b ∷ []) p = refl
op_over2_lem (d ∷ c ∷ b ∷ a ∷ s) p = ground arith

op_rot_lem : (s : List Bytes) (p : Program) → Does rot_items op_rot s p
unfolding op_rot push_move pop duplicate swap erase
op_rot_lem [] p = refl
op_rot_lem (c ∷ []) p = refl
op_rot_lem (c ∷ b ∷ []) p = refl
op_rot_lem (c ∷ b ∷ a ∷ s) p = ground arith

op_rot2_lem : (s : List Bytes) (p : Program) → Does rot2_items op_rot2 s p
unfolding op_rot2 push_move pop duplicate swap erase
op_rot2_lem [] p = refl
op_rot2_lem (f ∷ []) p = refl
op_rot2_lem (f ∷ e ∷ []) p = refl
op_rot2_lem (f ∷ e ∷ d ∷ []) p = refl
op_rot2_lem (f ∷ e ∷ d ∷ c ∷ []) p = refl
op_rot2_lem (f ∷ e ∷ d ∷ c ∷ b ∷ []) p = refl
op_rot2_lem (f ∷ e ∷ d ∷ c ∷ b ∷ a ∷ s) p = ground arith

op_swap_lem : (s : List Bytes) (p : Program) → Does swap_items op_swap s p
unfolding op_swap push_move pop duplicate swap erase
op_swap_lem [] p = refl
op_swap_lem (b ∷ []) p = refl
op_swap_lem (b ∷ a ∷ s) p = ground arith

op_swap2_lem : (s : List Bytes) (p : Program) → Does swap2_items op_swap2 s p
unfolding op_swap2 push_move pop duplicate swap erase
op_swap2_lem [] p = refl
op_swap2_lem (d ∷ []) p = refl
op_swap2_lem (d ∷ c ∷ []) p = refl
op_swap2_lem (d ∷ c ∷ b ∷ []) p = refl
op_swap2_lem (d ∷ c ∷ b ∷ a ∷ s) p = ground arith

op_tuck_lem : (s : List Bytes) (p : Program) → Does tuck_items op_tuck s p
unfolding op_tuck push_move pop duplicate swap erase
op_tuck_lem [] p = refl
op_tuck_lem (b ∷ []) p = refl
op_tuck_lem (b ∷ a ∷ s) p = ground arith

-- The operations that rearrange the main stack have the effect that the table gives, and on a stack
-- that is too short for it they return their code and change nothing.
pub shuffle_lem :
    (library : Library) (op : Operation) (address : ℕ) (shuffle : Shuffle) (p : Program)
    → dispatch library op address (code_of shuffle) p
      ≡ outcome (shortage shuffle) p (effect shuffle p.primary)
unfolding dispatch
shuffle_lem library op address drop_items p = op_drop_lem p.primary p
shuffle_lem library op address drop2_items p = op_drop2_lem p.primary p
shuffle_lem library op address dup_items p = op_dup_lem p.primary p
shuffle_lem library op address dup2_items p = op_dup2_lem p.primary p
shuffle_lem library op address dup3_items p = op_dup3_lem p.primary p
shuffle_lem library op address nip_items p = op_nip_lem p.primary p
shuffle_lem library op address over_items p = op_over_lem p.primary p
shuffle_lem library op address over2_items p = op_over2_lem p.primary p
shuffle_lem library op address rot_items p = op_rot_lem p.primary p
shuffle_lem library op address rot2_items p = op_rot2_lem p.primary p
shuffle_lem library op address swap_items p = op_swap_lem p.primary p
shuffle_lem library op address swap2_items p = op_swap2_lem p.primary p
shuffle_lem library op address tuck_items p = op_tuck_lem p.primary p
