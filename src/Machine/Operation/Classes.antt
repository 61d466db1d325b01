-- ===== src/Machine/Operation/Classes.antt =====
-- The classes of operation codes, from their numbers.
use bitprim_core.Common.{Bool, true, false, not, ◌&&◌, ◌||◌, leb, ◌==◌}
use bitprim_core.Machine.Opcode.{Opcode, opcode_byte}
use bitprim_core.Machine.Operation.{code_eq}

-- opcode: [0..79, 81..96]
unfoldable pub is_push : Opcode → Bool
is_push code = leb (opcode_byte code) 96 && not (opcode_byte code == 80)

-- opcode: [97..255]
unfoldable pub is_counted : Opcode → Bool
is_counted code = leb 97 (opcode_byte code)

-- stack: [1..16]
unfoldable pub is_positive : Opcode → Bool
is_positive code = leb 81 (opcode_byte code) && leb (opcode_byte code) 96

-- stack: [[], 1..16]
unfoldable pub is_version : Opcode → Bool
is_version code = code_eq code (Opcode.push_size 0) || is_positive code

-- stack: [-1, 1..16]
unfoldable pub is_numeric : Opcode → Bool
is_numeric code = is_positive code || code_eq code Opcode.push_negative_1

-- opcode: [80, 98, 137, 138, 186..255]
unfoldable pub is_reserved : Opcode → Bool
is_reserved Opcode.reserved_80 = true
is_reserved Opcode.reserved_98 = true
is_reserved Opcode.reserved_137 = true
is_reserved Opcode.reserved_138 = true
is_reserved code = leb 186 (opcode_byte code) && leb (opcode_byte code) 255

unfoldable pub is_disabled : Opcode → Bool
is_disabled Opcode.disabled_cat = true
is_disabled Opcode.disabled_substr = true
is_disabled Opcode.disabled_left = true
is_disabled Opcode.disabled_right = true
is_disabled Opcode.disabled_invert = true
is_disabled Opcode.disabled_and = true
is_disabled Opcode.disabled_or = true
is_disabled Opcode.disabled_xor = true
is_disabled Opcode.disabled_mul2 = true
is_disabled Opcode.disabled_div2 = true
is_disabled Opcode.disabled_mul = true
is_disabled Opcode.disabled_div = true
is_disabled Opcode.disabled_mod = true
is_disabled Opcode.disabled_lshift = true
is_disabled Opcode.disabled_rshift = true
is_disabled Opcode.disabled_verif = true
is_disabled Opcode.disabled_vernotif = true
is_disabled code = false

unfoldable pub is_conditional : Opcode → Bool
is_conditional Opcode.if_ = true
is_conditional Opcode.notif = true
is_conditional Opcode.else_ = true
is_conditional Opcode.endif = true
is_conditional code = false

-- opcode: [0..96]
unfoldable pub is_relaxed_push : Opcode → Bool
is_relaxed_push code = leb (opcode_byte code) 96
