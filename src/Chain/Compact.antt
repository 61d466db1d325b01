-- ===== src/Chain/Compact.antt =====
-- src/chain/compact.cpp: the compact form of 256 bit numbers.
pub mod Reading
pub mod Rounding
use bitprim_core.Common.{
  ℕ, zero, suc, ◌+◌, ◌-◌, ◌*◌, ◌/◌, ◌%◌, ◌^◌, bit_and, bit_or, Bool, true, false, not, ◌&&◌,
}
use bitprim_core.Common.{Option, none, some, ltb, leb, ◌==◌, if◌then◌else◌}

abbrev pub sign_bit : ℕ
sign_bit = 2 ^ 23

abbrev pub mantissa_max : ℕ
mantissa_max = 2 ^ 23 - 1

abbrev pub mantissa_bits : ℕ
mantissa_bits = 24

unfoldable pub is_negated : ℕ → Bool
is_negated compact = not (bit_and compact sign_bit == 0)

unfoldable pub log_256 : ℕ → ℕ
log_256 mantissa =
    if ltb 0xffff mantissa
    then 3
    else if ltb 0xff mantissa
    then 2
    else if ltb 0 mantissa
    then 1
    else 0

-- The exponent would shift the mantissa by more than 32 bytes.
unfoldable pub is_overflow : ℕ → ℕ → Bool
is_overflow exponent mantissa = ltb 0 mantissa && ltb (32 + 3 - log_256 mantissa) exponent

abbrev pub shift_low : ℕ → ℕ
shift_low exponent = 8 * (3 - exponent)

abbrev pub shift_high : ℕ → ℕ
shift_high exponent = 8 * (exponent - 3)

-- `logical_size`; a uint256_t has at most 32 bytes.
unfoldable pub logical_size : ℕ → ℕ → ℕ
logical_size zero value = 0
logical_size (suc fuel) value =
    let rest = logical_size fuel (value / 256) in if value == 0 then 0 else suc rest

-- The mantissa shifted by the exponent, or `none` on overflow.
abbrev pub shift_mantissa : ℕ → ℕ → Option ℕ
shift_mantissa exponent mantissa =
    if leb exponent 3
    then some (mantissa / 2 ^ shift_low exponent)
    else if is_overflow exponent mantissa
    then none
    else some (mantissa * 2 ^ shift_high exponent % 2 ^ 256)

-- `compact::from_compact`, which returns false (`none`) on overflow.
unfoldable pub from_compact : ℕ → Option ℕ
from_compact compact =
    if is_negated compact
    then some 0
    else shift_mantissa (compact / 2 ^ mantissa_bits % 2 ^ 8) (bit_and compact mantissa_max)

-- `(exponent << mantissa_bits) | mantissa`
abbrev pub assemble : ℕ → ℕ → ℕ
assemble exponent mantissa = bit_or (exponent * 2 ^ mantissa_bits) mantissa

-- The sign bit of the mantissa is dropped into the exponent.
abbrev pub normalize : ℕ → ℕ → ℕ
normalize exponent mantissa =
    if is_negated mantissa
    then assemble (exponent + 1) (mantissa / 256)
    else assemble exponent mantissa

-- The significant digits.
abbrev pub significant : ℕ → ℕ → ℕ
significant exponent big =
    if leb exponent 3
    then big % 2 ^ 64 * 2 ^ shift_low exponent % 2 ^ 64
    else big / 2 ^ shift_high exponent % 2 ^ 64

-- `compact::from_big`
unfoldable pub from_big : ℕ → ℕ
from_big big =
    let exponent = logical_size 32 big in normalize exponent (significant exponent big % 2 ^ 32)
