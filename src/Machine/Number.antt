-- ===== src/Machine/Number.antt =====
-- include/bitcoin/bitcoin/impl/machine/number.ipp: script numbers. A number is the integer `value_`.
-- Signed overflow is undefined in the source, which asserts its absence, so sums are sums of
-- integers here.
pub mod Layout
pub mod RoundTrip
pub mod Bounds
mod Tests
use bitprim_core.Common.{ℕ, zero, suc, ◌+◌, ◌-◌, ◌*◌, ◌/◌, ◌%◌, ◌^◌, bit_and, bit_or, Bool, true}
use bitprim_core.Common.{false, not, Option, none, some, List, [], ◌∷◌, ◌++◌, ltb, leb, ◌==◌}
use bitprim_core.Common.{if◌then◌else◌, length, Bytes}
use bitprim_core.Common.Int.{ℤ, pos, negsuc, ◌+ℤ◌, ◌-ℤ◌, ltb_ℤ, leb_ℤ, eqb_ℤ, nat_abs}

abbrev pub Number : Type 0
Number = ℤ

abbrev pub negative_mask : ℕ
negative_mask = 0x80

-- `data.back()`; the source calls it on no empty vector.
unfoldable pub back : Bytes → ℕ
back [] = 0
back (b ∷ []) = b
back (b ∷ c ∷ bs) = back (c ∷ bs)

unfoldable pub is_negative : Bytes → Bool
is_negative bytes = not (bit_and (back bytes) negative_mask == 0)

-- The loop that ors byte `i` into the bit pattern of `value_`, shifted by 8 * i.
unfoldable pub or_bytes : ℕ → Bytes → ℕ → ℕ
or_bytes i [] value = value
or_bytes i (b ∷ bs) value = or_bytes (suc i) bs (bit_or value (b * 2 ^ (8 * i) % 2 ^ 64))

-- The int64_t with the given bit pattern.
abbrev pub signed64 : ℕ → ℤ
signed64 w = if ltb w (2 ^ 63) then pos w else negsuc (2 ^ 64 - w - 1)

abbrev pub minus : ℤ → ℤ
minus (pos zero) = pos 0
minus (pos (suc n)) = negsuc n
minus (negsuc n) = pos (suc n)

-- `~(negative_bit << last_shift)`
unfoldable pub sign_mask : ℕ → ℕ
sign_mask last_shift = 2 ^ 64 - 1 - negative_mask * 2 ^ last_shift % 2 ^ 64

-- What `set_data` stores for a vector that is not empty.
unfoldable pub data_value : Bytes → ℤ
data_value bytes =
    let value = or_bytes 0 bytes 0 in
    if is_negative bytes
    then minus (signed64 (bit_and value (sign_mask (8 * (length bytes - 1)))))
    else signed64 value

-- `set_data` returns false (`none`) on a vector that is too long.
unfoldable pub set_data : Bytes → ℕ → Option Number
set_data bytes max_size =
    if ltb max_size (length bytes)
    then none
    else if length bytes == 0
    then some (pos 0)
    else some (data_value bytes)

-- `while (absolute != 0)`; a uint64_t has at most 8 bytes.
unfoldable pub absolute_bytes : ℕ → ℕ → Bytes
absolute_bytes zero absolute = []
absolute_bytes (suc fuel) absolute =
    let rest = absolute_bytes fuel (absolute / 256) in
    if absolute == 0 then [] else (absolute % 256) ∷ rest

-- `data.back() |= number::negative_mask`
unfoldable pub or_back : Bytes → Bytes
or_back [] = []
or_back (b ∷ []) = bit_or b negative_mask ∷ []
or_back (b ∷ c ∷ bs) = b ∷ or_back (c ∷ bs)

abbrev pub with_sign : Bytes → Bool → Bytes
with_sign bytes set_negative =
    if is_negative bytes
    then if set_negative then bytes ++ negative_mask ∷ [] else bytes ++ 0 ∷ []
    else if set_negative
    then or_back bytes
    else bytes

-- `data()`; `-value_` and the conversion to uint64_t give the absolute value.
unfoldable pub number_data : Number → Bytes
number_data value =
    if eqb_ℤ value (pos 0)
    then []
    else with_sign (absolute_bytes 8 (nat_abs value)) (ltb_ℤ value (pos 0))

-- `domain_constrain<int32_t>(value_)`
unfoldable pub int32 : Number → ℤ
int32 value =
    if ltb_ℤ value (negsuc (2 ^ 31 - 1))
    then negsuc (2 ^ 31 - 1)
    else if ltb_ℤ (pos (2 ^ 31 - 1)) value
    then pos (2 ^ 31 - 1)
    else value

abbrev pub is_true : Number → Bool
is_true value = not (eqb_ℤ value (pos 0))

abbrev pub is_false : Number → Bool
is_false value = eqb_ℤ value (pos 0)
