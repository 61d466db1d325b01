-- ===== src/Machine/Number/Tests.antt =====
-- Script numbers at concrete inputs.
use bitprim_core.Common.{◌≤◌, ◌≡◌, refl, arith, some, [], ◌∷◌, length}
use bitprim_core.Common.Int.{pos, negsuc}
use bitprim_core.Machine.Number.{
  set_data, number_data, is_negative, back, absolute_bytes, data_value, or_bytes,
}
use bitprim_core.Machine.Number.RoundTrip.{set_data-number_data}
use bitprim_core.Machine.Number.Bounds.{number_data-minimal}

-- -255 takes a byte of its own for the sign.
set_data-number_data_example : set_data (number_data (negsuc 254)) 4 ≡ some (negsuc 254)
unfolding number_data set_data is_negative back absolute_bytes
set_data-number_data_example =
    set_data-number_data (negsuc 254) 4 (omega arith) (omega arith) (omega arith)

-- Five with a byte of padding.
number_data-minimal_example : length (number_data (pos 5)) ≤ 2
unfolding set_data data_value is_negative back or_bytes
number_data-minimal_example =
    number_data-minimal (5 ∷ 0 ∷ []) 4 (omega arith, (omega arith, tt)) (omega arith) refl
