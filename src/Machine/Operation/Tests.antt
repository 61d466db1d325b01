-- ===== src/Machine/Operation/Tests.antt =====
-- Operations and scripts at concrete inputs.
use bitprim_core.Common.{◌≡◌, refl, arith, true, [], ◌∷◌}
use bitprim_core.Machine.Opcode
use bitprim_core.Machine.Opcode.{opcode_byte, opcode_from_byte}
use bitprim_core.Machine.Operation.{Operation}
use bitprim_core.Machine.Operation.Script.{operations, operations_to_data}
use bitprim_core.Machine.Operation.RoundTrip.{IsCoded, operations-operations_to_data}

-- Three bytes behind a size of one byte.
abbrev push_three : Operation
push_three = record { code = Opcode.push_one_size; bytes = 1 ∷ 2 ∷ 3 ∷ []; valid = true }

abbrev check_it : Operation
check_it = record { code = Opcode.checksig; bytes = []; valid = true }

push_three-IsCoded : IsCoded push_three
unfolding opcode_from_byte opcode_byte
push_three-IsCoded = record {
  code_byte = refl;
  carries = omega arith;
  bounded = omega arith;
  is_valid = refl;
}

check_it-IsCoded : IsCoded check_it
unfolding opcode_from_byte opcode_byte
check_it-IsCoded = record {
  code_byte = refl;
  carries = refl;
  bounded = omega arith;
  is_valid = refl;
}

operations-operations_to_data_example :
    operations (operations_to_data (push_three ∷ check_it ∷ [])) ≡ push_three ∷ check_it ∷ []
operations-operations_to_data_example =
    operations-operations_to_data (push_three ∷ check_it ∷ [])
      (push_three-IsCoded, (check_it-IsCoded, tt))
