-- ===== src/Chain/Tests.antt =====
-- The serialization of chain objects at concrete inputs.
use bitprim_core.Common.{ℕ, ◌-◌, ◌^◌, ◌≡◌, refl, arith, true, false, some, [], ◌∷◌, ◌++◌, replicate}
use bitprim_core.Common.{inr}
use bitprim_core.Wire.Deserializer.{reader}
use bitprim_core.Chain.Types.{Point, Input, Output, Transaction}
use bitprim_core.Chain.Point.{point_from_data, point_to_data, point_from_data-point_to_data}
use bitprim_core.Chain.Header.{
  Header, header_from_data, header_to_data, header_from_data-header_to_data,
}
use bitprim_core.Chain.Output.{IsOutputRanged}
use bitprim_core.Chain.Input.{IsInputRanged}
use bitprim_core.Chain.Compact.{from_compact, from_big}
use bitprim_core.Chain.Compact.Reading.{Rounds}
use bitprim_core.Chain.Compact.Rounding.{from_compact-from_big}
use bitprim_core.Chain.Transaction.{transaction_from_data, transaction_to_data}
use bitprim_core.Chain.Transaction.Parts.{IsSendable}
use bitprim_core.Chain.Transaction.RoundTrip.{transaction_from_data-transaction_to_data}

-- The null index in the store's form.
abbrev coinbase_point : Point
coinbase_point = record { hash = replicate 32 0; index = 2 ^ 32 - 1; valid = true }

point_from_data-point_to_data_example :
    point_from_data false (reader (point_to_data false coinbase_point ++ 9 ∷ []))
    ≡ (coinbase_point, reader (9 ∷ []))
point_from_data-point_to_data_example =
    point_from_data-point_to_data false coinbase_point (9 ∷ [])
      (record { hash_length = refl; held = inr refl; is_valid = refl })

abbrev a_header : Header
a_header = record {
  version = 1;
  previous_block_hash = replicate 32 1;
  merkle = replicate 32 2;
  timestamp = 1_231_006_505;
  bits = 0x1d00_ffff;
  nonce = 2_083_236_893;
  median_time_past = 7;
}

header_from_data-header_to_data_example :
    header_from_data true 7 (reader (header_to_data true a_header ++ 9 ∷ []))
    ≡ (a_header, reader (9 ∷ []))
header_from_data-header_to_data_example =
    header_from_data-header_to_data true a_header (9 ∷ []) (record {
      version = omega arith;
      previous = refl;
      merkle = refl;
      timestamp = omega arith;
      bits = omega arith;
      nonce = omega arith;
      median = omega arith;
    })

abbrev an_output : Output
an_output = record { value = 5_000; script = 0x51 ∷ []; spender_height = 2 ^ 32 - 1 }

an_output-IsOutputRanged : IsOutputRanged an_output
an_output-IsOutputRanged = record {
  value = omega arith;
  script = omega arith;
  height = omega arith;
}

abbrev an_input : Input
an_input = record {
  previous_output = record { hash = replicate 32 3; index = 1; valid = true };
  script = 0x52 ∷ [];
  witness = (1 ∷ 2 ∷ []) ∷ [];
  sequence = 4;
}

an_input-IsInputRanged : IsInputRanged true an_input
an_input-IsInputRanged = record {
  point = record { hash_length = refl; held = omega arith; is_valid = refl };
  script = omega arith;
  few = omega arith;
  elements = (omega arith, tt);
  sequence = omega arith;
}

abbrev a_transaction : Transaction
a_transaction = record {
  version = 2;
  locktime = 100;
  inputs = an_input ∷ [];
  outputs = an_output ∷ [];
}

a_transaction-IsSendable : IsSendable a_transaction
a_transaction-IsSendable = record {
  version = omega arith;
  locktime = omega arith;
  has_input = omega arith;
  input_count = omega arith;
  output_count = omega arith;
  inputs = (an_input-IsInputRanged, tt);
  outputs = ((an_output-IsOutputRanged, refl), tt);
}

transaction_from_data-transaction_to_data_example :
    transaction_from_data true (reader (transaction_to_data true a_transaction ++ 9 ∷ []))
    ≡ (a_transaction, reader (9 ∷ []))
transaction_from_data-transaction_to_data_example =
    transaction_from_data-transaction_to_data a_transaction a_transaction-IsSendable (9 ∷ [])

-- The mantissa of this number has the sign bit set.
from_compact-from_big_example :
    (r : ℕ) × (from_compact (from_big 0x92340000) ≡ some r) × Rounds 0x92340000 r
from_compact-from_big_example = from_compact-from_big 0x92340000 (omega arith)
