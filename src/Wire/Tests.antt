-- ===== src/Wire/Tests.antt =====
-- Reading and writing at concrete inputs.
use bitprim_core.Common.{◌+◌, ◌^◌, ◌≡◌, arith, [], ◌∷◌, ◌++◌}
use bitprim_core.Wire.Serializer
use bitprim_core.Wire.Serializer.{
  write_variable_little_endian, write_variable_big_endian, write_string, write_fixed_string,
}
use bitprim_core.Wire.Deserializer.{reader, read_variable_little_endian}
use bitprim_core.Wire.RoundTrip.{read_variable_little_endian-write_variable_little_endian}
use bitprim_core.Wire.Sizes.{serializer_read_size_lem}

read_variable_little_endian_example :
    read_variable_little_endian (reader (write_variable_little_endian 515 ++ 7 ∷ []))
    ≡ (515, reader (7 ∷ []))
read_variable_little_endian_example =
    read_variable_little_endian-write_variable_little_endian 515 (7 ∷ []) (omega arith)

-- 2 ^ 32 + 5 is read as 5.
serializer_read_size_lem_example :
    Serializer.read_size_little_endian
      (write_variable_little_endian (2 ^ 32 + 5) ++ 1 ∷ 2 ∷ 3 ∷ 4 ∷ 7 ∷ [])
    ≡ (5, 7 ∷ [])
serializer_read_size_lem_example =
    serializer_read_size_lem (2 ^ 32 + 5) (1 ∷ 2 ∷ 3 ∷ 4 ∷ 7 ∷ []) (omega arith)
