-- ===== src/Wire/Strings.antt =====
-- Strings read back as they were written.
use bitprim_core.Common.{ℕ, zero, suc, ◌-◌, ◌^◌, ◌≤◌, ◌<◌, min, ◌≡◌, refl, arith}
use bitprim_core.Common.{[], ◌∷◌, ◌++◌, append_assoc, append-nil}
use bitprim_core.Common.{length, length-append, take, take-append, drop-append, Bytes, All}
use bitprim_core.Common.{replicate, length-replicate}
use bitprim_core.Wire.Serializer.{write_bytes, write_string, write_fixed_string}
use bitprim_core.Wire.Deserializer.{reader, read_string, read_fixed_string, until_terminator}
use bitprim_core.Wire.RoundTrip.{check_safe-append, take-of, drop-of, read_size_lem}

until_terminator-All : (value : Bytes) → All (λ c. 0 < c) value → until_terminator value ≡ value
unfolding until_terminator
until_terminator-All [] h = refl
until_terminator-All (c ∷ cs) (hc, h) = ground (arith, until_terminator-All cs h)

until_terminator_padded :
    (value : Bytes) (n : ℕ)
    → All (λ c. 0 < c) value
    → until_terminator (value ++ replicate n 0) ≡ value
unfolding until_terminator
until_terminator_padded [] zero h = refl
until_terminator_padded [] (suc n) h = refl
until_terminator_padded (c ∷ cs) n (hc, h) = ground (arith, until_terminator_padded cs n h)

-- A string of fewer than 2^64 characters, none of them zero, reads back as it was written, with whatever follows left to read.
pub read_string-write_string :
    (value rest : Bytes)
    → length value < 2 ^ 64
    → All (λ c. 0 < c) value
    → read_string (reader (write_string value ++ rest)) ≡ (value, reader rest)
unfolding read_string write_string write_bytes read_fixed_string
read_string-write_string value rest h nz = rw (
  append_assoc,
  read_size_lem (length value) (value ++ rest) h,
  check_safe-append value rest (length value) refl,
  take-append value rest,
  drop-append value rest,
  until_terminator-All value nz,
)

write_fixed_string_lem :
    (value : Bytes) (size : ℕ)
    → length value ≤ size
    → write_fixed_string value size ≡ value ++ replicate (size - length value) 0
unfolding write_fixed_string write_bytes
write_fixed_string_lem value size h = rw (shorter, take_all value)
  where
    shorter : min size (length value) ≡ length value
    shorter = omega arith

    take_all : (xs : Bytes) → take (length xs) xs ≡ xs
    take_all xs = rw append-nil at (take-append xs [])

-- A fixed string of at most `size` characters, none of them zero, loses its padding.
pub read_fixed_string-write_fixed_string :
    (value rest : Bytes) (size : ℕ)
    → length value ≤ size
    → All (λ c. 0 < c) value
    → read_fixed_string size (reader (write_fixed_string value size ++ rest)) ≡ (value, reader rest)
unfolding read_fixed_string
read_fixed_string-write_fixed_string value rest size h nz = rw (
  write_fixed_string_lem value size h,
  check_safe-append padded rest size count,
  take-of padded rest size count,
  drop-of padded rest size count,
  until_terminator_padded value (size - length value) nz,
)
  where
    padded : Bytes
    padded = value ++ replicate (size - length value) 0

    count : length padded ≡ size
    count = omega (
      arith,
      length-append value (replicate (size - length value) 0),
      length-replicate {A = ℕ} (size - length value) 0,
    )
