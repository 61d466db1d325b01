-- ===== src/Wire/Deserializer.antt =====
-- include/bitcoin/bitcoin/impl/utility/deserializer.ipp, with bounds checks (`CheckSafe`): the
-- bytes between the iterator and the end, and the flag that a failed read clears.
use bitprim_core.Common.{ℕ, Bool, true, false, not, ◌||◌, [], ◌∷◌}
use bitprim_core.Common.{leb, ◌==◌, if◌then◌else◌, length, take, drop, replicate, Bytes}
use bitprim_core.Wire.Endian.{from_little_endian, from_big_endian}
use bitprim_core.Wire.Serializer.{at_iterator, max_size_t}
use bitprim_core.Wire.Serializer.{varint_two_bytes, varint_four_bytes, varint_eight_bytes}

pub record Reader : Type 0 where
  pub rest : Bytes
  pub valid : Bool

-- A read: its result, and the reader after it.
abbrev pub Read : Type 0 → Type 0
Read A = Reader → A × Reader

infixl 5 ◌>>=◌
abbrev pub ◌>>=◌ : {A B : Type 0} → Read A → (A → Read B) → Read B
◌>>=◌ m f r = let (a, r') = m r in f a r'

abbrev pub return : {A : Type 0} → A → Read A
return a r = (a, r)

-- A reader at the start of a buffer.
abbrev pub reader : Bytes → Reader
reader bytes = record { rest = bytes; valid = true }

unfoldable pub invalidate : Reader → Reader
invalidate r = record r { valid = false }

unfoldable pub is_exhausted : Reader → Bool
is_exhausted r = not r.valid || length r.rest == 0

-- `if (!safe(size)) invalidate();`
unfoldable pub check_safe : ℕ → Reader → Reader
unfolding invalidate
check_safe size r = if leb size (length r.rest) then r else invalidate r

unfoldable pub peek_byte : Read ℕ
unfolding check_safe
peek_byte r = let r' = check_safe 1 r in (if r'.valid then at_iterator r'.rest else 0, r')

unfoldable pub read_byte : Read ℕ
unfolding check_safe
read_byte r =
    let r' = check_safe 1 r in
    if r'.valid then (at_iterator r'.rest, record r' { rest = drop 1 r'.rest }) else (0, r')

-- `read_bytes(size)` and `read_forward<Size>()`: zeros where the read fails.
unfoldable pub read_bytes : ℕ → Read Bytes
unfolding check_safe
read_bytes size r =
    let r' = check_safe size r in
    if r'.valid
    then (take size r'.rest, record r' { rest = drop size r'.rest })
    else (replicate size 0, r')

unfoldable pub read_little_endian : ℕ → Read ℕ
unfolding check_safe
read_little_endian size r =
    let r' = check_safe size r in
    if r'.valid
    then (from_little_endian size r'.rest, record r' { rest = drop size r'.rest })
    else (0, r')

unfoldable pub read_big_endian : ℕ → Read ℕ
unfolding check_safe
read_big_endian size r =
    let r' = check_safe size r in
    if r'.valid
    then (from_big_endian size r'.rest, record r' { rest = drop size r'.rest })
    else (0, r')

unfoldable pub read_2_bytes_little_endian : Read ℕ
read_2_bytes_little_endian = read_little_endian 2

unfoldable pub read_4_bytes_little_endian : Read ℕ
read_4_bytes_little_endian = read_little_endian 4

unfoldable pub read_8_bytes_little_endian : Read ℕ
read_8_bytes_little_endian = read_little_endian 8

unfoldable pub read_2_bytes_big_endian : Read ℕ
read_2_bytes_big_endian = read_big_endian 2

unfoldable pub read_4_bytes_big_endian : Read ℕ
read_4_bytes_big_endian = read_big_endian 4

unfoldable pub read_8_bytes_big_endian : Read ℕ
read_8_bytes_big_endian = read_big_endian 8

unfoldable pub read_variable_little_endian : Read ℕ
read_variable_little_endian = do
  value ← read_byte
  if value == varint_eight_bytes
      then read_8_bytes_little_endian
      else if value == varint_four_bytes
      then read_4_bytes_little_endian
      else if value == varint_two_bytes
      then read_2_bytes_little_endian
      else return value

unfoldable pub read_variable_big_endian : Read ℕ
read_variable_big_endian = do
  value ← read_byte
  if value == varint_eight_bytes
      then read_8_bytes_big_endian
      else if value == varint_four_bytes
      then read_4_bytes_big_endian
      else if value == varint_two_bytes
      then read_2_bytes_big_endian
      else return value

-- The test of `read_size_little_endian` and `read_size_big_endian` on what they read.
abbrev pub limit_size : ℕ → Read ℕ
limit_size size r = if leb size max_size_t then (size, r) else (0, invalidate r)

unfoldable pub read_size_little_endian : Read ℕ
read_size_little_endian = do size ← read_variable_little_endian; limit_size size

unfoldable pub read_size_big_endian : Read ℕ
read_size_big_endian = do size ← read_variable_big_endian; limit_size size

-- The characters before the first zero, of at most `size`.
unfoldable pub until_terminator : Bytes → Bytes
until_terminator [] = []
until_terminator (c ∷ cs) = if c == 0 then [] else c ∷ until_terminator cs

-- `read_string(size)` consumes `size` characters and drops all from the first zero on.
unfoldable pub read_fixed_string : ℕ → Read Bytes
unfolding check_safe
read_fixed_string size r =
    let r' = check_safe size r in
    if r'.valid
    then (until_terminator (take size r'.rest), record r' { rest = drop size r'.rest })
    else ([], r')

unfoldable pub read_string : Read Bytes
read_string = do size ← read_size_little_endian; read_fixed_string size

unfoldable pub skip : ℕ → Reader → Reader
unfolding check_safe
skip size r =
    let r' = check_safe size r in if r'.valid then record r' { rest = drop size r'.rest } else r'
