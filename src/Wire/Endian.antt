-- ===== src/Wire/Endian.antt =====
-- include/bitcoin/bitcoin/impl/utility/endian.ipp: integers of `size` bytes, least or most
-- significant byte first. A byte range is a list, and a range that ends early stops the loop.
use bitprim_core.Common.{ℕ, zero, suc, ◌+◌, ◌*◌, ◌/◌, ◌%◌, ◌^◌, ◌<◌, ◌≡◌, refl, ap, ◌∙◌}
use bitprim_core.Common.{arith, bit_or, [], ◌∷◌, ◌++◌, length, All, Bytes}
use bitprim_core.Common.{IsByte}
use bitprim_core.Common.Bits.{bit_or-disjoint, disjoint-bit_or, pow_pos}
use bitprim_core.Common.Digits.{byte_pow}

-- `out |= static_cast<Integer>(*start++) << (8 * i++)`
unfoldable pub or_little : ℕ → ℕ → Bytes → ℕ → ℕ
or_little zero i start out = out
or_little (suc n) i [] out = out
or_little (suc n) i (b ∷ start) out = or_little n (suc i) start (bit_or out (b * 2 ^ (8 * i)))

unfoldable pub from_little_endian : ℕ → Bytes → ℕ
from_little_endian size start = or_little size 0 start 0

-- `out |= static_cast<Integer>(*start++) << (8 * --i)`
unfoldable pub or_big : ℕ → Bytes → ℕ → ℕ
or_big zero start out = out
or_big (suc i) [] out = out
or_big (suc i) (b ∷ start) out = or_big i start (bit_or out (b * 2 ^ (8 * i)))

unfoldable pub from_big_endian : ℕ → Bytes → ℕ
from_big_endian size start = or_big size start 0

-- The byte array is filled from its front.
unfoldable pub to_little_endian : ℕ → ℕ → Bytes
to_little_endian zero value = []
to_little_endian (suc n) value = (value % 256) ∷ to_little_endian n (value / 256)

-- The byte array is filled from its back: `filled` is what stands behind the next byte.
unfoldable pub fill_big : ℕ → ℕ → Bytes → Bytes
fill_big zero value filled = filled
fill_big (suc n) value filled = fill_big n (value / 256) ((value % 256) ∷ filled)

unfoldable pub to_big_endian : ℕ → ℕ → Bytes
to_big_endian size value = fill_big size value []

pub length-to_little_endian : (size value : ℕ) → length (to_little_endian size value) ≡ size
unfolding to_little_endian
length-to_little_endian zero value = refl
length-to_little_endian (suc n) value = ap suc (length-to_little_endian n (value / 256))

length-fill_big :
    (n value : ℕ) (filled : Bytes) → length (fill_big n value filled) ≡ n + length filled
unfolding fill_big
length-fill_big zero value filled = omega arith
length-fill_big (suc n) value filled =
    omega (arith, length-fill_big n (value / 256) ((value % 256) ∷ filled))

pub length-to_big_endian : (size value : ℕ) → length (to_big_endian size value) ≡ size
unfolding to_big_endian
length-to_big_endian size value = omega (arith, length-fill_big size value [])

pub to_little_endian-IsByte : (size value : ℕ) → All IsByte (to_little_endian size value)
unfolding to_little_endian
to_little_endian-IsByte zero value = tt
to_little_endian-IsByte (suc n) value = (omega arith, to_little_endian-IsByte n (value / 256))

quotient_fits : (n value : ℕ) → value < 2 ^ (8 * suc n) → value / 256 < 2 ^ (8 * n)
quotient_fits n value h = omega (arith, byte_pow n)

-- A number less than `unit` under a byte at `unit`.
byte_room : (out r unit : ℕ) → out < unit → r < 256 → out + r * unit < 256 * unit
byte_room out r unit h hr = grind arith

split_byte : (value unit : ℕ) → value * unit ≡ value % 256 * unit + value / 256 * (256 * unit)
split_byte value unit = omega (arith, ap (λ (t : ℕ). t * unit) parts)
  where
    parts : value ≡ value % 256 + value / 256 * 256
    parts = omega arith

-- `i` bytes are read, their number is `out`, and `value` is to come.
or_little-to_little_endian :
    (n i value out : ℕ) (rest : Bytes)
    → value < 2 ^ (8 * n)
    → out < 2 ^ (8 * i)
    → or_little n i (to_little_endian n value ++ rest) out ≡ out + value * 2 ^ (8 * i)
unfolding or_little to_little_endian
or_little-to_little_endian zero i zero out rest h ho = omega arith
or_little-to_little_endian zero i (suc value) out rest h ho = absurd (omega arith)
or_little-to_little_endian (suc n) i value out rest h ho =
    ap (λ (t : ℕ). or_little n (suc i) (to_little_endian n (value / 256) ++ rest) t)
      (bit_or-disjoint (8 * i) out (value % 256) ho)
    ∙ or_little-to_little_endian n (suc i) (value / 256) (out + value % 256 * 2 ^ (8 * i)) rest
        (quotient_fits n value h)
        (rw byte_pow (byte_room out (value % 256) (2 ^ (8 * i)) ho (omega arith)))
    ∙ rw byte_pow (omega (arith, split_byte value (2 ^ (8 * i))))

-- `from_little_endian` reads back what `to_little_endian` wrote of a value that fits the size, whatever
-- follows.
pub from_little_endian-to_little_endian :
    (size value : ℕ) (rest : Bytes)
    → value < 2 ^ (8 * size)
    → from_little_endian size (to_little_endian size value ++ rest) ≡ value
unfolding from_little_endian
from_little_endian-to_little_endian size value rest h =
    or_little-to_little_endian size 0 value 0 rest h (omega arith) ∙ omega arith

-- The number of bytes that are read most significant first, after `high`.
be_value : ℕ → Bytes → ℕ
be_value high [] = high
be_value high (b ∷ bs) = be_value (high * 256 + b) bs

or_big-be_value :
    (n high : ℕ) (bs rest : Bytes)
    → length bs ≡ n
    → All IsByte bs
    → or_big n (bs ++ rest) (high * 2 ^ (8 * n)) ≡ be_value high bs
unfolding or_big be_value
or_big-be_value zero high [] rest e h = omega arith
or_big-be_value (suc n) high [] rest e h = absurd (omega arith)
or_big-be_value zero high (b ∷ bs) rest e h = absurd (omega arith)
or_big-be_value (suc n) high (b ∷ bs) rest e (hb, h) =
    ap (λ (t : ℕ). or_big n (bs ++ rest) t) joined
    ∙ or_big-be_value n (high * 256 + b) bs rest (omega arith) h
  where
    fits : b * 2 ^ (8 * n) < 2 ^ (8 * suc n)
    fits = rw byte_pow (omega (arith, byte_room 0 b (2 ^ (8 * n)) (pow_pos (8 * n)) hb))

    joined : bit_or (high * 2 ^ (8 * suc n)) (b * 2 ^ (8 * n)) ≡ (high * 256 + b) * 2 ^ (8 * n)
    joined = disjoint-bit_or (8 * suc n) (b * 2 ^ (8 * n)) high fits ∙ rw byte_pow (omega arith)

be_value-fill_big :
    (n value high : ℕ) (filled : Bytes)
    → value < 2 ^ (8 * n)
    → be_value high (fill_big n value filled) ≡ be_value (high * 2 ^ (8 * n) + value) filled
unfolding fill_big be_value
be_value-fill_big zero value high filled h = ap (λ (t : ℕ). be_value t filled) (omega arith)
be_value-fill_big (suc n) value high filled h =
    be_value-fill_big n (value / 256) high ((value % 256) ∷ filled) (quotient_fits n value h)
    ∙ ap (λ (t : ℕ). be_value t filled) total
  where
    total : (high * 2 ^ (8 * n) + value / 256) * 256 + value % 256 ≡ high * 2 ^ (8 * suc n) + value
    total = rw byte_pow (omega arith)

fill_big-IsByte :
    (n value : ℕ) (filled : Bytes) → All IsByte filled → All IsByte (fill_big n value filled)
unfolding fill_big
fill_big-IsByte zero value filled h = h
fill_big-IsByte (suc n) value filled h =
    fill_big-IsByte n (value / 256) ((value % 256) ∷ filled) (omega arith, h)

-- `from_big_endian` reads back what `to_big_endian` wrote of a value that fits the size, whatever
-- follows.
pub from_big_endian-to_big_endian :
    (size value : ℕ) (rest : Bytes)
    → value < 2 ^ (8 * size)
    → from_big_endian size (to_big_endian size value ++ rest) ≡ value
unfolding from_big_endian to_big_endian be_value
from_big_endian-to_big_endian size value rest h =
    ap (λ (t : ℕ). or_big size (fill_big size value [] ++ rest) t) none_yet
    ∙ or_big-be_value size 0 (fill_big size value []) rest
        (omega (arith, length-fill_big size value [])) (fill_big-IsByte size value [] tt)
    ∙ be_value-fill_big size value 0 [] h
    ∙ omega arith
  where
    none_yet : 0 ≡ 0 * 2 ^ (8 * size)
    none_yet = omega arith
