-- ===== src/Chain/Compact/Rounding.antt =====
-- The compact form keeps the leading digits of a number.
use bitprim_core.Common.{
  ℕ, zero, suc, ◌+◌, ◌-◌, ◌*◌, ◌/◌, ◌%◌, ◌^◌, ◌≤◌, ◌<◌, ◌≡◌, refl, ap, ◌∙◌, arith,
}
use bitprim_core.Common.{false, some, leb}
use bitprim_core.Common.Bits.{pow_pos}
use bitprim_core.Common.Digits.{pow-add, pow_mono}
use native.Mathlib.Nat.{mod-add-div', lt-div-mul-add, div-lt_iff_lt-mul}
use native.Mathlib.Decide.{dec_le}
use bitprim_core.Chain.Compact.{logical_size, from_compact, normalize, significant, from_big}
use bitprim_core.Chain.Compact.Reading.{
  Sized, logical_size-Sized, logical_size-le, Rounds, Reads, exact, normalize-Reads, no_overflow,
  no_overflow_short, shifted,
}

-- Numbers of at most three bytes.
small-Reads :
    (s v : ℕ)
    → v < 2 ^ (8 * s)
    → s ≤ 3
    → Reads (from_compact (normalize s (significant s v % 2 ^ 32))) v
small-Reads zero v z h =
    normalize-Reads v 0 _ (omega arith) (omega arith) (λ l. exact (ap some (omega arith)))
      (λ g. absurd (omega (arith, g)))
small-Reads (suc zero) v z h =
    normalize-Reads v 1 (v % 2 ^ 64 * 2 ^ 16 % 2 ^ 64 % 2 ^ 32) (omega arith) (omega arith)
      (λ l. exact (ap some (omega arith))) (λ g. exact (ap some (omega arith)))
small-Reads (suc (suc zero)) v z h =
    normalize-Reads v 2 (v % 2 ^ 64 * 2 ^ 8 % 2 ^ 64 % 2 ^ 32) (omega arith) (omega arith)
      (λ l. exact (ap some (omega arith))) (λ g. exact (ap some (omega arith)))
small-Reads (suc (suc (suc zero))) v z h =
    normalize-Reads v 3 (v % 2 ^ 64 * 2 ^ 0 % 2 ^ 64 % 2 ^ 32) (omega arith) (omega arith)
      (λ l. exact (ap some (omega arith)))
      (λ g. (
        v / 256 * 256,
        shifted 4 1 _ refl (omega arith) (no_overflow 4 _ (omega arith) (omega arith)) (omega arith)
            ∙ ap some (omega arith),
        record { below = omega arith; close = omega (arith, g) },
      ))
small-Reads (suc (suc (suc (suc s)))) v z h = absurd (omega (arith, h))

-- The parts of a number above and below a unit.
record Splits (v unit q : ℕ) : Type 0 where
  whole : q * unit ≤ v
  rest : v < q * unit + unit

div-Splits : (v unit : ℕ) → 0 < unit → Splits v unit (v / unit)
div-Splits v unit h = record { whole = omega (arith, mod-add-div' v unit); rest = lt-div-mul-add h }

-- Dropping what is below a unit, of a quotient that has 15 digits at least.
cut : (v unit q : ℕ) → Splits v unit q → 2 ^ 15 ≤ q → Rounds v (q * unit)
cut v unit q z h = record { below = z.whole; close = omega (arith, scaled, z.whole, z.rest) }
  where
    scaled : 2 ^ 15 * unit ≤ q * unit
    scaled = grind (arith, h)

pow_split : (a b c : ℕ) → a ≡ b + c → 2 ^ a ≡ 2 ^ b * 2 ^ c
pow_split a b c h = ap (λ (t : ℕ). 2 ^ t) h ∙ pow-add b c

distribute : (a b unit : ℕ) → (a * 256 + b) * unit ≡ a * (256 * unit) + b * unit
distribute a b unit = grind arith

-- The quotient by 256 of a quotient.
Splits-byte : (v unit q : ℕ) → Splits v unit q → Splits v (256 * unit) (q / 256)
Splits-byte v unit q z = record {
  whole = omega (arith, parts, z.whole, z.rest, least);
  rest = omega (arith, parts, z.whole, z.rest, most);
}
  where
    parts : q * unit ≡ (q / 256) * (256 * unit) + (q % 256) * unit
    parts = ap (λ (t : ℕ). t * unit) (omega arith) ∙ distribute (q / 256) (q % 256) unit

    least : 0 ≤ (q % 256) * unit
    least = omega arith

    most : (q % 256) * unit ≤ 255 * unit
    most = grind arith

module _ (k v : ℕ) (hk : k ≤ 28) (below : v < 2 ^ (8 * (k + 4)))
    (above : 2 ^ (8 * (k + 3)) ≤ v) where
  unit : ℕ
  unit = 2 ^ (8 * (k + 1))

  fits : v < 2 ^ 24 * unit
  unfolding unit
  fits = omega (arith, below, pow_split (8 * (k + 4)) 24 (8 * (k + 1)) (omega arith))

  fills : 2 ^ 16 * unit ≤ v
  unfolding unit
  fills = omega (arith, above, pow_split (8 * (k + 3)) 16 (8 * (k + 1)) (omega arith))

  positive : 0 < unit
  unfolding unit
  positive = pow_pos (8 * (k + 1))

  splits : Splits v unit (v / unit)
  splits = div-Splits v unit positive

  digits_lt : v / unit < 2 ^ 24
  digits_lt = (div-lt_iff_lt-mul positive).1 fits

  digits_ge : 2 ^ 16 ≤ v / unit
  digits_ge = elim (dec_le (2 ^ 16) (v / unit)) [
    | yes h ↦ h
    | no few ↦ absurd (
        omega
          (arith, fills, (div-lt_iff_lt-mul {x = v} {y = 2 ^ 16} positive).0 (omega (arith, few))))
  ]

  in_range : v < 2 ^ 256
  in_range = omega (arith, below, pow_mono (8 * (k + 4)) 256 (omega (arith, hk)))

  digits : significant (k + 4) v % 2 ^ 32 ≡ v / unit
  unfolding unit
  digits = rw (past, less) (omega (arith, digits_lt))
    where
      past : leb (k + 4) 3 ≡ false
      past = ground arith

      less : k + 4 - 3 ≡ k + 1
      less = omega arith

  large-Reads : Reads (from_compact (normalize (k + 4) (significant (k + 4) v % 2 ^ 32))) v
  unfolding unit
  large-Reads = rw digits (
      normalize-Reads v (k + 4) (v / unit) (omega (arith, hk)) digits_lt
        (λ l. (
          v / unit * unit,
          shifted (k + 4) (k + 1) (v / unit) (omega arith) (omega arith)
              (no_overflow (k + 4) (v / unit) (omega (arith, hk)) digits_lt)
              (omega (arith, splits.whole, in_range)),
          cut v unit (v / unit) splits (omega (arith, digits_ge)),
        ))
        (λ g. (
          v / unit / 256 * (256 * unit),
          shifted (k + 4 + 1) (k + 2) (v / unit / 256) (omega arith) (omega arith)
                (no_overflow_short (k + 4 + 1) (v / unit / 256) (omega (arith, hk))
                  (omega (arith, digits_lt)))
                (omega (arith, wider, coarse.whole, in_range))
              ∙ ap some wider,
          cut v (256 * unit) (v / unit / 256) coarse (omega (arith, g)),
        )))
    where
      coarse : Splits v (256 * unit) (v / unit / 256)
      coarse = Splits-byte v unit (v / unit) splits

      wider : v / unit / 256 * 2 ^ (8 * (k + 2)) ≡ v / unit / 256 * (256 * unit)
      wider =
          ap (λ (t : ℕ). v / unit / 256 * t) (pow_split (8 * (k + 2)) 8 (8 * (k + 1)) (omega arith))

Sized-Reads :
    (s v : ℕ) → Sized v s → s ≤ 32 → Reads (from_compact (normalize s (significant s v % 2 ^ 32))) v
Sized-Reads zero v z h = small-Reads 0 v z.below (omega arith)
Sized-Reads (suc zero) v z h = small-Reads 1 v z.below (omega arith)
Sized-Reads (suc (suc zero)) v z h = small-Reads 2 v z.below (omega arith)
Sized-Reads (suc (suc (suc zero))) v z h = small-Reads 3 v z.below (omega arith)
Sized-Reads (suc (suc (suc (suc k)))) v z h =
    rw (four) (large-Reads k v (omega (arith, h)) (rw (← four) (z.below)) (rw (← three) (z.above)))
  where
    four : suc (suc (suc (suc k))) ≡ k + 4
    four = omega arith

    three : suc (suc (suc k)) ≡ k + 3
    three = omega arith

-- The compact form of a 256 bit number reads back without overflow, as a number that is not larger
-- and differs from it by at most one part in 2^15.
pub from_compact-from_big :
    (v : ℕ) → v < 2 ^ 256 → (r : ℕ) × (from_compact (from_big v) ≡ some r) × Rounds v r
unfolding from_big
from_compact-from_big v h =
    Sized-Reads (logical_size 32 v) v (logical_size-Sized 32 v h) (logical_size-le 32 v)
