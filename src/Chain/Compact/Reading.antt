-- ===== src/Chain/Compact/Reading.antt =====
-- What the compact form of an exponent and a mantissa reads as.
use bitprim_core.Common.{
  ℕ, zero, suc, ◌+◌, ◌-◌, ◌*◌, ◌/◌, ◌%◌, ◌^◌, ◌≤◌, ◌<◌, ◌≡◌, refl, ap, ◌∙◌, arith,
}
use bitprim_core.Common.{
  true, false, not, Option, some, ltb, leb, ltb→lt, ◌==◌, if◌then◌else◌, Bool-cases, inl, inr,
}
use bitprim_core.Common.Bits.{bit_and-mask, bit_and-bit, disjoint-bit_or}
use bitprim_core.Common.Digits.{byte_pow}
use native.Mathlib.Nat.{mod-eq_of_lt}
use bitprim_core.Chain.Compact.{
  is_negated, log_256, is_overflow, logical_size, shift_mantissa, from_compact, assemble, normalize,
}

is_negated_lem : (c : ℕ) → is_negated c ≡ not (c / 2 ^ 23 % 2 == 0)
unfolding is_negated
is_negated_lem c = ground (arith, bit_and-bit 23 c)

-- A compact number without its sign bit.
from_compact-assemble :
    (e m : ℕ) → e < 256 → m < 2 ^ 23 → from_compact (assemble e m) ≡ shift_mantissa e m
unfolding from_compact
from_compact-assemble e m he hm =
    rw
      (
        disjoint-bit_or 24 m e (omega arith),
        is_negated_lem (e * 2 ^ 24 + m),
        bit_and-mask 23 (e * 2 ^ 24 + m),
        positive,
        exponent,
        mantissa,
      )
      refl
  where
    positive : (e * 2 ^ 24 + m) / 2 ^ 23 % 2 ≡ 0
    positive = omega arith

    exponent : (e * 2 ^ 24 + m) / 2 ^ 24 % 2 ^ 8 ≡ e
    exponent = omega arith

    mantissa : (e * 2 ^ 24 + m) % 2 ^ 23 ≡ m
    mantissa = omega arith

-- A number of `s` bytes is not smaller than the least of them.
abbrev pub FillsBytes : ℕ → ℕ → Type 0
FillsBytes zero v = Unit
FillsBytes (suc n) v = 2 ^ (8 * n) ≤ v

-- `s` is the number of bytes of the number.
pub record Sized (v s : ℕ) : Type 0 where
  pub below : v < 2 ^ (8 * s)
  pub above : FillsBytes s v

pub logical_size-Sized : (fuel v : ℕ) → v < 2 ^ (8 * fuel) → Sized v (logical_size fuel v)
unfolding logical_size
logical_size-Sized zero v h = record { below = h; above = tt }
logical_size-Sized (suc fuel) v h = elim (Bool-cases (v == 0)) [
  | inl none_left ↦ rw (logical_size, none_left) (record { below = ground arith; above = tt })
  | inr some_left ↦
      rw (logical_size, some_left)
        (grown (ground (arith, some_left)) (logical_size fuel (v / 256))
          (logical_size-Sized fuel (v / 256) (omega (arith, byte_pow fuel))))
]
  where
    grown : 0 < v → (s : ℕ) → Sized (v / 256) s → Sized v (suc s)
    grown positive zero z = record {
      below = omega (arith, z.below);
      above = omega (arith, positive);
    }
    grown positive (suc s) z = record {
      below = omega (arith, z.below, byte_pow (suc s));
      above = omega (arith, z.above, byte_pow s);
    }

pub logical_size-le : (fuel v : ℕ) → logical_size fuel v ≤ fuel
unfolding logical_size
logical_size-le zero v = omega arith
logical_size-le (suc fuel) v = ground (arith, logical_size-le fuel (v / 256))

-- What the normal form of a mantissa reads as.
from_compact-normalize :
    (e m : ℕ)
    → e < 255
    → m < 2 ^ 24
    → from_compact (normalize e m)
      ≡ (if ltb m (2 ^ 23) then shift_mantissa e m else shift_mantissa (e + 1) (m / 256))
from_compact-normalize e m he hm = elim (Bool-cases (ltb m (2 ^ 23))) [
  | inl small ↦
      rw (is_negated_lem m, positive small, small)
        (from_compact-assemble e m (omega arith) (ltb→lt m (2 ^ 23) small))
  | inr big ↦
      rw (is_negated_lem m, negative big, big)
        (from_compact-assemble (e + 1) (m / 256) (omega arith) (omega arith))
]
  where
    positive : ltb m (2 ^ 23) ≡ true → m / 2 ^ 23 % 2 ≡ 0
    positive h = ground (arith, h)

    negative : ltb m (2 ^ 23) ≡ false → m / 2 ^ 23 % 2 ≡ 1
    negative h = ground (arith, h, hm)

-- A number `r` that stands for `v` to 15 binary digits.
pub record Rounds (v r : ℕ) : Type 0 where
  pub below : r ≤ v
  pub close : (v - r) * 2 ^ 15 ≤ r

abbrev pub Reads : Option ℕ → ℕ → Type 0
Reads o v = (r : ℕ) × (o ≡ some r) × Rounds v r

pub exact : {o : Option ℕ} {v : ℕ} → o ≡ some v → Reads o v
exact {v = v} e = (v, e, record { below = omega arith; close = omega arith })

-- The two ways that the normal form takes.
pub normalize-Reads :
    (v e m : ℕ)
    → e < 255
    → m < 2 ^ 24
    → (m < 2 ^ 23 → Reads (shift_mantissa e m) v)
    → (2 ^ 23 ≤ m → Reads (shift_mantissa (e + 1) (m / 256)) v)
    → Reads (from_compact (normalize e m)) v
normalize-Reads v e m he hm free taken = elim (Bool-cases (ltb m (2 ^ 23))) [
  | inl small ↦
      let (r, read, close) = free (ltb→lt m (2 ^ 23) small) in
      (r, from_compact-normalize e m he hm ∙ rw small read, close)
  | inr big ↦
      let (r, read, close) = taken (ground (arith, big)) in
      (r, from_compact-normalize e m he hm ∙ rw big read, close)
]

pub no_overflow : (e m : ℕ) → e ≤ 32 → m < 2 ^ 24 → is_overflow e m ≡ false
unfolding is_overflow log_256
no_overflow e m he hm = ground (arith, he, hm)

pub no_overflow_short : (e m : ℕ) → e ≤ 33 → m < 2 ^ 16 → is_overflow e m ≡ false
unfolding is_overflow log_256
no_overflow_short e m he hm = ground (arith, he, hm)

pub shifted :
    (e k m : ℕ)
    → e ≡ k + 3
    → 0 < k
    → is_overflow e m ≡ false
    → m * 2 ^ (8 * k) < 2 ^ 256
    → shift_mantissa e m ≡ some (m * 2 ^ (8 * k))
shifted e k m he hk fits lt = rw (past, fits, same) (ap some (mod-eq_of_lt lt))
  where
    past : leb e 3 ≡ false
    past = ground (arith, he, hk)

    same : e - 3 ≡ k
    same = omega (arith, he)
