-- ===== src/Common/Digits.antt =====
-- Powers of two, and the number that a little-endian list of bytes stands for.
use Prim.Native.Nat.{ℕ, zero, suc, ◌+◌, ◌*◌, ◌^◌, ◌≤◌, ◌<◌}
use mathlib.Core.Path.{◌≡◌, ap}
use mathlib.Core.List.{[], ◌∷◌, ◌++◌}
use native.Mathlib.Omega.{arith}
use native.Mathlib.Nat.{pow-suc, pow-le-pow_right, add-zero}
use bitprim_core.Common.Lists.{length, All, IsByte, Bytes}

pub pow-add : (a b : ℕ) → 2 ^ (a + b) ≡ 2 ^ a * 2 ^ b
pow-add a zero = omega (arith, ap (λ (t : ℕ). 2 ^ t) (add-zero a))
pow-add a (suc b) = omega (
  arith,
  ap (λ (t : ℕ). 2 ^ t) shift,
  pow-suc 2 (a + b),
  ap (λ (t : ℕ). t * 2) (pow-add a b),
  ap (λ (t : ℕ). 2 ^ a * t) (pow-suc 2 b),
)
  where
    shift : a + suc b ≡ suc (a + b)
    shift = omega arith

-- 256 to the `n`, in the form that the source's shifts by `8 * n` give.
pub byte_pow : (n : ℕ) → 2 ^ (8 * suc n) ≡ 256 * 2 ^ (8 * n)
byte_pow n = omega (arith, ap (λ (t : ℕ). 2 ^ t) shift, pow-add 8 (8 * n))
  where
    shift : 8 * suc n ≡ 8 + 8 * n
    shift = omega arith

pub pow_mono : (a b : ℕ) → a ≤ b → 2 ^ a ≤ 2 ^ b
pow_mono a b h = pow-le-pow_right (omega arith) h

unfoldable pub le_value : Bytes → ℕ
le_value [] = 0
le_value (b ∷ bs) = b + 256 * le_value bs

pub le_value-lt : (bs : Bytes) → All IsByte bs → le_value bs < 2 ^ (8 * length bs)
unfolding le_value
le_value-lt [] h = omega arith
le_value-lt (b ∷ bs) (hb, hbs) = omega (arith, byte_pow (length bs), le_value-lt bs hbs)

pub le_value-append :
    (xs ys : Bytes) → le_value (xs ++ ys) ≡ le_value xs + le_value ys * 2 ^ (8 * length xs)
unfolding le_value
le_value-append [] ys = omega arith
le_value-append (x ∷ xs) ys =
    omega (arith, le_value-append xs ys, ap (λ (t : ℕ). le_value ys * t) (byte_pow (length xs)))

pub le_value-snoc :
    (xs : Bytes) (b : ℕ) → le_value (xs ++ b ∷ []) ≡ le_value xs + b * 2 ^ (8 * length xs)
unfolding le_value
le_value-snoc xs b = omega (arith, le_value-append xs (b ∷ []))
