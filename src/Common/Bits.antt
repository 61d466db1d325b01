-- ===== src/Common/Bits.antt =====
-- Facts about `bit_and` and `bit_or` at variables, by induction on the binary digits.
use Prim.Native.Nat.{ℕ, zero, suc, ◌+◌, ◌-◌, ◌*◌, ◌/◌, ◌%◌, ◌^◌, ◌≤◌, ◌<◌, min, max}
use Prim.Native.Nat.{bit_and, bit_or, digits, bit_and-bitwise, bit_or-bitwise}
use mathlib.Core.Path.{◌≡◌, refl, sym, ap, ◌∙◌}
use native.Mathlib.Omega.{arith}
use native.Mathlib.Nat.{pow-suc, pow-succ', mod-add-div', div-div-eq-div-mul}

-- A recursion on digits takes `rest` of the second number where the first has no digit left.
module _ (rest : ℕ → ℕ) (bit : ℕ → ℕ → ℕ) where
  exhausted : (fuel y : ℕ) → digits rest bit fuel 0 y ≡ rest y
  exhausted zero y = refl
  exhausted (suc fuel) y = refl

  -- Any two amounts of fuel that cover the first number give the same.
  same_digits : (x y f g : ℕ) → x ≤ f → x ≤ g → digits rest bit f x y ≡ digits rest bit g x y
  same_digits zero y f g hf hg = exhausted f y ∙ sym (exhausted g y)
  same_digits (suc x) y zero g hf hg = absurd (omega (arith, hf))
  same_digits (suc x) y (suc f) zero hf hg = absurd (omega (arith, hg))
  same_digits (suc x) y (suc f) (suc g) hf hg =
      ap (λ (t : ℕ). t * 2 + bit (suc x % 2) (y % 2))
        (same_digits (suc x / 2) (y / 2) f g (omega (arith, hf)) (omega (arith, hg)))

  lowest_digit :
      (x y : ℕ)
      → digits rest bit (suc x) (suc x) y
        ≡ digits rest bit (suc x / 2) (suc x / 2) (y / 2) * 2 + bit (suc x % 2) (y % 2)
  lowest_digit x y =
      ap (λ (t : ℕ). t * 2 + bit (suc x % 2) (y % 2))
        (same_digits (suc x / 2) (y / 2) x (suc x / 2) (omega arith) (omega arith))

zero-bit_or : (y : ℕ) → bit_or 0 y ≡ y
zero-bit_or y = bit_or-bitwise 0 y

-- The lowest binary digit of the two operations.
pub bit_and_step : (x y : ℕ) → bit_and x y ≡ bit_and (x / 2) (y / 2) * 2 + min (x % 2) (y % 2)
bit_and_step x y =
    bit_and-bitwise x y
    ∙ by_cases x
    ∙ ap (λ (t : ℕ). t * 2 + min (x % 2) (y % 2)) (sym (bit_and-bitwise (x / 2) (y / 2)))
  where
    none_left : ℕ → ℕ
    none_left b = zero

    by_cases :
        (x : ℕ)
        → digits none_left min x x y
          ≡ digits none_left min (x / 2) (x / 2) (y / 2) * 2 + min (x % 2) (y % 2)
    by_cases zero = omega arith
    by_cases (suc x) = lowest_digit none_left min x y

pub bit_or_step : (x y : ℕ) → bit_or x y ≡ bit_or (x / 2) (y / 2) * 2 + max (x % 2) (y % 2)
bit_or_step x y =
    bit_or-bitwise x y
    ∙ by_cases x
    ∙ ap (λ (t : ℕ). t * 2 + max (x % 2) (y % 2)) (sym (bit_or-bitwise (x / 2) (y / 2)))
  where
    all_left : ℕ → ℕ
    all_left b = b

    by_cases :
        (x : ℕ)
        → digits all_left max x x y
          ≡ digits all_left max (x / 2) (x / 2) (y / 2) * 2 + max (x % 2) (y % 2)
    by_cases zero = omega arith
    by_cases (suc x) = lowest_digit all_left max x y

-- Zero on the right hand side, for every number up to a bound.
right_zero : (bound x : ℕ) → x ≤ bound → (bit_or x 0 ≡ x) × (bit_and x 0 ≡ 0)
right_zero bound zero le = (refl, refl)
right_zero zero (suc x) le = absurd (omega (arith, le))
right_zero (suc bound) (suc x) le =
    let (same, none) = right_zero bound (suc x / 2) (omega (arith, le)) in
    (omega (arith, bit_or_step (suc x) 0, same), omega (arith, bit_and_step (suc x) 0, none))

pub bit_or-zero : (x : ℕ) → bit_or x 0 ≡ x
bit_or-zero x = (right_zero x x (omega arith)).0

pub bit_and-zero : (x : ℕ) → bit_and x 0 ≡ 0
bit_and-zero x = (right_zero x x (omega arith)).1

-- Halving a number that is shifted by one digit more.
shift_half : (b k : ℕ) → (b * 2 ^ suc k / 2 ≡ b * 2 ^ k) × (b * 2 ^ suc k % 2 ≡ 0)
shift_half b k = (omega (arith, shifted), omega (arith, shifted))
  where
    shifted : b * 2 ^ suc k ≡ b * 2 ^ k * 2
    shifted = omega (arith, ap (λ (t : ℕ). b * t) (pow-suc 2 k))

-- Numbers with no digit in common: `|` is their sum.
pub bit_or-disjoint : (k a b : ℕ) → a < 2 ^ k → bit_or a (b * 2 ^ k) ≡ a + b * 2 ^ k
bit_or-disjoint zero a b h =
    omega (arith, ap (λ (t : ℕ). bit_or t (b * 1)) zero_a, zero-bit_or (b * 1))
  where
    zero_a : a ≡ 0
    zero_a = omega arith
bit_or-disjoint (suc k) a b h = omega (
  arith,
  bit_or_step a (b * 2 ^ suc k),
  shift_half b k,
  ap (λ (t : ℕ). bit_or (a / 2) t) (shift_half b k).0,
  bit_or-disjoint k (a / 2) b (omega (arith, pow-suc 2 k)),
)

pub disjoint-bit_or : (k a b : ℕ) → a < 2 ^ k → bit_or (b * 2 ^ k) a ≡ b * 2 ^ k + a
disjoint-bit_or zero a b h =
    omega (arith, ap (λ (t : ℕ). bit_or (b * 1) t) zero_a, bit_or-zero (b * 1))
  where
    zero_a : a ≡ 0
    zero_a = omega arith
disjoint-bit_or (suc k) a b h = omega (
  arith,
  bit_or_step (b * 2 ^ suc k) a,
  shift_half b k,
  ap (λ (t : ℕ). bit_or t (a / 2)) (shift_half b k).0,
  disjoint-bit_or k (a / 2) b (omega (arith, pow-suc 2 k)),
)

halve-div : (k a : ℕ) → a / 2 ^ suc k ≡ a / 2 / 2 ^ k
halve-div k a = rw (pow-succ', ← div-div-eq-div-mul)

halve-mod : (k a : ℕ) → a % 2 ^ suc k ≡ a / 2 % 2 ^ k * 2 + a % 2
halve-mod k a = omega (
  arith,
  mod-add-div' a (2 ^ suc k),
  mod-add-div' (a / 2) (2 ^ k),
  halve-div k a,
  ap (λ (t : ℕ). t * 2 ^ suc k) (halve-div k a),
  ap (λ (t : ℕ). a / 2 / 2 ^ k * t) (pow-suc 2 k),
)

pub pow_pos : (k : ℕ) → 0 < 2 ^ k
pow_pos zero = omega arith
pow_pos (suc k) = omega (arith, pow-suc 2 k, pow_pos k)

-- One step of `bit_and` by a mask whose half and last digit are known.
bit_and_by :
    (a m h d r : ℕ)
    → m ≡ h * 2 + d
    → d ≤ 1
    → bit_and (a / 2) h ≡ r
    → bit_and a m ≡ r * 2 + min (a % 2) d
bit_and_by a m h d r e le ih =
    omega (arith, bit_and_step a m, ap (λ (t : ℕ). bit_and (a / 2) t) half)
  where
    half : m / 2 ≡ h
    half = omega arith

-- A mask with ones below the digit `k`, a zero there, and anything above.
pub bit_and-clear : (k a m : ℕ) → a < 2 ^ suc k → bit_and a (2 ^ k - 1 + m * 2 ^ suc k) ≡ a % 2 ^ k
bit_and-clear zero a m h = omega (
  arith,
  bit_and_by a (1 - 1 + m * 2) m 0 0 (omega arith) (omega arith),
  ap (λ (t : ℕ). bit_and t m) zero_half,
  bit_and-bitwise 0 m,
)
  where
    zero_half : a / 2 ≡ 0
    zero_half = omega arith
bit_and-clear (suc k) a m h = omega (
  arith,
  bit_and_by a (2 ^ suc k - 1 + m * 2 ^ suc (suc k)) (2 ^ k - 1 + m * 2 ^ suc k) 1 (a / 2 % 2 ^ k)
      (omega (
        arith,
        pow_pos k,
        pow-suc 2 k,
        pow-suc 2 (suc k),
        ap (λ (t : ℕ). m * t) (pow-suc 2 (suc k)),
      ))
      (omega arith) (bit_and-clear k (a / 2) m (omega (arith, pow-suc 2 (suc k)))),
  halve-mod k a,
)

-- A mask of ones.
pub bit_and-mask : (k a : ℕ) → bit_and a (2 ^ k - 1) ≡ a % 2 ^ k
bit_and-mask zero a = omega (arith, bit_and-zero a)
bit_and-mask (suc k) a = omega (
  arith,
  bit_and_by a (2 ^ suc k - 1) (2 ^ k - 1) 1 (a / 2 % 2 ^ k) (omega (arith, pow_pos k, pow-suc 2 k))
      (omega arith) (bit_and-mask k (a / 2)),
  halve-mod k a,
)

-- A mask of one digit.
pub bit_and-bit : (k a : ℕ) → bit_and a (2 ^ k) ≡ a / 2 ^ k % 2 * 2 ^ k
bit_and-bit zero a = omega (arith, bit_and_step a 1, bit_and-zero (a / 2))
bit_and-bit (suc k) a = omega (
  arith,
  bit_and_by a (2 ^ suc k) (2 ^ k) 0 (a / 2 / 2 ^ k % 2 * 2 ^ k) (omega (arith, pow-suc 2 k))
      (omega arith) (bit_and-bit k (a / 2)),
  ap (λ (t : ℕ). t % 2 * 2 ^ suc k) (halve-div k a),
  ap (λ (t : ℕ). a / 2 / 2 ^ k % 2 * t) (pow-suc 2 k),
)
