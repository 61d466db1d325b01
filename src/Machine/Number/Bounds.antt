-- ===== src/Machine/Number/Bounds.antt =====
-- How large a number a vector of bytes holds, and how short the encoding of a number is.
use bitprim_core.Common.{ℕ, zero, suc, ◌+◌, ◌-◌, ◌*◌, ◌^◌, ◌≤◌, ◌<◌, ◌≡◌, refl, ap}
use bitprim_core.Common.{arith, some, List, []}
use bitprim_core.Common.{◌∷◌, ◌++◌, ltb, ltb→lt, Bool-cases, inl, inr, ◌⊎◌}
use bitprim_core.Common.{length, length-append, All, Bytes, IsByte}
use mathlib.Core.Path.{subst}
use bitprim_core.Common.Int.{pos, nat_abs}
use bitprim_core.Common.Bits.{pow_pos}
use bitprim_core.Common.Digits.{pow-add, pow_mono, le_value-lt}
use bitprim_core.Machine.Number.{Number, minus, data_value, set_data}
use bitprim_core.Machine.Number.{number_data, int32}
use bitprim_core.Machine.Number.Layout.{data_value-snoc}
use bitprim_core.Machine.Number.RoundTrip.{number_data-zero, length-number_data}

place_lt : (low c unit : ℕ) → low < unit → c < 128 → low + c * unit < unit * 128
place_lt low c unit h hc = grind arith

nat_abs-minus : (m : ℕ) → nat_abs (minus (pos m)) ≡ m
nat_abs-minus zero = refl
nat_abs-minus (suc m) = refl

data_value-bounded :
    (xs : Bytes) (b : ℕ)
    → length xs ≤ 7
    → All IsByte xs
    → b < 256
    → nat_abs (data_value (xs ++ b ∷ [])) < 2 ^ (8 * length xs + 7)
data_value-bounded xs b short h hb =
    rw (data_value-snoc xs b short h hb, pow-add (8 * length xs) 7)
      (elim (Bool-cases (ltb b 128)) [
        | inl small ↦ rw small (place_lt _ b _ (le_value-lt xs h) (ltb→lt b 128 small))
        | inr big ↦
            rw (big, nat_abs-minus) (place_lt _ (b - 128) _ (le_value-lt xs h) (omega arith))
      ])

-- A list that is not empty is a last item behind the others.
pub Snoc-cases {ℓ} :
    {A : Type ℓ} (x : A) (xs : List A) → (ys : List A) × (y : A) × (x ∷ xs ≡ ys ++ y ∷ [])
Snoc-cases x [] = ([], x, refl)
Snoc-cases x (z ∷ xs) = let (ys, y, e) = Snoc-cases z xs in (x ∷ ys, y, ap (λ l. x ∷ l) e)

All-init : (xs : Bytes) (b : ℕ) → All IsByte (xs ++ b ∷ []) → All IsByte xs × (b < 256)
All-init [] b h = (tt, h.0)
All-init (x ∷ xs) b (hx, h) = let (rest, last) = All-init xs b h in ((hx, rest), last)

data_value-lt :
    (bs : Bytes) (k : ℕ)
    → All IsByte bs
    → length bs ≡ k + 1
    → k ≤ 7
    → nat_abs (data_value bs) < 2 ^ (8 * k + 7)
data_value-lt [] k h e hk = absurd (omega arith)
data_value-lt (x ∷ xs) k h e hk =
    let (ys, y, w) = Snoc-cases x xs in
    let parts = All-init ys y (subst (λ (l : Bytes). All IsByte l) w h) in
    let count : length ys ≡ k =
      omega (arith, ap (λ (l : Bytes). length l) w, length-append ys (y ∷ [])) in
    rw (w, ← count) (data_value-bounded ys y (omega arith) parts.0 parts.1)

set_data-some :
    (bs : Bytes) (max_size : ℕ) {n : Number}
    → set_data bs max_size ≡ some n
    → ((length bs ≡ 0) × (n ≡ pos 0))
      ⊎ ((0 < length bs) × (length bs ≤ max_size) × (data_value bs ≡ n))
unfolding set_data
set_data-some [] max_size h = inl (refl, ground arith)
set_data-some (x ∷ xs) max_size h = inr (omega arith, ground arith, ground arith)

-- A number that was read from at most `k + 1` bytes has at most `8 * k + 7` binary digits, for `k` up
-- to 7.
pub set_data-lt :
    (bs : Bytes) (k : ℕ) {n : Number}
    → All IsByte bs
    → k ≤ 7
    → set_data bs (k + 1) ≡ some n
    → nat_abs n < 2 ^ (8 * k + 7)
set_data-lt bs k h hk e = elim (set_data-some bs (k + 1) e) [
  | inl (_, z) ↦ rw z (pow_pos (8 * k + 7))
  | inr (p, le, v) ↦ rw (← v) (
      widen (length bs - 1) (data_value-lt bs (length bs - 1) h (omega arith) (omega arith))
        (omega arith))
]
  where
    widen :
        (j : ℕ)
        → nat_abs (data_value bs) < 2 ^ (8 * j + 7)
        → j ≤ k
        → nat_abs (data_value bs) < 2 ^ (8 * k + 7)
    widen j lt hj = omega (arith, pow_mono (8 * j + 7) (8 * k + 7) (omega arith))

-- `data` is the shortest encoding: no vector of bytes that `set_data` accepts for the same number,
-- with a size limit of at most 8, is shorter.
pub number_data-minimal :
    (bs : Bytes) (max_size : ℕ) {n : Number}
    → All IsByte bs
    → max_size ≤ 8
    → set_data bs max_size ≡ some n
    → length (number_data n) ≤ length bs
number_data-minimal bs max_size {n} h hk e = elim (set_data-some bs max_size e) [
  | inl (_, z) ↦ rw (z, number_data-zero) (omega arith)
  | inr (p, le, v) ↦
      let k : ℕ = length bs - 1 in
      omega (
        arith,
        length-number_data n k (omega arith)
            (rw v at (data_value-lt bs k h (omega arith) (omega arith))),
      )
]

-- `int32()` keeps every number of at most four bytes.
pub int32-lt : (n : Number) → nat_abs n < 2 ^ 31 → int32 n ≡ n
unfolding int32
int32-lt n h = ground arith
