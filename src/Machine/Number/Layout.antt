-- ===== src/Machine/Number/Layout.antt =====
-- What script numbers look like as bytes: the last byte apart from those before it.
use bitprim_core.Common.{ℕ, suc, ◌+◌, ◌-◌, ◌*◌, ◌%◌, ◌^◌, ◌≤◌, ◌<◌, ◌≡◌, refl, ap, ◌∙◌, arith}
use bitprim_core.Common.{bit_and, bit_or, true, false, [], ◌∷◌, ◌++◌}
use bitprim_core.Common.{
  ltb, ◌==◌, ==_iff, if◌then◌else◌, length, length-append, All, Bytes, IsByte,
}
use bitprim_core.Common.{Bool-cases, inl, inr, ltb→lt, lt→ltb, all_below, all_below_sound, not}
use native.Mathlib.Nat.{mod-eq_of_lt, add-mul-mod_self_right, pow-suc}
use bitprim_core.Common.Int.{pos}
use bitprim_core.Common.Bits.{bit_or-disjoint, bit_and-clear, bit_and-bit}
use bitprim_core.Common.Digits.{pow-add, byte_pow, pow_mono, le_value, le_value-lt, le_value-snoc}
use bitprim_core.Machine.Number.{
  back, is_negative, or_bytes, sign_mask, minus, signed64, data_value,
}
use bitprim_core.Machine.Number.{or_back, negative_mask}

pub back-snoc : (xs : Bytes) (b : ℕ) → back (xs ++ b ∷ []) ≡ b
unfolding back
back-snoc [] b = refl
back-snoc (x ∷ []) b = refl
back-snoc (x ∷ y ∷ xs) b = back-snoc (y ∷ xs) b

pub or_back-snoc : (xs : Bytes) (b : ℕ) → or_back (xs ++ b ∷ []) ≡ xs ++ bit_or b negative_mask ∷ []
unfolding or_back
or_back-snoc [] b = refl
or_back-snoc (x ∷ []) b = refl
or_back-snoc (x ∷ y ∷ xs) b = ap (λ (l : Bytes). x ∷ l) (or_back-snoc (y ∷ xs) b)

pub is_negative-snoc : (xs : Bytes) (b : ℕ) → b < 256 → is_negative (xs ++ b ∷ []) ≡ not (ltb b 128)
unfolding is_negative
is_negative-snoc xs b h = ground (arith, back-snoc xs b, bit_and-bit 7 b)

byte_fits : (i b : ℕ) → i ≤ 7 → b < 256 → b * 2 ^ (8 * i) < 2 ^ 64
byte_fits i b hi hb = grind (arith, pow_mono (8 * i) 56 (omega arith))

-- The loop of `set_data` sums the bytes at their places: no two of them share a bit.
pub or_bytes-le_value :
    (i : ℕ) (bs : Bytes) (v : ℕ)
    → i + length bs ≤ 8
    → All IsByte bs
    → v < 2 ^ (8 * i)
    → or_bytes i bs v ≡ v + le_value bs * 2 ^ (8 * i)
unfolding or_bytes le_value
or_bytes-le_value i [] v h hb hv = omega arith
or_bytes-le_value i (b ∷ bs) v h (hb, hbs) hv = omega (
  arith,
  ap (λ (t : ℕ). or_bytes (suc i) bs t) place,
  or_bytes-le_value (suc i) bs (v + b * 2 ^ (8 * i)) (omega arith) hbs room,
  ap (λ (t : ℕ). le_value bs * t) (byte_pow i),
)
  where
    place : bit_or v (b * 2 ^ (8 * i) % 2 ^ 64) ≡ v + b * 2 ^ (8 * i)
    place = rw (mod-eq_of_lt (byte_fits i b (omega arith) hb)) (bit_or-disjoint (8 * i) v b hv)

    room : v + b * 2 ^ (8 * i) < 2 ^ (8 * suc i)
    room = grind (arith, byte_pow i)

pub All-snoc : (xs : Bytes) (b : ℕ) → All IsByte xs → b < 256 → All IsByte (xs ++ b ∷ [])
All-snoc [] b h hb = (hb, tt)
All-snoc (x ∷ xs) b (hx, h) hb = (hx, All-snoc xs b h hb)

sign_mask_table :
    all_below 8
      (λ j. sign_mask (8 * j) == 2 ^ (8 * j + 7) - 1 + (2 ^ (56 - 8 * j) - 1) * 2 ^ suc (8 * j + 7))
    ≡ true
unfolding all_below sign_mask
sign_mask_table = refl

sign_mask_lem :
    (j : ℕ)
    → j < 8
    → sign_mask (8 * j) ≡ 2 ^ (8 * j + 7) - 1 + (2 ^ (56 - 8 * j) - 1) * 2 ^ suc (8 * j + 7)
sign_mask_lem j h = (==_iff _ _).0 (all_below_sound 8 _ j sign_mask_table h)

signed64_small : (w : ℕ) → w < 2 ^ 63 → signed64 w ≡ pos w
signed64_small w h = rw (lt→ltb w (2 ^ 63) h)

module _ (xs : Bytes) (b : ℕ) (short : length xs ≤ 7) (hxs : All IsByte xs) (hb : b < 256) where
  or_bytes-snoc : or_bytes 0 (xs ++ b ∷ []) 0 ≡ le_value xs + b * 2 ^ (8 * length xs)
  or_bytes-snoc = omega (
    arith,
    or_bytes-le_value 0 (xs ++ b ∷ []) 0 (omega (arith, length-append xs (b ∷ [])))
        (All-snoc xs b hxs hb) (omega arith),
    le_value-snoc xs b,
  )

  below : le_value xs < 2 ^ (8 * length xs)
  below = le_value-lt xs hxs

  top : 2 ^ (8 * length xs + 7) ≡ 2 ^ (8 * length xs) * 128
  top = pow-add (8 * length xs) 7

  -- Masking off the sign bit takes 128 off the last byte.
  clear_sign :
      128 ≤ b
      → bit_and (le_value xs + b * 2 ^ (8 * length xs)) (sign_mask (8 * length xs))
        ≡ le_value xs + (b - 128) * 2 ^ (8 * length xs)
  clear_sign h =
      ap (λ (t : ℕ). bit_and (le_value xs + b * 2 ^ (8 * length xs)) t)
        (sign_mask_lem _ (omega arith))
      ∙ bit_and-clear (8 * length xs + 7) (le_value xs + b * 2 ^ (8 * length xs)) _ room
      ∙ ap (λ (t : ℕ). t % 2 ^ (8 * length xs + 7)) split
      ∙ add-mul-mod_self_right (le_value xs + (b - 128) * 2 ^ (8 * length xs)) 1 _
      ∙ mod-eq_of_lt left
    where
      room : le_value xs + b * 2 ^ (8 * length xs) < 2 ^ suc (8 * length xs + 7)
      room = grind (arith, below, top, pow-suc 2 (8 * length xs + 7))

      split :
          le_value xs + b * 2 ^ (8 * length xs)
          ≡ le_value xs + (b - 128) * 2 ^ (8 * length xs) + 1 * 2 ^ (8 * length xs + 7)
      split = omega (arith, top, ap (λ (t : ℕ). t * 2 ^ (8 * length xs)) parts)
        where
          parts : b ≡ b - 128 + 128
          parts = omega arith

      left : le_value xs + (b - 128) * 2 ^ (8 * length xs) < 2 ^ (8 * length xs + 7)
      left = grind (arith, below, top)

  -- A vector's number: the last byte holds the sign in its top bit.
  pub data_value-snoc : data_value (xs ++ b ∷ []) ≡ (
      if ltb b 128
      then pos (le_value xs + b * 2 ^ (8 * length xs))
      else minus (pos (le_value xs + (b - 128) * 2 ^ (8 * length xs))))
  unfolding data_value
  data_value-snoc = elim (Bool-cases (ltb b 128)) [
    | inl small ↦
        rw (is_negative-snoc xs b hb, small, or_bytes-snoc)
          (signed64_small _ (fits b (omega (arith, ltb→lt b 128 small))))
    | inr big ↦
        rw (is_negative-snoc xs b hb, big, or_bytes-snoc, last, clear_sign (ge big))
          (ap minus (signed64_small _ (fits (b - 128) (omega arith))))
  ]
    where
      fits : (c : ℕ) → c < 128 → le_value xs + c * 2 ^ (8 * length xs) < 2 ^ 63
      fits c h = grind (arith, below, pow_mono (8 * length xs) 56 (omega arith))

      ge : ltb b 128 ≡ false → 128 ≤ b
      ge h = ground arith

      last : length (xs ++ b ∷ []) - 1 ≡ length xs
      last = omega (arith, length-append xs (b ∷ []))
