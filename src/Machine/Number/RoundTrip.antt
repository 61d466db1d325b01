-- ===== src/Machine/Number/RoundTrip.antt =====
-- `data` after `set_data` and the other way round: the encoding of a script number.
use bitprim_core.Common.{ℕ, zero, suc, ◌+◌, ◌-◌, ◌*◌, ◌/◌, ◌%◌, ◌^◌, ◌≤◌, ◌<◌, ◌≡◌, refl, ap}
use bitprim_core.Common.{◌∙◌, arith, bit_or, Bool, true, false, not, some, []}
use bitprim_core.Common.{◌∷◌, ◌++◌, ltb, ltb→lt, Bool-cases, inl, inr, ◌==◌, ◌⊎◌}
use bitprim_core.Common.{if◌then◌else◌, length, length-append, All, Bytes, IsByte}
use native.Mathlib.Decide.{dec_le}
use bitprim_core.Common.Int.{pos, negsuc, nat_abs, ltb_ℤ, eqb_ℤ}
use bitprim_core.Common.Bits.{bit_or-disjoint, pow_pos}
use bitprim_core.Common.Digits.{byte_pow, pow-add, pow_mono, le_value, le_value-snoc}
use bitprim_core.Machine.Number.{Number, is_negative, minus, data_value, set_data, or_back}
use bitprim_core.Machine.Number.{absolute_bytes, with_sign, number_data, negative_mask}
use bitprim_core.Machine.Number.Layout.{is_negative-snoc, or_back-snoc, data_value-snoc, All-snoc}

-- The bytes of `bs` end in `last`, and `value` is the number below the top bit of `last`.
record Ends (bs : Bytes) (value : ℕ) : Type 0 where
  init : Bytes
  last : ℕ
  whole : bs ≡ init ++ last ∷ []
  all_bytes : All IsByte init
  low : 0 < last
  high : last < 256
  sum : le_value init + last * 2 ^ (8 * length init) ≡ value

absolute_bytes-zero : (f : ℕ) → absolute_bytes f 0 ≡ []
unfolding absolute_bytes
absolute_bytes-zero zero = refl
absolute_bytes-zero (suc f) = refl

absolute_bytes-Ends : (f a : ℕ) → 0 < a → a < 2 ^ (8 * f) → Ends (absolute_bytes f a) a
unfolding absolute_bytes le_value
absolute_bytes-Ends zero a h lt = absurd (omega arith)
absolute_bytes-Ends (suc f) a h lt = elim (Bool-cases (a / 256 == 0)) [
  | inl e ↦ record {
    init = [];
    last = a;
    whole = ground (arith, absolute_bytes-zero f);
    all_bytes = tt;
    low = h;
    high = ground arith;
    sum = omega arith;
  }
  | inr e ↦
      let rest = absolute_bytes-Ends f (a / 256) (ground arith) (omega (arith, byte_pow f)) in
      record {
        init = (a % 256) ∷ rest.init;
        last = rest.last;
        whole = ground (arith, rest.whole);
        all_bytes = (omega arith, rest.all_bytes);
        low = rest.low;
        high = rest.high;
        sum = omega (arith, rest.sum, ap (λ (t : ℕ). rest.last * t) (byte_pow (length rest.init)));
      }
]

absolute_bytes-short : (f a : ℕ) → length (absolute_bytes f a) ≤ f
unfolding absolute_bytes
absolute_bytes-short zero a = omega arith
absolute_bytes-short (suc f) a = ground (arith, absolute_bytes-short f (a / 256))

-- What `data` writes: bytes with the sign in the top bit of the last.
record Encodes (neg : Bool) (a : ℕ) (bs : Bytes) : Type 0 where
  init : Bytes
  last : ℕ
  whole : bs ≡ init ++ last ∷ []
  all_bytes : All IsByte init
  high : last < 256
  sign : ltb last 128 ≡ not neg
  sum : le_value init + last % 128 * 2 ^ (8 * length init) ≡ a
  minimal : 2 ^ (8 * length init) ≤ 2 * a

module _ (bs : Bytes) (a : ℕ) (e : Ends bs a) where
  open e use {init, last, whole, all_bytes, low, high, sum}

  negative : is_negative bs ≡ not (ltb last 128)
  negative = rw whole (is_negative-snoc init last high)

  -- The top bit is taken: one more byte holds the sign.
  extended :
      (neg : Bool) (s : ℕ)
      → 128 ≤ last
      → s < 256
      → s % 128 ≡ 0
      → ltb s 128 ≡ not neg
      → Encodes neg a (bs ++ s ∷ [])
  extended neg s h hs hm hn = record {
    init = init ++ last ∷ [];
    last = s;
    whole = ap (λ (l : Bytes). l ++ s ∷ []) whole;
    all_bytes = All-snoc init last all_bytes high;
    high = hs;
    sign = hn;
    sum = rw hm (omega (arith, le_value-snoc init last, sum));
    minimal = rw longer (grind (arith, byte_pow (length init), sum));
  }
    where
      longer : length (init ++ last ∷ []) ≡ suc (length init)
      longer = omega (arith, length-append init (last ∷ []))

  -- The top bit is free.
  kept :
      (neg : Bool) (s : ℕ)
      → s < 256
      → s % 128 ≡ last
      → ltb s 128 ≡ not neg
      → Encodes neg a (init ++ s ∷ [])
  kept neg s hs hm hn = record {
    init = init;
    last = s;
    whole = refl;
    all_bytes = all_bytes;
    high = hs;
    sign = hn;
    sum = rw hm sum;
    minimal = grind (arith, sum, pow_pos (8 * length init));
  }

  with_sign-Encodes : (neg : Bool) → Encodes neg a (with_sign bs neg)
  with_sign-Encodes neg = elim (Bool-cases (ltb last 128)) [
    | inl small ↦ rw (negative, small) (free neg (omega (arith, ltb→lt last 128 small)))
    | inr big ↦ rw (negative, big) (taken neg (ground arith))
  ]
    where
      free : (neg : Bool) → last < 128 → Encodes neg a (if neg then or_back bs else bs)
      free true h =
          rw (whole, or_back-snoc, or_sign)
            (kept true (last + 128) (omega arith) (omega arith) (ground arith))
        where
          or_sign : bit_or last negative_mask ≡ last + 128
          or_sign = bit_or-disjoint 7 last 1 h
      free false h = rw whole (kept false last high (omega arith) (ground arith))

      taken :
          (neg : Bool)
          → 128 ≤ last
          → Encodes neg a (if neg then bs ++ negative_mask ∷ [] else bs ++ 0 ∷ [])
      taken true h = extended true negative_mask h (omega arith) (omega arith) refl
      taken false h = extended false 0 h (omega arith) (omega arith) refl

pub number_data-zero : number_data (pos 0) ≡ []
unfolding number_data
number_data-zero = refl

number_data-Encodes :
    (n : Number)
    → 0 < nat_abs n
    → nat_abs n < 2 ^ 63
    → Encodes (ltb_ℤ n (pos 0)) (nat_abs n) (number_data n)
unfolding number_data
number_data-Encodes n h lt = rw nonzero (with_sign-Encodes _ _ ends _)
  where
    nonzero : eqb_ℤ n (pos 0) ≡ false
    nonzero = ground arith

    ends : Ends (absolute_bytes 8 (nat_abs n)) (nat_abs n)
    ends = absolute_bytes-Ends 8 (nat_abs n) h (omega arith)

-- The number that a last byte `b` over `low` gives, by its sign.
signed_sum :
    (n : Number) (low b unit : ℕ)
    → b < 256
    → ltb b 128 ≡ not (ltb_ℤ n (pos 0))
    → low + b % 128 * unit ≡ nat_abs n
    → (if ltb b 128 then pos (low + b * unit) else minus (pos (low + (b - 128) * unit))) ≡ n
signed_sum (pos m) low b unit hb hs he = rw hs (rw plus (ap pos (omega (arith, he, same))))
  where
    plus : ltb_ℤ (pos m) (pos 0) ≡ false
    plus = ground arith

    same : b % 128 * unit ≡ b * unit
    same = ap (λ (t : ℕ). t * unit) (ground arith)
signed_sum (negsuc m) low b unit hb hs he =
    rw (hs, below_zero) (ap (λ (t : ℕ). minus (pos t)) total)
  where
    same : b % 128 * unit ≡ (b - 128) * unit
    same = ap (λ (t : ℕ). t * unit) (ground arith)

    below_zero : ltb_ℤ (negsuc m) (pos 0) ≡ true
    below_zero = ground arith

    total : low + (b - 128) * unit ≡ suc m
    total = omega (arith, he, same)

data_value-Encodes :
    (n : Number) (bs : Bytes) (e : Encodes (ltb_ℤ n (pos 0)) (nat_abs n) bs)
    → length bs ≤ 8
    → data_value bs ≡ n
data_value-Encodes n bs e short =
    rw (e.whole, data_value-snoc e.init e.last shorter e.all_bytes e.high)
      (signed_sum n (le_value e.init) e.last (2 ^ (8 * length e.init)) e.high e.sign e.sum)
  where
    shorter : length e.init ≤ 7
    shorter =
        omega (arith, ap (λ (l : Bytes). length l) e.whole, length-append e.init (e.last ∷ []))

pub Number-cases : (n : Number) → (n ≡ pos 0) ⊎ (0 < nat_abs n)
Number-cases (pos zero) = inl refl
Number-cases (pos (suc n)) = inr (omega arith)
Number-cases (negsuc n) = inr (omega arith)

set_data_fits :
    (bs : Bytes) (max_size : ℕ)
    → 0 < length bs
    → length bs ≤ max_size
    → set_data bs max_size ≡ some (data_value bs)
unfolding set_data
set_data_fits bs max_size h le = ground arith

length-Encodes :
    {neg : Bool} {a : ℕ} {bs : Bytes} (e : Encodes neg a bs) → length bs ≡ length e.init + 1
length-Encodes {bs = bs} e =
    ap (λ (l : Bytes). length l) e.whole ∙ length-append e.init (e.last ∷ [])

-- `set_data` reads back what `data` wrote for every number below 2^63 in absolute value, where the
-- size limit is at most 8 bytes and admits the encoding.
pub set_data-number_data :
    (n : Number) (max_size : ℕ)
    → nat_abs n < 2 ^ 63
    → length (number_data n) ≤ max_size
    → max_size ≤ 8
    → set_data (number_data n) max_size ≡ some n
set_data-number_data n max_size lt h h8 = elim (Number-cases n) [
  | inl e ↦ rw (e, number_data-zero) (unfold set_data in refl_zero)
  | inr p ↦
      let e = number_data-Encodes n p lt in
      set_data_fits (number_data n) max_size (omega (arith, length-Encodes e)) h
      ∙ ap some (data_value-Encodes n _ e (omega arith))
]
  where
    refl_zero : set_data [] max_size ≡ some (pos 0)
    refl_zero = unfold set_data in ground arith

-- A number of at most `8 * k + 7` binary digits is written in at most `k + 1` bytes, for `k` up to 7.
pub length-number_data :
    (n : Number) (k : ℕ) → k ≤ 7 → nat_abs n < 2 ^ (8 * k + 7) → length (number_data n) ≤ k + 1
length-number_data n k hk h = elim (Number-cases n) [
  | inl e ↦ rw (e, number_data-zero) (omega arith)
  | inr p ↦ bounded (number_data-Encodes n p (omega (arith, pow_mono (8 * k + 7) 63 (omega arith))))
]
  where
    bounded : Encodes (ltb_ℤ n (pos 0)) (nat_abs n) (number_data n) → length (number_data n) ≤ k + 1
    bounded e = elim (dec_le (length e.init) k) [
      | yes small ↦ omega (arith, length-Encodes e)
      | no large ↦ absurd (
          omega (
            arith,
            e.minimal,
            pow_mono (8 * suc k) (8 * length e.init) (omega arith),
            pow-add (8 * k) 7,
            byte_pow k,
          ))
    ]
