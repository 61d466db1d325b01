-- ===== src/Chain/Amounts.antt =====
-- include/bitcoin/bitcoin/math/limits.hpp and the amounts of constants.hpp: sums that stop at the
-- largest number of 64 bits.
use bitprim_core.Common.{ℕ, ◌+◌, ◌-◌, ◌*◌, ◌^◌, ◌≤◌, ◌≡◌, min, arith, Bool}
use bitprim_core.Common.{List, [], ◌∷◌, ltb, leb, if◌then◌else◌, All}

abbrev pub max_uint64 : ℕ
max_uint64 = 2 ^ 64 - 1

-- `ceiling_add`, for integers of 64 bits.
unfoldable pub ceiling_add : ℕ → ℕ → ℕ
ceiling_add left right = if ltb (max_uint64 - right) left then max_uint64 else left + right

-- `floor_subtract`, for unsigned integers.
unfoldable pub floor_subtract : ℕ → ℕ → ℕ
floor_subtract left right = if leb left right then 0 else left - right

-- `std::accumulate` with `ceiling_add`.
unfoldable pub accumulate : {A : Type 0} → (A → ℕ) → List A → ℕ → ℕ
accumulate value [] total = total
accumulate value (a ∷ list) total = accumulate value list (ceiling_add total (value a))

-- The sum that is not cut.
unfoldable pub sum : {A : Type 0} → (A → ℕ) → List A → ℕ
sum value [] = 0
sum value (a ∷ list) = value a + sum value list

abbrev pub satoshi_per_bitcoin : ℕ
satoshi_per_bitcoin = 100_000_000

abbrev pub bitcoin_to_satoshi : ℕ → ℕ
bitcoin_to_satoshi bitcoin_uints = bitcoin_uints * satoshi_per_bitcoin

abbrev pub initial_block_subsidy_satoshi : ℕ
initial_block_subsidy_satoshi = bitcoin_to_satoshi 50

-- For a currency other than Litecoin.
abbrev pub subsidy_interval : Bool → ℕ
subsidy_interval retarget = if retarget then 210_000 else 150

abbrev pub recursive_money : ℕ
recursive_money = 0x02_540b_e3f5

abbrev pub max_money : Bool → ℕ
max_money retarget = recursive_money * subsidy_interval retarget

pub ceiling_add_lem :
    (left right : ℕ) → right ≤ max_uint64 → ceiling_add left right ≡ min max_uint64 (left + right)
unfolding ceiling_add
ceiling_add_lem left right h = ground arith

pub floor_subtract_lem : (left right : ℕ) → floor_subtract left right ≡ left - right
unfolding floor_subtract
floor_subtract_lem left right = ground arith

module _ {A : Type 0} (value : A → ℕ) where
  accumulated :
      (list : List A) (total : ℕ)
      → All (λ a. value a ≤ max_uint64) list
      → total ≤ max_uint64
      → accumulate value list total ≡ min max_uint64 (total + sum value list)
  unfolding accumulate sum
  accumulated [] total bound h = omega (arith, h)
  accumulated (a ∷ list) total (first, bound) h =
      let next = ceiling_add_lem total (value a) first in
      omega
        (arith, next, accumulated list (ceiling_add total (value a)) bound (omega (arith, next)))

  -- A sum of amounts of 64 bits that stops at the largest is the exact sum, cut there once.
  pub accumulate-sum :
      (list : List A)
      → All (λ a. value a ≤ max_uint64) list
      → accumulate value list 0 ≡ min max_uint64 (sum value list)
  accumulate-sum list bound = omega (arith, accumulated list 0 bound (omega arith))
