-- ===== src/Chain/Block/Locator.antt =====
-- src/chain/block.cpp: the heights of a block locator, which end at the genesis block.
use bitprim_core.Common.{ℕ, zero, suc, ◌+◌, ◌*◌, ◌%◌, ◌^◌, ◌≤◌, ◌<◌, ◌≡◌, ◌⊎◌, inl, inr, refl}
use bitprim_core.Common.{arith, List, [], ◌∷◌, Option, none, some, leb, if◌then◌else◌, ap}
use bitprim_core.Chain.Amounts.{floor_subtract, floor_subtract_lem}

abbrev pub push_height : ℕ → Option (List ℕ) → Option (List ℕ)
push_height height none = none
push_height height (some heights) = some (height ∷ heights)

-- `if (heights.size() >= 10) step <<= 1;`
unfoldable pub next_step : ℕ → ℕ → ℕ
next_step count step = if leb 10 count then step * 2 % 2 ^ 64 else step

-- `for (auto height = top; height > 0; height = floor_subtract(height, step))`, with as many heights
-- as `count` so far, for so many rounds at most.
unfoldable pub locator_loop : ℕ → ℕ → ℕ → ℕ → Option (List ℕ)
locator_loop zero height step count = none
locator_loop (suc fuel) zero step count = some (0 ∷ [])
locator_loop (suc fuel) (suc height) step count =
    let next = next_step count step in
    push_height (suc height) (locator_loop fuel (floor_subtract (suc height) next) next (suc count))

-- `block::locator_heights(top)`. Each round but the last takes off a height at least.
unfoldable pub locator_heights : ℕ → Option (List ℕ)
locator_heights top = locator_loop (suc top) top 1 0

-- The heights go down from one to the genesis block.
pub data IsDescent : ℕ → List ℕ → Type 0 where
  genesis : IsDescent 0 (0 ∷ [])
  next :
      {height below : ℕ} {heights : List ℕ}
      → below < height
      → IsDescent below heights
      → IsDescent height (height ∷ heights)

-- No step is lost by the shift in 64 bits, as the steps so far have taken as much off the height.
abbrev Fits : ℕ → ℕ → ℕ → Type 0
Fits height step count =
    (height ≡ 0)
    ⊎ (((count < 10) × (step ≡ 1) × (height + count < 2 ^ 64))
        ⊎ ((10 ≤ count) × (0 < step) × (height + 2 * step ≤ 2 ^ 64)))

Fits-next_step :
    (height step count : ℕ)
    → 0 < height
    → Fits height step count
    → (0 < next_step count step)
      × Fits (floor_subtract height (next_step count step)) (next_step count step) (suc count)
unfolding next_step floor_subtract
Fits-next_step height step count h fits = ground arith

descent :
    (fuel height step count : ℕ)
    → height < fuel
    → Fits height step count
    → (heights : List ℕ) × ((locator_loop fuel height step count ≡ some heights)
        × IsDescent height heights)
unfolding locator_loop
descent zero height step count h fits = absurd (omega (arith, h))
descent (suc fuel) zero step count h fits = (0 ∷ [], (refl, genesis))
descent (suc fuel) (suc height) step count h fits =
    let step' = next_step count step in
    let lower = floor_subtract_lem (suc height) step' in
    let (some_step, fits') = Fits-next_step (suc height) step count (omega arith) fits in
    let (heights, (found, down)) =
      descent fuel (floor_subtract (suc height) step') step' (suc count)
        (omega (arith, h, lower, some_step)) fits' in
    (
      suc height ∷ heights,
      (ap (push_height (suc height)) found, next (omega (arith, lower, some_step)) down),
    )

-- The locator of any height of 64 bits is found, and its heights go down from there to the genesis
-- block, each below the one before it.
pub locator_heights-IsDescent :
    (top : ℕ)
    → top < 2 ^ 64
    → (heights : List ℕ) × ((locator_heights top ≡ some heights) × IsDescent top heights)
unfolding locator_heights
locator_heights-IsDescent top h =
    descent (suc top) top 1 0 (omega arith) (inr (inl (omega arith, refl, omega (arith, h))))
