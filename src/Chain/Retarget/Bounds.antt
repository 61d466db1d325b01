-- ===== src/Chain/Retarget/Bounds.antt =====
-- How far the work that is required moves: src/chain/chain_state.cpp.
use bitprim_core.Common.{ℕ, ◌+◌, ◌*◌, ◌^◌, ◌≤◌, ◌<◌, ◌≡◌, refl}
use bitprim_core.Common.{arith, true, some, ltb, Bool-cases, inl, inr}
use bitprim_core.Common.Int.{ℤ, pos, negsuc}
use native.Mathlib.Nat.{mul-le-mul_left}
use bitprim_core.Chain.Compact.{from_compact, is_negated, is_overflow, log_256}
use bitprim_core.Chain.Compact.Rounding.{from_compact-from_big}
use bitprim_core.Chain.ProofOfWork.{work_limit, limit}
use bitprim_core.Chain.Retarget.{
  RetargetData, bits_high, min_timespan, max_timespan, range_constrain, retarget_timespan,
  next_target, limited, work_required_retarget,
}

constrained :
    (value : ℤ) (minimum maximum : ℕ)
    → minimum ≤ maximum
    → (minimum ≤ range_constrain value minimum maximum)
      × (range_constrain value minimum maximum ≤ maximum)
unfolding range_constrain
constrained (pos n) minimum maximum h = (ground (arith, h), ground (arith, h))
constrained (negsuc n) minimum maximum h = (ground (arith, h), ground (arith, h))

timespan_range :
    (values : RetargetData)
    → (min_timespan ≤ retarget_timespan values) × (retarget_timespan values ≤ max_timespan)
unfolding retarget_timespan
timespan_range values = constrained _ min_timespan max_timespan (omega arith)

limit_value : limit true ≡ 0xffff * 2 ^ 208
unfolding limit from_compact is_negated is_overflow log_256
limit_value = refl

limit_reads : from_compact (work_limit true) ≡ some (limit true)
unfolding limit from_compact is_negated is_overflow log_256
limit_reads = refl

-- A target that is taken over, or is four times as small or as large.
record IsNear (target next : ℕ) : Type 0 where
  above : next ≤ 4 * target
  below : target ≤ 4 * next + 3

next_target-IsNear :
    (target timespan : ℕ)
    → target ≤ limit true
    → min_timespan ≤ timespan
    → timespan ≤ max_timespan
    → IsNear target (next_target target timespan)
unfolding next_target
next_target-IsNear target timespan small lo hi =
    let product = target * timespan in
    let most : product ≤ target * max_timespan = mul-le-mul_left target hi in
    let least : target * min_timespan ≤ product = mul-le-mul_left target lo in
    record {
      above = omega (arith, small, limit_value, most, least);
      below = omega (arith, small, limit_value, most, least);
    }

-- The target of the next bits, beside the last target: within the limit, no more than four times as
-- large, and no less than a fourth, but for three and the rounding of the compact form to 15 digits.
pub record IsNextWork (target : ℕ) (bits : ℕ) : Type 0 where
  pub next : ℕ
  pub reads : from_compact bits ≡ some next
  pub within : next ≤ limit true
  pub above : next ≤ 4 * target
  pub below : target * 2 ^ 15 ≤ (4 * next + 3) * (2 ^ 15 + 1)

limited-IsNextWork :
    (target next : ℕ) → target ≤ limit true → IsNear target next → IsNextWork target (limited next)
unfolding limited
limited-IsNextWork target next small near = elim (Bool-cases (ltb (limit true) next)) [
  | inl over ↦ rw over (record {
    next = limit true;
    reads = limit_reads;
    within = omega arith;
    above = ground (arith, over, near.above);
    below = omega (arith, small);
  })
  | inr inside ↦
      let fits : next < 2 ^ 256 = ground (arith, inside, limit_value) in
      let (r, reads, rounds) = from_compact-from_big next fits in
      rw inside (record {
        next = r;
        reads = reads;
        within = ground (arith, inside, rounds.below);
        above = omega (arith, near.above, rounds.below);
        below = omega (arith, near.below, rounds.close, rounds.below);
      })
]

-- Where the last bits have a target within the limit, the bits that a retarget requires have one
-- that is within the limit, no more than four times as large, and no less than a fourth, but for
-- three and the rounding of the compact form to 15 binary digits.
pub work_required_retarget-IsNextWork :
    (values : RetargetData) (target : ℕ)
    → from_compact (bits_high values) ≡ some target
    → target ≤ limit true
    → IsNextWork target (work_required_retarget values)
unfolding work_required_retarget
work_required_retarget-IsNextWork values target reads small =
    let (lo, hi) = timespan_range values in
    rw (work_required_retarget, reads)
      (limited-IsNextWork target (next_target target (retarget_timespan values)) small
        (next_target-IsNear target (retarget_timespan values) small lo hi))
