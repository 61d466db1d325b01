-- ===== src/Chain/Block/Subsidy.antt =====
-- All the subsidies: src/chain/block.cpp and include/bitcoin/bitcoin/constants.hpp.
use bitprim_core.Common.{ℕ, zero, suc, ◌+◌, ◌*◌, ◌/◌, ◌^◌, ◌≤◌, ◌<◌, ◌≡◌, refl, ◌∙◌, ap}
use bitprim_core.Common.{arith, Bool, true, false, leb, if◌then◌else◌}
use native.Mathlib.Nat.{add-mul, mul_comm}
use bitprim_core.Chain.Amounts.{initial_block_subsidy_satoshi, subsidy_interval, max_money}
use bitprim_core.Chain.Block.{subsidy}

-- The subsidies of all the blocks below a height.
unfoldable pub subsidies : Bool → ℕ → ℕ
subsidies retarget zero = 0
subsidies retarget (suc height) = subsidies retarget height + subsidy height retarget

-- The subsidies of a block of each interval so far.
abbrev pub halved_sum : ℕ → ℕ
halved_sum zero = 0
halved_sum (suc intervals) = halved_sum intervals + initial_block_subsidy_satoshi / 2 ^ intervals

subsidy_at :
    (retarget : Bool) (height halvings : ℕ)
    → height / subsidy_interval retarget ≡ halvings
    → halvings < 64
    → subsidy height retarget ≡ initial_block_subsidy_satoshi / 2 ^ halvings
unfolding subsidy
subsidy_at retarget height halvings e h =
    ap (λ n. initial_block_subsidy_satoshi / 2 ^ (if leb 64 n then 0 else n)) e
    ∙ ap (λ b. initial_block_subsidy_satoshi / 2 ^ (if b then 0 else halvings)) (not_yet halvings h)
  where
    not_yet : (n : ℕ) → n < 64 → leb 64 n ≡ false
    not_yet n lt = ground (arith, lt)

in_interval :
    (retarget : Bool) (n k : ℕ)
    → k < subsidy_interval retarget
    → (n * subsidy_interval retarget + k) / subsidy_interval retarget ≡ n
in_interval true n k h = omega (arith, h)
in_interval false n k h = omega (arith, h)

within_interval :
    (retarget : Bool) (n k : ℕ)
    → n < 64
    → k ≤ subsidy_interval retarget
    → subsidies retarget (n * subsidy_interval retarget + k)
      ≡ subsidies retarget (n * subsidy_interval retarget)
        + k * (initial_block_subsidy_satoshi / 2 ^ n)
unfolding subsidies
within_interval retarget n zero h le =
    let start : n * subsidy_interval retarget + 0 ≡ n * subsidy_interval retarget = omega arith in
    ap (subsidies retarget) start ∙ omega arith
within_interval retarget n (suc k) h le =
    let height = n * subsidy_interval retarget + k in
    let next : n * subsidy_interval retarget + suc k ≡ suc height = omega arith in
    let here = subsidy_at retarget height n (in_interval retarget n k (omega (arith, le))) h in
    let each = initial_block_subsidy_satoshi / 2 ^ n in
    ap (subsidies retarget) next
    ∙ omega (arith, here, within_interval retarget n k h (omega (arith, le)))

-- One more interval.
sum_step :
    (total paid each interval : ℕ)
    → total ≡ paid * interval
    → total + interval * each ≡ (paid + each) * interval
sum_step total paid each interval h =
    omega (arith, h, add-mul paid each interval, mul_comm interval each)

whole_intervals :
    (retarget : Bool) (n : ℕ)
    → n ≤ 64
    → subsidies retarget (n * subsidy_interval retarget) ≡ halved_sum n * subsidy_interval retarget
unfolding subsidies
whole_intervals retarget zero h =
    let start : 0 * subsidy_interval retarget ≡ 0 = omega arith in
    ap (subsidies retarget) start ∙ omega arith
whole_intervals retarget (suc n) h =
    let interval = subsidy_interval retarget in
    let each = initial_block_subsidy_satoshi / 2 ^ n in
    let next : suc n * interval ≡ n * interval + interval = omega arith in
    ap (subsidies retarget) next
    ∙ within_interval retarget n interval (omega (arith, h)) (omega arith)
    ∙ sum_step _ (halved_sum n) each interval (whole_intervals retarget n (omega (arith, h)))

-- All the money is the sum of the subsidies of the blocks below the height of the 64th interval.
pub subsidies-max_money :
    (retarget : Bool) → subsidies retarget (64 * subsidy_interval retarget) ≡ max_money retarget
subsidies-max_money retarget = whole_intervals retarget 64 (omega arith) ∙ refl

-- From that height on a block has the first subsidy again, as its shift is taken for none.
pub subsidy_restarts :
    (retarget : Bool) (height : ℕ)
    → 64 * subsidy_interval retarget ≤ height
    → subsidy height retarget ≡ subsidy 0 retarget
unfolding subsidy
subsidy_restarts true height h = ground (arith, h)
subsidy_restarts false height h = ground (arith, h)
