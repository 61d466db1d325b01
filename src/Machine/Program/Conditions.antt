-- ===== src/Machine/Program/Conditions.antt =====
-- The conditional stack and its count of false values, which stands for a walk over the stack.
use bitprim_core.Common.{ℕ, ◌+◌, ◌%◌, ◌^◌, ◌≤◌, ◌<◌, ◌≡◌, refl, arith, ◌↔◌}
use bitprim_core.Common.{Bool, true, false, List, [], ◌∷◌, ◌==◌, if◌then◌else◌, length, All}
use bitprim_core.Machine.Program.{Program, open_condition, negate, close, closed, succeeded}

unfoldable pub count_false : List Bool → ℕ
count_false [] = 0
count_false (b ∷ bs) = (if b then 0 else 1) + count_false bs

-- `negative_count_` counts the false values of the conditional stack, as a size_t.
pub record IsBalanced (p : Program) : Type 0 where
  pub count : p.negative_count ≡ count_false p.condition % 2 ^ 64

count_false-le : (bs : List Bool) → count_false bs ≤ length bs
unfolding count_false
count_false-le [] = omega arith
count_false-le (true ∷ bs) = omega (arith, count_false-le bs)
count_false-le (false ∷ bs) = omega (arith, count_false-le bs)

count_false-zero : (bs : List Bool) → (count_false bs ≡ 0) ↔ All (λ b. b ≡ true) bs
unfolding count_false
count_false-zero [] = (λ e. tt, λ h. refl)
count_false-zero (true ∷ bs) = (
  λ e. (refl, (count_false-zero bs).0 (omega (arith, e))),
  λ h. omega (arith, (count_false-zero bs).1 h.1),
)
count_false-zero (false ∷ bs) = (λ e. absurd (omega (arith, e)), λ h. cc (h.0))

-- Where the counter agrees with a conditional stack of fewer than 2^64 items, operations are executed
-- exactly when every enclosing condition holds.
pub succeeded_iff :
    (p : Program)
    → IsBalanced p
    → length p.condition < 2 ^ 64
    → (succeeded p ≡ true) ↔ All (λ b. b ≡ true) p.condition
unfolding succeeded
succeeded_iff p v short = (
  λ e. (count_false-zero p.condition).0 (ground (arith, e, v.count, count_false-le p.condition)),
  λ h. ground (arith, (count_false-zero p.condition).1 h, v.count),
)

pub open_condition-IsBalanced :
    (b : Bool) (p : Program) → IsBalanced p → IsBalanced (open_condition b p)
unfolding open_condition count_false
open_condition-IsBalanced true p v = record { count = omega (arith, v.count) }
open_condition-IsBalanced false p v = record { count = omega (arith, v.count) }

-- `negate` and `close` are called where the conditional stack is not empty.
module _ (p : Program) (v : IsBalanced p) (some_left : closed p ≡ false) where
  counted :
      (bs : List Bool) (n : ℕ)
      → n ≡ count_false bs % 2 ^ 64
      → (length bs == 0) ≡ false
      → IsBalanced (negate (record p { negative_count = n; condition = bs }))
        × IsBalanced (close (record p { negative_count = n; condition = bs }))
  unfolding negate close count_false
  counted [] n e h = ground arith
  counted (true ∷ bs) n e h =
      (record { count = omega (arith, e) }, record { count = omega (arith, e) })
  counted (false ∷ bs) n e h =
      (record { count = omega (arith, e) }, record { count = omega (arith, e) })

  -- `negate` of an open conditional keeps the counter of false conditions in agreement with the
  -- conditional stack.
  pub negate-IsBalanced : IsBalanced (negate p)
  negate-IsBalanced = (counted p.condition p.negative_count v.count some_left).0

  pub close-IsBalanced : IsBalanced (close p)
  close-IsBalanced = (counted p.condition p.negative_count v.count some_left).1
