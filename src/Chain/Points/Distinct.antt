-- ===== src/Chain/Points/Distinct.antt =====
-- What the search for equal points among sorted ones finds: src/chain/transaction.cpp and
-- src/chain/block.cpp.
use bitprim_core.Common.{◌≡◌, refl, sym, ◌∙◌, ap, ap₂, arith, Bool, true, false, ◌||◌, List}
use bitprim_core.Common.{[], ◌∷◌, Bool-cases, All, inl, inr, if◌then◌else◌}
use bitprim_core.Chain.Types.{Point}
use bitprim_core.Chain.Points.{less, equal, insert, sort, has_equal_neighbours}
use bitprim_core.Chain.Points.Order.{less_asym, less_trans, less_same, less-equal, less-equal-not}

-- Some point of a list is equal to one.
unfoldable pub has : Point → List Point → Bool
has point [] = false
has point (other ∷ points) = equal point other || has point points

-- Two points of a list are equal.
unfoldable pub has_equal : List Point → Bool
has_equal [] = false
has_equal (point ∷ points) = has point points || has_equal points

-- No later point is before an earlier one.
abbrev IsSorted : List Point → Type 0
IsSorted [] = Unit
IsSorted (point ∷ points) = All (λ other. less other point ≡ false) points × IsSorted points

insert_behind :
    (p q : Point) (points : List Point)
    → less q p ≡ true
    → insert p (q ∷ points) ≡ q ∷ insert p points
unfolding insert
insert_behind p q points e = ap (λ b. if b then q ∷ insert p points else p ∷ q ∷ points) e

insert_before :
    (p q : Point) (points : List Point) → less q p ≡ false → insert p (q ∷ points) ≡ p ∷ q ∷ points
unfolding insert
insert_before p q points e = ap (λ b. if b then q ∷ insert p points else p ∷ q ∷ points) e

All-insert :
    (p q : Point) (points : List Point)
    → less p q ≡ false
    → All (λ other. less other q ≡ false) points
    → All (λ other. less other q ≡ false) (insert p points)
unfolding insert
All-insert p q [] h all = (h, tt)
All-insert p q (other ∷ points) h (first, all) = elim (Bool-cases (less other p)) [
  | inl e ↦ rw (insert_behind p other points e) (first, All-insert p q points h all)
  | inr e ↦ rw (insert_before p other points e) (h, (first, all))
]

All-less :
    (p q : Point) (points : List Point)
    → less q p ≡ false
    → All (λ other. less other q ≡ false) points
    → All (λ other. less other p ≡ false) points
All-less p q [] h all = tt
All-less p q (other ∷ points) h (first, all) =
    (less_trans other q p first h, All-less p q points h all)

insert-IsSorted : (p : Point) (points : List Point) → IsSorted points → IsSorted (insert p points)
unfolding insert
insert-IsSorted p [] sorted = (tt, tt)
insert-IsSorted p (q ∷ points) (all, sorted) = elim (Bool-cases (less q p)) [
  | inl e ↦
      rw (insert_behind p q points e)
        (All-insert p q points (less_asym q p e) all, insert-IsSorted p points sorted)
  | inr e ↦ rw (insert_before p q points e) ((e, All-less p q points e all), (all, sorted))
]

sort-IsSorted : (points : List Point) → IsSorted (sort points)
unfolding sort
sort-IsSorted [] = tt
sort-IsSorted (point ∷ points) = insert-IsSorted point (sort points) (sort-IsSorted points)

has-insert :
    (p q : Point) (points : List Point) → has p (insert q points) ≡ (equal p q || has p points)
unfolding has insert
has-insert p q [] = refl
has-insert p q (other ∷ points) = ground (arith, has-insert p q points)

has-sort : (p : Point) (points : List Point) → has p (sort points) ≡ has p points
unfolding has sort
has-sort p [] = refl
has-sort p (point ∷ points) =
    has-insert p point (sort points) ∙ ap (λ rest. equal p point || rest) (has-sort p points)

-- The first of a list is equal to a point.
abbrev first_equal : Point → List Point → Bool
first_equal point [] = false
first_equal point (other ∷ points) = equal point other

neighbours_lem :
    (p : Point) (points : List Point)
    → has_equal_neighbours (p ∷ points) ≡ (first_equal p points || has_equal_neighbours points)
unfolding has_equal_neighbours
neighbours_lem p [] = refl
neighbours_lem p (other ∷ points) = refl

less_not_equal : (p q : Point) → less p q ≡ true → equal p q ≡ false
less_not_equal p q h = elim (Bool-cases (equal p q)) [
  | inl e ↦ absurd (ground (arith, h, (less-equal-not p q e).0))
  | inr e ↦ e
]

greater_not_equal : (p q : Point) → less p q ≡ true → equal q p ≡ false
greater_not_equal p q h = elim (Bool-cases (equal q p)) [
  | inl e ↦ absurd (ground (arith, h, (less-equal-not q p e).1))
  | inr e ↦ e
]

less_between : (p q r : Point) → less q p ≡ true → less r p ≡ false → equal q r ≡ false
less_between p q r h k = elim (Bool-cases (equal q r)) [
  | inl e ↦ absurd (ground (arith, h, k, (less-equal q r p e).0))
  | inr e ↦ e
]

-- A point that goes in behind another does not change whether the next to that is equal to it.
first_equal-insert :
    (p q : Point) (points : List Point)
    → less q p ≡ true
    → first_equal q (insert p points) ≡ first_equal q points
unfolding insert
first_equal-insert p q [] h = less_not_equal q p h
first_equal-insert p q (r ∷ points) h = elim (Bool-cases (less r p)) [
  | inl e ↦ ap (first_equal q) (insert_behind p r points e)
  | inr e ↦
      ap (first_equal q) (insert_before p r points e)
      ∙ less_not_equal q p h
      ∙ sym (less_between p q r h e)
]

-- A point that is in a sorted list, and is not behind its first, is equal to its first.
has_first :
    (p q : Point) (points : List Point)
    → less q p ≡ false
    → All (λ other. less other q ≡ false) points
    → has p points ≡ true
    → equal p q ≡ true
unfolding has
has_first p q [] h all found = absurd (ground (arith, found))
has_first p q (other ∷ points) h (first, all) found = elim (Bool-cases (equal p other)) [
  | inl e ↦ less_same p q ((less-equal p other q e).0 ∙ first) h
  | inr e ↦ has_first p q points h all (ground (arith, found, e))
]

swap_tests : (a b c : Bool) → (a || (b || c)) ≡ (b || (a || c))
swap_tests a b c = ground arith

absorb_test : (a b c : Bool) → (b ≡ true → a ≡ true) → (a || c) ≡ ((a || b) || c)
absorb_test true b c h = refl
absorb_test false true c h = absurd (ground (arith, h refl))
absorb_test false false c h = refl

neighbours-insert :
    (p : Point) (points : List Point)
    → IsSorted points
    → has_equal_neighbours (insert p points) ≡ (has p points || has_equal_neighbours points)
unfolding has has_equal_neighbours insert
neighbours-insert p [] sorted = refl
neighbours-insert p (q ∷ points) (all, sorted) = elim (Bool-cases (less q p)) [
  | inl e ↦
      ap has_equal_neighbours (insert_behind p q points e)
      ∙ neighbours_lem q (insert p points)
      ∙ ap₂ (λ a b. a || b) (first_equal-insert p q points e) (neighbours-insert p points sorted)
      ∙ swap_tests (first_equal q points) (has p points) (has_equal_neighbours points)
      ∙ ap₂ (λ a b. (a || has p points) || b) (sym (greater_not_equal q p e))
          (sym (neighbours_lem q points))
  | inr e ↦
      ap has_equal_neighbours (insert_before p q points e)
      ∙ absorb_test (equal p q) (has p points) (has_equal_neighbours (q ∷ points))
          (has_first p q points e all)
]

-- Sorting points and looking for equal neighbours finds out whether two of them are equal.
pub has_equal_neighbours-sort :
    (points : List Point) → has_equal_neighbours (sort points) ≡ has_equal points
unfolding has_equal sort has_equal_neighbours
has_equal_neighbours-sort [] = refl
has_equal_neighbours-sort (p ∷ points) =
    neighbours-insert p (sort points) (sort-IsSorted points)
    ∙ ap₂ (λ a b. a || b) (has-sort p points) (has_equal_neighbours-sort points)
