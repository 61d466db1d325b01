-- ===== src/Chain/Points/Order.antt =====
-- The order of points is total, up to the equality that the source tests: src/chain/point.cpp.
use bitprim_core.Common.{◌≡◌, refl, ◌∙◌, ap₂, arith, true, false}
use bitprim_core.Common.{[], ◌∷◌, Bytes, bytes_eq, bytes_eq→eq, ltb, ◌==◌, if◌then◌else◌}
use bitprim_core.Chain.Types.{Point}
use bitprim_core.Chain.Points.{less_bytes, less, equal}

bytes_asym : (a b : Bytes) → less_bytes a b ≡ true → less_bytes b a ≡ false
unfolding less_bytes
bytes_asym a [] h = ground (arith, h)
bytes_asym [] (y ∷ b) h = refl
bytes_asym (x ∷ a) (y ∷ b) h = ground (arith, h, bytes_asym a b)

bytes_trans :
    (a b c : Bytes) → less_bytes a b ≡ false → less_bytes b c ≡ false → less_bytes a c ≡ false
unfolding less_bytes
bytes_trans a b [] h k = refl
bytes_trans [] [] (z ∷ c) h k = ground (arith, h, k)
bytes_trans [] (y ∷ b) (z ∷ c) h k = ground (arith, h, k)
bytes_trans (x ∷ a) [] (z ∷ c) h k = ground (arith, h, k)
bytes_trans (x ∷ a) (y ∷ b) (z ∷ c) h k = ground (arith, h, k, bytes_trans a b c)

bytes_same : (a b : Bytes) → less_bytes a b ≡ false → less_bytes b a ≡ false → bytes_eq a b ≡ true
unfolding less_bytes
bytes_same [] [] h k = refl
bytes_same [] (y ∷ b) h k = ground (arith, h)
bytes_same (x ∷ a) [] h k = ground (arith, k)
bytes_same (x ∷ a) (y ∷ b) h k = ground (arith, h, k, bytes_same a b)

bytes_irreflexive : (a : Bytes) → less_bytes a a ≡ false
unfolding less_bytes
bytes_irreflexive [] = refl
bytes_irreflexive (x ∷ a) = ground (arith, bytes_irreflexive a)

pub less_asym : (p q : Point) → less p q ≡ true → less q p ≡ false
unfolding less
less_asym p q h = ground (arith, h, bytes_asym p.hash q.hash)

pub less_trans : (p q r : Point) → less p q ≡ false → less q r ≡ false → less p r ≡ false
unfolding less
less_trans p q r h k = ground (arith, h, k, bytes_trans p.hash q.hash r.hash)

pub less_same : (p q : Point) → less p q ≡ false → less q p ≡ false → equal p q ≡ true
unfolding less equal
less_same p q h k = ground (arith, h, k, bytes_same p.hash q.hash)

equal_parts : (p q : Point) → equal p q ≡ true → (p.hash ≡ q.hash) × (p.index ≡ q.index)
unfolding equal
equal_parts p q h = (bytes_eq→eq p.hash q.hash (ground (arith, h)), ground (arith, h))

-- Equal points are before the same points, and behind the same points.
pub less-equal : (p q r : Point) → equal p q ≡ true → (less p r ≡ less q r) × (less r p ≡ less r q)
unfolding less
less-equal p q r h =
    let (hash, index) = equal_parts p q h in
    (
      ap₂ (λ a i. if i == r.index then less_bytes a r.hash else ltb i r.index) hash index,
      ap₂ (λ a i. if r.index == i then less_bytes r.hash a else ltb r.index i) hash index,
    )

pub less_irreflexive : (p : Point) → less p p ≡ false
unfolding less
less_irreflexive p = ground (arith, bytes_irreflexive p.hash)

-- Of equal points neither is before the other.
pub less-equal-not : (p q : Point) → equal p q ≡ true → (less p q ≡ false) × (less q p ≡ false)
less-equal-not p q h =
    let (before, behind) = less-equal p q q h in
    (before ∙ less_irreflexive q, behind ∙ less_irreflexive q)

pub equal_sym : (p q : Point) → equal p q ≡ true → equal q p ≡ true
equal_sym p q h = let (before, behind) = less-equal-not p q h in less_same q p behind before
