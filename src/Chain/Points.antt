-- ===== src/Chain/Points.antt =====
-- src/chain/point.cpp: the order of points, and the search for equal ones in what it sorts.
pub mod Order
pub mod Distinct
use bitprim_core.Common.{ℕ, Bool, true, false, ◌&&◌, ◌||◌, List, [], ◌∷◌, ltb, ◌==◌, if◌then◌else◌}
use bitprim_core.Common.{Bytes, bytes_eq}
use bitprim_core.Chain.Types.{Point}

-- `operator<` of `std::array`.
unfoldable pub less_bytes : Bytes → Bytes → Bool
less_bytes bytes [] = false
less_bytes [] (b ∷ other) = true
less_bytes (a ∷ bytes) (b ∷ other) = let rest = less_bytes bytes other in ltb a b || a == b && rest

-- `point::operator<`
unfoldable pub less : Point → Point → Bool
less point other =
    if point.index == other.index
    then less_bytes point.hash other.hash
    else ltb point.index other.index

-- `point::operator==`
unfoldable pub equal : Point → Point → Bool
equal point other = bytes_eq point.hash other.hash && point.index == other.index

unfoldable pub insert : Point → List Point → List Point
insert point [] = point ∷ []
insert point (other ∷ points) =
    let rest = insert point points in
    if less other point then other ∷ rest else point ∷ other ∷ points

-- `std::sort`
unfoldable pub sort : List Point → List Point
sort [] = []
sort (point ∷ points) = insert point (sort points)

-- `std::unique` leaves an item out.
unfoldable pub has_equal_neighbours : List Point → Bool
has_equal_neighbours [] = false
has_equal_neighbours (point ∷ []) = false
has_equal_neighbours (point ∷ other ∷ points) =
    equal point other || has_equal_neighbours (other ∷ points)
