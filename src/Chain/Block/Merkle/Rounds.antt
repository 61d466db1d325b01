-- ===== src/Chain/Block/Merkle/Rounds.antt =====
-- How many rounds the Merkle root of a block takes, and the list of hashes that it does not tell from
-- another: src/chain/block.cpp.
use bitprim_core.Common.{ℕ, zero, suc, ◌+◌, ◌*◌, ◌/◌, ◌%◌, ◌≤◌, ◌<◌, ◌≡◌, refl, sym, ◌∙◌, ap}
use bitprim_core.Common.{arith, List, [], ◌∷◌, ◌++◌, some, if◌then◌else◌}
use bitprim_core.Common.{length, length-append, get_or, lt→ltb, le→ltb, Bytes, ◌⊎◌, inl, inr}
use bitprim_core.Chain.SignatureHash.{null_hash}
use bitprim_core.Chain.Prevout.{back_or}
use bitprim_core.Chain.Block.Merkle.{
  make_even, pairs, merkle_round, merkle_loop, generate_merkle_root,
}

length-make_even : (merkle : List Bytes) → length (make_even merkle) ≡ (length merkle + 1) / 2 * 2
unfolding make_even
length-make_even merkle = ground (arith, length-append merkle (back_or merkle null_hash ∷ []))

less_or_more : (n : ℕ) → (n ≤ 1) ⊎ (1 < n)
less_or_more n = ground arith

pub even_stays : (merkle : List Bytes) → length merkle % 2 ≡ 0 → make_even merkle ≡ merkle
unfolding make_even
even_stays merkle h = ground (arith, h)

odd_grows :
    (merkle : List Bytes)
    → length merkle % 2 ≡ 1
    → make_even merkle ≡ merkle ++ back_or merkle null_hash ∷ []
unfolding make_even
odd_grows merkle h = ground (arith, h)

module _ (sha256_hash : Bytes → Bytes) where
  pub length-pairs : (merkle : List Bytes) → length (pairs sha256_hash merkle) ≡ length merkle / 2
  unfolding pairs
  length-pairs [] = omega arith
  length-pairs (left ∷ []) = omega arith
  length-pairs (left ∷ right ∷ merkle) = omega (arith, length-pairs merkle)

  pub length-merkle_round :
      (merkle : List Bytes) → length (merkle_round sha256_hash merkle) ≡ (length merkle + 1) / 2
  unfolding merkle_round
  length-merkle_round merkle =
      omega (arith, length-pairs (make_even merkle), length-make_even merkle)

  pub next_round :
      (fuel : ℕ) (merkle : List Bytes)
      → 1 < length merkle
      → merkle_loop sha256_hash (suc fuel) merkle
        ≡ merkle_loop sha256_hash fuel (merkle_round sha256_hash merkle)
  unfolding merkle_loop
  next_round fuel merkle h =
      ap
        (λ b.
          if b
          then merkle_loop sha256_hash fuel (merkle_round sha256_hash merkle)
          else some (get_or merkle 0 null_hash))
        (lt→ltb 1 (length merkle) h)

  pub last_round :
      (fuel : ℕ) (merkle : List Bytes)
      → length merkle ≤ 1
      → merkle_loop sha256_hash (suc fuel) merkle ≡ some (get_or merkle 0 null_hash)
  unfolding merkle_loop
  last_round fuel merkle h =
      ap
        (λ b.
          if b
          then merkle_loop sha256_hash fuel (merkle_round sha256_hash merkle)
          else some (get_or merkle 0 null_hash))
        (le→ltb 1 (length merkle) h)

  -- A round leaves a hash, and no more hashes than fuel that is left.
  round_left :
      (fuel : ℕ) (merkle : List Bytes)
      → 1 < length merkle
      → length merkle ≤ suc fuel
      → (0 < length (merkle_round sha256_hash merkle))
        × (length (merkle_round sha256_hash merkle) ≤ fuel)
  round_left fuel merkle h le =
      let size = length-merkle_round merkle in (omega (arith, size, h), omega (arith, size, h, le))

  -- With fuel for each hash the loop ends.
  pub merkle_loop_ends :
      (fuel : ℕ) (merkle : List Bytes)
      → 0 < length merkle
      → length merkle ≤ fuel
      → (root : Bytes) × (merkle_loop sha256_hash fuel merkle ≡ some root)
  merkle_loop_ends zero merkle h le = absurd (omega (arith, h, le))
  merkle_loop_ends (suc fuel) merkle h le = elim (less_or_more (length merkle)) [
    | inl one ↦ (get_or merkle 0 null_hash, last_round fuel merkle one)
    | inr more ↦
        let (left, enough) = round_left fuel merkle more le in
        let (root, found) = merkle_loop_ends fuel (merkle_round sha256_hash merkle) left enough in
        (root, next_round fuel merkle more ∙ found)
  ]

  -- More fuel than that does not change what the loop finds.
  pub merkle_loop_enough :
      (fuel other : ℕ) (merkle : List Bytes)
      → 0 < length merkle
      → length merkle ≤ fuel
      → length merkle ≤ other
      → merkle_loop sha256_hash fuel merkle ≡ merkle_loop sha256_hash other merkle
  merkle_loop_enough zero other merkle h le le' = absurd (omega (arith, h, le))
  merkle_loop_enough (suc fuel) zero merkle h le le' = absurd (omega (arith, h, le'))
  merkle_loop_enough (suc fuel) (suc other) merkle h le le' = elim (less_or_more (length merkle)) [
    | inl one ↦ last_round fuel merkle one ∙ sym (last_round other merkle one)
    | inr more ↦
        let (left, enough) = round_left fuel merkle more le in
        let (left', enough') = round_left other merkle more le' in
        next_round fuel merkle more
        ∙ merkle_loop_enough fuel other (merkle_round sha256_hash merkle) left enough enough'
        ∙ sym (next_round other merkle more)
  ]

  -- The Merkle root of any hashes is found.
  pub generate_merkle_root_ends :
      (hashes : List Bytes) → (root : Bytes) × (generate_merkle_root sha256_hash hashes ≡ some root)
  unfolding generate_merkle_root
  generate_merkle_root_ends [] = (null_hash, refl)
  generate_merkle_root_ends (first ∷ hashes) =
      merkle_loop_ends (length (first ∷ hashes)) (first ∷ hashes) (omega arith) (omega arith)

  pub started :
      (fuel : ℕ) (hashes : List Bytes)
      → 0 < length hashes
      → length hashes ≤ suc fuel
      → generate_merkle_root sha256_hash hashes ≡ merkle_loop sha256_hash (suc fuel) hashes
  unfolding generate_merkle_root
  started fuel [] h le = absurd (omega (arith, h))
  started fuel (first ∷ hashes) h le =
      merkle_loop_enough (length (first ∷ hashes)) (suc fuel) (first ∷ hashes) h (omega arith) le

  append_last :
      (hashes : List Bytes)
      → length hashes % 2 ≡ 1
      → merkle_round sha256_hash (hashes ++ back_or hashes null_hash ∷ [])
        ≡ merkle_round sha256_hash hashes
  unfolding merkle_round make_even
  append_last hashes odd =
      let size = length-append hashes (back_or hashes null_hash ∷ []) in
      let longer =
        (let even : length (hashes ++ back_or hashes null_hash ∷ []) % 2 ≡ 0 =
            omega (arith, size, odd) in
          even_stays (hashes ++ back_or hashes null_hash ∷ []) even) in
      ap (pairs sha256_hash) (longer ∙ sym (odd_grows hashes odd))

  -- The root does not tell an odd number of hashes, more than one, from the same hashes with the last
  -- one repeated.
  pub generate_merkle_root-append :
      (hashes : List Bytes)
      → 1 < length hashes
      → length hashes % 2 ≡ 1
      → generate_merkle_root sha256_hash (hashes ++ back_or hashes null_hash ∷ [])
        ≡ generate_merkle_root sha256_hash hashes
  generate_merkle_root-append hashes more odd =
      let longer = hashes ++ back_or hashes null_hash ∷ [] in
      let size = length-append hashes (back_or hashes null_hash ∷ []) in
      let fuel = length longer in
      started fuel longer (omega (arith, size)) (omega (arith, size))
      ∙ next_round fuel longer (omega (arith, size, more))
      ∙ ap (merkle_loop sha256_hash fuel) (append_last hashes odd)
      ∙ sym (next_round fuel hashes more)
      ∙ sym (started fuel hashes (omega (arith, more)) (omega (arith, size)))
