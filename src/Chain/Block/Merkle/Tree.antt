-- ===== src/Chain/Block/Merkle/Tree.antt =====
-- The Merkle root of a block is the root of the binary tree over its hashes: src/chain/block.cpp.
use bitprim_core.Common.{ℕ, zero, suc, ◌*◌, ◌^◌, ◌≤◌, ◌<◌, ◌≡◌, refl, sym, ◌∙◌, ap, ap₂}
use bitprim_core.Common.{arith, List, [], ◌∷◌, some, length, take, drop, get_or, Bytes}
use bitprim_core.Common.{length-take, length-drop}
use bitprim_core.Chain.SignatureHash.{null_hash}
use bitprim_core.Chain.Block.Merkle.{node, pairs, merkle_round, merkle_loop, generate_merkle_root}
use bitprim_core.Chain.Block.Merkle.Rounds.{
  next_round, last_round, started, even_stays, length-pairs,
}

-- Twice a number, and a power of two, by steps that the proofs follow.
abbrev pub double : ℕ → ℕ
double zero = zero
double (suc n) = suc (suc (double n))

abbrev pub leaves : ℕ → ℕ
leaves zero = 1
leaves (suc depth) = double (leaves depth)

double_lem : (n : ℕ) → double n ≡ 2 * n
double_lem zero = omega arith
double_lem (suc n) = omega (arith, double_lem n)

leaves_lem : (depth : ℕ) → leaves depth ≡ 2 ^ depth
leaves_lem zero = omega arith
leaves_lem (suc depth) = omega (arith, double_lem (leaves depth), leaves_lem depth)

depth_lt_leaves : (depth : ℕ) → depth < leaves depth
depth_lt_leaves zero = omega arith
depth_lt_leaves (suc depth) = omega (arith, double_lem (leaves depth), depth_lt_leaves depth)

module _ (sha256_hash : Bytes → Bytes) where
  -- The root of the full binary tree of a depth over a list of hashes, by its two halves.
  unfoldable pub tree_root : ℕ → List Bytes → Bytes
  tree_root zero hashes = get_or hashes 0 null_hash
  tree_root (suc depth) hashes =
      node sha256_hash (tree_root depth (take (leaves depth) hashes))
        (tree_root depth (drop (leaves depth) hashes))

  pairs-take :
      (n : ℕ) (hashes : List Bytes)
      → pairs sha256_hash (take (double n) hashes) ≡ take n (pairs sha256_hash hashes)
  unfolding pairs
  pairs-take zero hashes = refl
  pairs-take (suc n) [] = refl
  pairs-take (suc n) (left ∷ []) = refl
  pairs-take (suc n) (left ∷ right ∷ hashes) =
      ap (λ rest. node sha256_hash left right ∷ rest) (pairs-take n hashes)

  pairs-drop :
      (n : ℕ) (hashes : List Bytes)
      → pairs sha256_hash (drop (double n) hashes) ≡ drop n (pairs sha256_hash hashes)
  unfolding pairs
  pairs-drop zero hashes = refl
  pairs-drop (suc n) [] = refl
  pairs-drop (suc zero) (left ∷ []) = refl
  pairs-drop (suc (suc n)) (left ∷ []) = refl
  pairs-drop (suc n) (left ∷ right ∷ hashes) = pairs-drop n hashes

  -- One round takes off the lowest level of the tree.
  tree_root-pairs :
      (depth : ℕ) (hashes : List Bytes)
      → length hashes ≡ leaves (suc depth)
      → tree_root (suc depth) hashes ≡ tree_root depth (pairs sha256_hash hashes)
  unfolding tree_root pairs
  tree_root-pairs zero [] h = absurd (omega (arith, h))
  tree_root-pairs zero (left ∷ []) h = absurd (omega (arith, h))
  tree_root-pairs zero (left ∷ right ∷ hashes) h = refl
  tree_root-pairs (suc depth) hashes h =
      let half = leaves (suc depth) in
      let size = double_lem half in
      ap₂ (node sha256_hash)
        (tree_root-pairs depth (take half hashes) (omega (arith, h, size, length-take half hashes))
          ∙ ap (tree_root depth) (pairs-take (leaves depth) hashes))
        (tree_root-pairs depth (drop half hashes) (omega (arith, h, size, length-drop half hashes))
          ∙ ap (tree_root depth) (pairs-drop (leaves depth) hashes))

  root_loop :
      (depth fuel : ℕ) (hashes : List Bytes)
      → length hashes ≡ leaves depth
      → depth ≤ fuel
      → merkle_loop sha256_hash (suc fuel) hashes ≡ some (tree_root depth hashes)
  unfolding tree_root merkle_round
  root_loop zero fuel hashes h le = last_round sha256_hash fuel hashes (omega (arith, h))
  root_loop (suc depth) zero hashes h le = absurd (omega (arith, le))
  root_loop (suc depth) (suc fuel) hashes h le =
      let size = double_lem (leaves depth) in
      let some_leaf = depth_lt_leaves depth in
      next_round sha256_hash (suc fuel) hashes (omega (arith, h, size, some_leaf))
      ∙ ap (λ merkle. merkle_loop sha256_hash (suc fuel) (pairs sha256_hash merkle))
          (even_stays hashes (omega (arith, h, size)))
      ∙ root_loop depth fuel (pairs sha256_hash hashes)
          (omega (arith, h, size, length-pairs sha256_hash hashes)) (omega (arith, le))
      ∙ ap some (sym (tree_root-pairs depth hashes h))

  -- The Merkle root of as many hashes as a power of two is the root of the full binary tree over
  -- them, in their order.
  pub generate_merkle_root-tree_root :
      (depth : ℕ) (hashes : List Bytes)
      → length hashes ≡ 2 ^ depth
      → generate_merkle_root sha256_hash hashes ≡ some (tree_root depth hashes)
  generate_merkle_root-tree_root depth hashes h =
      let size = leaves_lem depth in
      let above = depth_lt_leaves depth in
      started sha256_hash (length hashes) hashes (omega (arith, h, size, above)) (omega arith)
      ∙ root_loop depth (length hashes) hashes (h ∙ sym size) (omega (arith, h, size, above))
