-- ===== src/Chain/Block/Merkle.antt =====
-- src/chain/block.cpp: the Merkle root of the hashes of a block's transactions.
pub mod Rounds
pub mod Tree
use bitprim_core.Common.{ℕ, zero, suc, ◌%◌, ◌+◌, Bool, List, [], ◌∷◌, ◌++◌, Option, none, some, ltb}
use bitprim_core.Common.{◌==◌, if◌then◌else◌, length, get_or, Bytes}
use bitprim_core.Chain.SignatureHash.{null_hash, bitcoin_hash}
use bitprim_core.Chain.Prevout.{back_or}

-- `if (merkle.size() % 2 != 0) merkle.push_back(merkle.back())`
unfoldable pub make_even : List Bytes → List Bytes
make_even merkle =
    if length merkle % 2 == 0 then merkle else merkle ++ back_or merkle null_hash ∷ []

module _ (sha256_hash : Bytes → Bytes) where
  -- `bitcoin_hash(build_chunk({ it[0], it[1] }))`
  unfoldable pub node : Bytes → Bytes → Bytes
  node left right = bitcoin_hash sha256_hash (left ++ right)

  -- `for (auto it = merkle.begin(); it != merkle.end(); it += 2)`
  unfoldable pub pairs : List Bytes → List Bytes
  pairs [] = []
  pairs (left ∷ []) = []
  pairs (left ∷ right ∷ merkle) = node left right ∷ pairs merkle

  -- One round of the loop.
  unfoldable pub merkle_round : List Bytes → List Bytes
  merkle_round merkle = pairs (make_even merkle)

  -- `while (merkle.size() > 1)`, for so many rounds at most.
  unfoldable pub merkle_loop : ℕ → List Bytes → Option Bytes
  merkle_loop zero merkle = none
  merkle_loop (suc fuel) merkle =
      let rest = merkle_loop fuel (merkle_round merkle) in
      if ltb 1 (length merkle) then rest else some (get_or merkle 0 null_hash)

  -- `generate_merkle_root`, of the hashes of the transactions. No more rounds are made than there
  -- are hashes.
  unfoldable pub generate_merkle_root : List Bytes → Option Bytes
  generate_merkle_root [] = some null_hash
  generate_merkle_root (first ∷ hashes) = merkle_loop (length (first ∷ hashes)) (first ∷ hashes)
