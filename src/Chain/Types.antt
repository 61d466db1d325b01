-- ===== src/Chain/Types.antt =====
-- The fields of the chain objects: include/bitcoin/bitcoin/chain.
use bitprim_core.Common.{ℕ, Bool, List, Bytes}

-- chain/point.hpp
pub record Point : Type 0 where
  pub hash : Bytes
  pub index : ℕ
  pub valid : Bool

-- chain/input.hpp. A script is its bytes.
pub record Input : Type 0 where
  pub previous_output : Point
  pub script : Bytes
  pub witness : List Bytes
  pub sequence : ℕ

-- chain/output.hpp, with `validation.spender_height`.
pub record Output : Type 0 where
  pub value : ℕ
  pub script : Bytes
  pub spender_height : ℕ

-- chain/transaction.hpp
pub record Transaction : Type 0 where
  pub version : ℕ
  pub locktime : ℕ
  pub inputs : List Input
  pub outputs : List Output
