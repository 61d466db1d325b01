-- ===== src/Chain/Patterns/Outputs.antt =====
-- src/chain/script.cpp: what `output_pattern` says of the scripts that the `to_` patterns make.
use bitprim_core.Common.{ℕ, ◌≤◌, ◌≡◌, inl, inr, refl, arith, true, false, List}
use bitprim_core.Common.{ltb, le→ltb, le→leb, length, Bytes, All, Bool-cases}
use bitprim_core.Machine.Opcode.{Opcode, opcode_byte, opcode_from_byte}
use bitprim_core.Machine.Operation.{Operation, minimal_opcode_from_data}
use bitprim_core.Machine.Operation.Classes.{is_numeric}
use bitprim_core.Machine.Operation.Script.{operations, operations_to_data}
use bitprim_core.Machine.Operation.RoundTrip.{IsCoded, operations-operations_to_data}
use bitprim_core.Chain.Patterns.{
  ScriptPattern, null_data, pay_multisig, pay_public_key, pay_key_hash, pay_script_hash,
  output_pattern, short_hash_size, max_null_data_size, is_public_key, is_pay_key_hash_pattern,
  is_pay_script_hash_pattern, is_null_data_pattern, is_pay_public_key_pattern,
}
use bitprim_core.Chain.Patterns.Make.{
  to_null_data_pattern, to_pay_public_key_pattern, to_pay_key_hash_pattern,
  to_pay_script_hash_pattern, to_pay_multisig_pattern,
}
use bitprim_core.Chain.Patterns.Data.{op_of_data-short, is_public_key-size}
use bitprim_core.Chain.Patterns.NullData.{is_null_data_pattern-to_null_data_pattern}
use bitprim_core.Chain.Patterns.Multisig.{IsMultisig, multisig-pattern, multisig-IsCoded}
use bitprim_core.Chain.Patterns.Coded.{IsCoded-op, IsCoded-data, IsCoded-null, IsCoded-key}

-- The standard output scripts, as their makers take them.
pub data StandardOutput : Type 0 where
  to_null_data : Bytes → StandardOutput
  to_public_key : Bytes → StandardOutput
  to_key_hash : Bytes → StandardOutput
  to_script_hash : Bytes → StandardOutput
  to_multisig : ℕ → List Bytes → StandardOutput

unfoldable pub ops_of : StandardOutput → List Operation
ops_of (to_null_data bytes) = to_null_data_pattern bytes
ops_of (to_public_key point) = to_pay_public_key_pattern point
ops_of (to_key_hash hash) = to_pay_key_hash_pattern hash
ops_of (to_script_hash hash) = to_pay_script_hash_pattern hash
ops_of (to_multisig signatures points) = to_pay_multisig_pattern signatures points

abbrev pub pattern_name : StandardOutput → ScriptPattern
pattern_name (to_null_data bytes) = null_data
pattern_name (to_public_key point) = pay_public_key
pattern_name (to_key_hash hash) = pay_key_hash
pattern_name (to_script_hash hash) = pay_script_hash
pattern_name (to_multisig signatures points) = pay_multisig

abbrev pub IsStandard : StandardOutput → Type 0
IsStandard (to_null_data bytes) =
    (length bytes ≤ max_null_data_size) × (is_numeric (minimal_opcode_from_data bytes) ≡ false)
IsStandard (to_public_key point) = is_public_key point ≡ true
IsStandard (to_key_hash hash) = length hash ≡ short_hash_size
IsStandard (to_script_hash hash) = length hash ≡ short_hash_size
IsStandard (to_multisig signatures points) = IsMultisig signatures points

key_hash-pattern :
    (hash : Bytes) → length hash ≡ 20 → output_pattern (to_pay_key_hash_pattern hash) ≡ pay_key_hash
unfolding output_pattern is_pay_key_hash_pattern to_pay_key_hash_pattern opcode_byte
key_hash-pattern hash h = rw (op_of_data-short hash (omega arith) (omega arith), h) refl

script_hash-pattern :
    (hash : Bytes)
    → length hash ≡ 20
    → output_pattern (to_pay_script_hash_pattern hash) ≡ pay_script_hash
unfolding output_pattern is_pay_key_hash_pattern is_pay_script_hash_pattern
    to_pay_script_hash_pattern opcode_byte
script_hash-pattern hash h = rw (op_of_data-short hash (omega arith) (omega arith), h) refl

public_key-pattern :
    (point : Bytes)
    → is_public_key point ≡ true
    → output_pattern (to_pay_public_key_pattern point) ≡ pay_public_key
unfolding output_pattern is_pay_key_hash_pattern is_pay_script_hash_pattern is_null_data_pattern
    is_pay_public_key_pattern to_pay_public_key_pattern opcode_byte
public_key-pattern point h = elim (is_public_key-size point h) [
  | inl e ↦ rw (h, op_of_data-short point (omega arith) (omega arith), e, h) refl
  | inr e ↦ rw (h, op_of_data-short point (omega arith) (omega arith), e, h) refl
]

null_data_else :
    (bytes : Bytes)
    → (is_pay_key_hash_pattern (to_null_data_pattern bytes) ≡ false)
      × (is_pay_script_hash_pattern (to_null_data_pattern bytes) ≡ false)
unfolding is_pay_key_hash_pattern is_pay_script_hash_pattern to_null_data_pattern opcode_byte
null_data_else bytes = elim (Bool-cases (ltb 80 (length bytes))) [
  | inl long ↦ rw long (refl, refl)
  | inr short ↦ rw short (refl, refl)
]

null_data-pattern :
    (bytes : Bytes)
    → length bytes ≤ 80
    → is_numeric (minimal_opcode_from_data bytes) ≡ false
    → output_pattern (to_null_data_pattern bytes) ≡ null_data
unfolding output_pattern
null_data-pattern bytes h k =
    let (key_hash, script_hash) = null_data_else bytes in
    rw
      (
        is_null_data_pattern-to_null_data_pattern bytes,
        le→leb (length bytes) 80 h,
        k,
        key_hash,
        script_hash,
      )
      refl

-- The pattern of a standard script is the one that it was made by.
made-pattern : (o : StandardOutput) → IsStandard o → output_pattern (ops_of o) ≡ pattern_name o
unfolding ops_of
made-pattern (to_null_data bytes) (h, k) = null_data-pattern bytes h k
made-pattern (to_public_key point) h = public_key-pattern point h
made-pattern (to_key_hash hash) h = key_hash-pattern hash h
made-pattern (to_script_hash hash) h = script_hash-pattern hash h
made-pattern (to_multisig signatures points) h = multisig-pattern signatures points h

pub made-IsCoded : (o : StandardOutput) → IsStandard o → All IsCoded (ops_of o)
unfolding ops_of to_null_data_pattern to_pay_public_key_pattern to_pay_key_hash_pattern
    to_pay_script_hash_pattern to_pay_multisig_pattern opcode_byte opcode_from_byte
made-IsCoded (to_null_data bytes) (h, k) =
    rw (le→ltb 80 (length bytes) h)
      (IsCoded-op Opcode.return_ refl refl, (IsCoded-null bytes h k, tt))
made-IsCoded (to_public_key point) h =
    rw h (IsCoded-key point h, (IsCoded-op Opcode.checksig refl refl, tt))
made-IsCoded (to_key_hash hash) h = (
  IsCoded-op Opcode.dup refl refl,
  (
    IsCoded-op Opcode.hash160 refl refl,
    (
      IsCoded-data hash (omega arith) (omega arith),
      (IsCoded-op Opcode.equalverify refl refl, (IsCoded-op Opcode.checksig refl refl, tt)),
    ),
  ),
)
made-IsCoded (to_script_hash hash) h = (
  IsCoded-op Opcode.hash160 refl refl,
  (IsCoded-data hash (omega arith) (omega arith), (IsCoded-op Opcode.equal refl refl, tt)),
)
made-IsCoded (to_multisig signatures points) h =
    unfold to_pay_multisig_pattern in multisig-IsCoded signatures points h

-- The script that is made by a standard pattern, from data, a key, a hash or keys that the pattern
-- admits, has that pattern when its bytes are read.
pub output_pattern_lem :
    (o : StandardOutput)
    → IsStandard o
    → output_pattern (operations (operations_to_data (ops_of o))) ≡ pattern_name o
output_pattern_lem o h =
    rw (operations-operations_to_data (ops_of o) (made-IsCoded o h)) (made-pattern o h)
