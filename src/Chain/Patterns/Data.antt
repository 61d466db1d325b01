-- ===== src/Chain/Patterns/Data.antt =====
-- src/chain/script.cpp: data and public keys as they are pushed in a script.
use bitprim_core.Common.{ℕ, ◌≤◌, ◌≡◌, ◌⊎◌, inl, inr, refl, arith, true, false}
use bitprim_core.Common.{le→ltb, le→leb, ◌==◌, length, Bytes, Bool-cases}
use bitprim_core.Machine.Opcode.{Opcode, opcode_byte, opcode_from_byte}
use bitprim_core.Machine.Operation.{
  operation, is_oversized, opcode_from_size, opcode_from_data, minimal_opcode_from_data, is_payload,
}
use bitprim_core.Chain.Patterns.{is_public_key}
use bitprim_core.Chain.Patterns.Make.{op_of_data}

pub not_single : (n : ℕ) → 2 ≤ n → (n == 1) ≡ false
not_single n h = ground arith

-- Data of two to 75 bytes is pushed by the code of its size.
pub op_of_data-short :
    (bytes : Bytes)
    → 2 ≤ length bytes
    → length bytes ≤ 75
    → op_of_data bytes
      ≡ record { code = Opcode.push_size (length bytes); bytes = bytes; valid = true }
unfolding operation is_oversized opcode_from_data minimal_opcode_from_data opcode_from_size
    opcode_from_byte is_payload opcode_byte
op_of_data-short bytes h k =
    let n = length bytes in
    rw
      (
        le→ltb 520 n (omega arith),
        not_single n h,
        le→leb n 75 k,
        le→leb 1 n (omega arith),
        le→leb n 78 (omega arith),
      )
      refl

pub is_public_key-size :
    (point : Bytes) → is_public_key point ≡ true → (length point ≡ 33) ⊎ (length point ≡ 65)
unfolding is_public_key
is_public_key-size point h = elim (Bool-cases (length point == 33)) [
  | inl compressed ↦ inl (ground (arith, compressed))
  | inr other ↦ inr (ground (arith, other))
]
