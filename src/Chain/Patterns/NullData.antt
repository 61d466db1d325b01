-- ===== src/Chain/Patterns/NullData.antt =====
-- src/chain/script.cpp: which null data scripts are told as such.
use bitprim_core.Common.{
  ℕ, ◌+◌, ◌-◌, ◌≤◌, ◌≡◌, ◌⊎◌, inl, inr, refl, arith, Bool, true, false, not, ◌&&◌, [], ◌∷◌,
}
use bitprim_core.Common.{
  ltb, leb, le→ltb, le→leb, leb→le, ◌==◌, if◌then◌else◌, length, Bytes, Bool-cases,
}
use bitprim_core.Machine.Opcode.{
  Opcode, opcode_byte, opcode_from_byte, opcode_byte-opcode_from_byte,
}
use bitprim_core.Machine.Operation.{
  operation, is_oversized, opcode_from_size, opcode_from_positive, opcode_from_data,
  minimal_opcode_from_data, minimal_opcode_from_byte, is_payload,
}
use bitprim_core.Machine.Operation.Classes.{is_numeric, is_positive}
use bitprim_core.Chain.Patterns.{is_null_data_pattern, is_minimal_push}
use bitprim_core.Chain.Patterns.Make.{op_of_data, to_null_data_pattern}
use bitprim_core.Chain.Patterns.Data.{not_single}

size_byte : (n : ℕ) → n ≤ 80 → opcode_byte (opcode_from_size n) ≤ 78
unfolding opcode_from_size opcode_byte
size_byte n h = elim (Bool-cases (leb n 75)) [
  | inl tiny ↦
      rw (opcode_from_size, tiny)
        (omega (arith, opcode_byte-opcode_from_byte n (omega arith), leb→le n 75 tiny))
  | inr more ↦ rw (opcode_from_size, more, le→leb n 255 (omega arith)) (omega arith)
]

pub positive_code : (b : ℕ) → 1 ≤ b → b ≤ 16 → is_numeric (opcode_from_positive b) ≡ true
unfolding is_numeric is_positive opcode_from_positive
positive_code b h k = ground (arith, opcode_byte-opcode_from_byte (b + 81 - 1) (omega arith))

-- The codes of minimal pushes: of data, or of a number.
CodeRange : Opcode → Type 0
CodeRange code = (opcode_byte code ≤ 78) ⊎ (is_numeric code ≡ true)

byte_range : (b : ℕ) → CodeRange (minimal_opcode_from_byte b)
unfolding CodeRange opcode_byte is_numeric is_positive
byte_range b = elim (Bool-cases (b == 0x81)) [
  | inl negative ↦ rw negative (inr refl)
  | inr other ↦ elim (Bool-cases (b == 0)) [
    | inl none ↦ rw (other, none) (inl (omega arith))
    | inr some ↦ elim (Bool-cases (leb b 16)) [
      | inl number ↦
          rw (other, some, le→leb 1 b (ground (arith, some)), number)
            (inr (positive_code b (ground (arith, some)) (leb→le b 16 number)))
      | inr large ↦
          rw (other, some, le→leb 1 b (ground (arith, some)), large)
            (inl (size_byte 1 (omega arith)))
    ]
  ]
]

code_range : (bytes : Bytes) → length bytes ≤ 80 → CodeRange (minimal_opcode_from_data bytes)
unfolding CodeRange minimal_opcode_from_data
code_range [] h = inl (size_byte 0 h)
code_range (b ∷ []) h = byte_range b
code_range (b ∷ c ∷ bytes) h =
    rw (not_single (length (b ∷ c ∷ bytes)) (omega arith))
      (inl (size_byte (length (b ∷ c ∷ bytes)) h))

-- An operation of data keeps the data where its code is followed by data.
payload_op :
    (bytes : Bytes)
    → length bytes ≤ 80
    → op_of_data bytes ≡ record {
      code = minimal_opcode_from_data bytes;
      bytes = if is_payload (minimal_opcode_from_data bytes) then bytes else [];
      valid = true;
    }
unfolding operation is_oversized opcode_from_data
payload_op bytes h =
    rw (le→ltb 520 (length bytes) (omega arith))
      (elim (Bool-cases (is_payload (minimal_opcode_from_data bytes))) [
        | inl payload ↦ rw payload refl
        | inr number ↦ rw number refl
      ])

negative_byte : opcode_byte Opcode.push_negative_1 ≡ 79
unfolding opcode_byte
negative_byte = refl

payload_code : (code : Opcode) → is_payload code ≡ true → is_numeric code ≡ false
unfolding is_payload is_numeric is_positive
payload_code code h = ground (arith, negative_byte)

bare_code :
    (code : Opcode)
    → CodeRange code
    → is_payload code ≡ false
    → (opcode_byte code == 0) ≡ not (is_numeric code)
unfolding CodeRange is_payload is_numeric is_positive
bare_code code r h = ground (arith, negative_byte)

-- A minimal push reads as one unless it stands for a number, since it has no data then.
minimal_push :
    (bytes : Bytes)
    → length bytes ≤ 80
    → is_minimal_push (op_of_data bytes) ≡ not (is_numeric (minimal_opcode_from_data bytes))
unfolding is_minimal_push opcode_byte minimal_opcode_from_data opcode_from_size opcode_from_byte
minimal_push bytes h =
    rw (payload_op bytes h) (elim (Bool-cases (is_payload (minimal_opcode_from_data bytes))) [
      | inl payload ↦ rw payload (rw (payload_code _ payload) (ground arith))
      | inr number ↦ rw number (bare_code _ (code_range bytes h) number)
    ])

and_true : (x : Bool) → (x && true) ≡ x
and_true true = refl
and_true false = refl

small_data : (bytes : Bytes) → length bytes ≤ 80 → length (op_of_data bytes).bytes ≤ 80
small_data bytes h = rw (payload_op bytes h) (ground arith)

not-leb : (a b : ℕ) → not (leb a b) ≡ ltb b a
not-leb a b = ground arith

-- A script for null data is one by its pattern exactly where the data is at most 80 bytes and is
-- not the one byte of a number from 1 to 16 or of -1.
pub is_null_data_pattern-to_null_data_pattern :
    (bytes : Bytes)
    → is_null_data_pattern (to_null_data_pattern bytes)
      ≡ (leb (length bytes) 80 && not (is_numeric (minimal_opcode_from_data bytes)))
unfolding is_null_data_pattern to_null_data_pattern opcode_byte
is_null_data_pattern-to_null_data_pattern bytes = elim (Bool-cases (leb (length bytes) 80)) [
  | inr long ↦ rw (← not-leb (length bytes) 80, long) refl
  | inl short ↦
      rw (← not-leb (length bytes) 80, short)
        (rw
          (minimal_push bytes (leb→le _ _ short), le→leb _ 80 (small_data bytes (leb→le _ _ short)))
          (and_true (not (is_numeric (minimal_opcode_from_data bytes)))))
]
