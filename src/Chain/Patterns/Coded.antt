-- ===== src/Chain/Patterns/Coded.antt =====
-- src/chain/script.cpp: the operations of the standard scripts read back.
use bitprim_core.Common.{
  ℕ, ◌+◌, ◌≤◌, ◌≡◌, inl, inr, refl, ap, sym, ◌∙◌, arith, true, false, List, [], ◌∷◌, ◌++◌, map, All,
}
use bitprim_core.Common.{leb, le→ltb, le→leb, leb→le, ◌==◌, length, Bytes, Bool-cases}
use bitprim_core.Machine.Opcode.{
  Opcode, opcode_byte, opcode_from_byte, opcode_byte-opcode_from_byte,
}
use bitprim_core.Machine.Operation.{
  Operation, operation, is_oversized, opcode_from_size, opcode_from_data, minimal_opcode_from_data,
  minimal_opcode_from_byte, is_payload,
}
use bitprim_core.Machine.Operation.Classes.{is_numeric, is_positive}
use bitprim_core.Machine.Operation.RoundTrip.{Carries, IsCoded}
use bitprim_core.Chain.Patterns.{is_public_key}
use bitprim_core.Chain.Patterns.Make.{op_of_code, op_of_data, all_public_keys}
use bitprim_core.Chain.Patterns.Data.{not_single, op_of_data-short, is_public_key-size}
use bitprim_core.Chain.Patterns.NullData.{positive_code}

pub IsCoded-op :
    (code : Opcode)
    → opcode_from_byte (opcode_byte code) ≡ code
    → Carries code 0
    → IsCoded (op_of_code code)
IsCoded-op code h k = record { code_byte = h; carries = k; bounded = omega arith; is_valid = refl }

IsCoded-size :
    (bytes : Bytes)
    → length bytes ≤ 75
    → IsCoded (record { code = Opcode.push_size (length bytes); bytes = bytes; valid = true })
unfolding opcode_from_byte opcode_byte
IsCoded-size bytes h = record {
  code_byte = rw (le→leb (length bytes) 75 h) refl;
  carries = rw (le→leb (length bytes) 75 h) refl;
  bounded = omega arith;
  is_valid = refl;
}

pub IsCoded-data :
    (bytes : Bytes) → 2 ≤ length bytes → length bytes ≤ 75 → IsCoded (op_of_data bytes)
IsCoded-data bytes h k = rw (op_of_data-short bytes h k) (IsCoded-size bytes k)

IsCoded-long : (bytes : Bytes) → 76 ≤ length bytes → length bytes ≤ 80 → IsCoded (op_of_data bytes)
unfolding operation is_oversized opcode_from_data minimal_opcode_from_data opcode_from_size
    opcode_from_byte is_payload opcode_byte
IsCoded-long bytes h k =
    let n = length bytes in
    rw (le→ltb 520 n (omega arith), not_single n (omega arith), more, le→leb n 255 (omega arith))
      (record { code_byte = refl; carries = omega arith; bounded = omega arith; is_valid = refl })
  where
    more : leb (length bytes) 75 ≡ false
    more = ground arith

IsCoded-none : IsCoded (op_of_data [])
unfolding operation is_oversized opcode_from_data minimal_opcode_from_data opcode_from_size
    opcode_from_byte is_payload opcode_byte
IsCoded-none = record { code_byte = refl; carries = refl; bounded = omega arith; is_valid = refl }

numeric_negative : (b : ℕ) → (b == 0x81) ≡ true → is_numeric (minimal_opcode_from_byte b) ≡ true
unfolding is_numeric is_positive opcode_byte
numeric_negative b h = rw h refl

numeric_positive :
    (b : ℕ)
    → (b == 0x81) ≡ false
    → (b == 0) ≡ false
    → leb b 16 ≡ true
    → is_numeric (minimal_opcode_from_byte b) ≡ true
numeric_positive b other some number =
    rw (other, some, le→leb 1 b (ground (arith, some)), number)
      (positive_code b (ground (arith, some)) (leb→le b 16 number))

IsCoded-single :
    (b : ℕ) → is_numeric (minimal_opcode_from_byte b) ≡ false → IsCoded (op_of_data (b ∷ []))
unfolding operation is_oversized opcode_from_data minimal_opcode_from_data opcode_from_size
    opcode_from_byte is_payload opcode_byte
IsCoded-single b h = elim (Bool-cases (b == 0x81)) [
  | inl negative ↦ absurd (stop (sym (numeric_negative b negative) ∙ h))
  | inr other ↦ elim (Bool-cases (b == 0)) [
    | inl none ↦
        rw (other, none)
          (record { code_byte = refl; carries = refl; bounded = omega arith; is_valid = refl })
    | inr some ↦ elim (Bool-cases (leb b 16)) [
      | inl number ↦ absurd (stop (sym (numeric_positive b other some number) ∙ h))
      | inr large ↦
          rw (other, some, le→leb 1 b (ground (arith, some)), large)
            (record { code_byte = refl; carries = refl; bounded = omega arith; is_valid = refl })
    ]
  ]
]
  where
    stop : true ≡ false → ⊥
    stop e = cc

pub IsCoded-null :
    (bytes : Bytes)
    → length bytes ≤ 80
    → is_numeric (minimal_opcode_from_data bytes) ≡ false
    → IsCoded (op_of_data bytes)
IsCoded-null [] h k = IsCoded-none
IsCoded-null (b ∷ []) h k = IsCoded-single b (unfold minimal_opcode_from_data in k)
IsCoded-null (b ∷ c ∷ bytes) h k = elim (Bool-cases (leb (length (b ∷ c ∷ bytes)) 75)) [
  | inl tiny ↦ IsCoded-data (b ∷ c ∷ bytes) (omega arith) (leb→le _ 75 tiny)
  | inr more ↦ IsCoded-long (b ∷ c ∷ bytes) (ground (arith, more)) h
]

pub IsCoded-key : (point : Bytes) → is_public_key point ≡ true → IsCoded (op_of_data point)
IsCoded-key point h = elim (is_public_key-size point h) [
  | inl e ↦ IsCoded-data point (omega arith) (omega arith)
  | inr e ↦ IsCoded-data point (omega arith) (omega arith)
]

pub pushed_points :
    (points : List Bytes) (rest : List Operation)
    → all_public_keys points ≡ true
    → All IsCoded rest
    → All IsCoded (map op_of_data points ++ rest)
unfolding all_public_keys
pushed_points [] rest h r = r
pushed_points (point ∷ points) rest h r = elim (Bool-cases (is_public_key point)) [
  | inl key ↦ (IsCoded-key point key, pushed_points points rest (rw key at h) r)
  | inr other ↦ absurd (stop (rw other at h))
]
  where
    stop : false ≡ true → ⊥
    stop e = cc

Carries-none : (code : Opcode) → 79 ≤ opcode_byte code → Carries code 0
Carries-none Opcode.push_one_size h = omega arith
Carries-none Opcode.push_two_size h = omega arith
Carries-none Opcode.push_four_size h = omega arith
Carries-none code h = ground arith

-- The codes of the numbers of signatures and of keys.
pub IsCoded-number : (n : ℕ) → 1 ≤ n → n ≤ 16 → IsCoded (op_of_code (opcode_from_byte (n + 80)))
IsCoded-number n h k =
    IsCoded-op (opcode_from_byte (n + 80))
      (ap opcode_from_byte (opcode_byte-opcode_from_byte (n + 80) (omega arith)))
      (Carries-none _ (omega (arith, opcode_byte-opcode_from_byte (n + 80) (omega arith))))

pub IsCoded-checkmultisig : IsCoded (op_of_code Opcode.checkmultisig)
unfolding opcode_byte opcode_from_byte
IsCoded-checkmultisig = IsCoded-op Opcode.checkmultisig refl refl
