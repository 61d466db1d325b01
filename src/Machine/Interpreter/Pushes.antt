-- ===== src/Machine/Interpreter/Pushes.antt =====
-- include/bitcoin/bitcoin/impl/machine/operation.ipp and interpreter.ipp: what an operation that was
-- made of data does to the stack when it is run.
use std.Path.{subst, sym}
use bitprim_core.Common.{ℕ, zero, suc, ◌≤◌, ◌<◌, ◌≡◌, refl, arith, Bool, true, false, not, ◌&&◌}
use bitprim_core.Common.{
  [], ◌∷◌, ltb, leb, ltb→lt, leb→le, le→leb, le→ltb, ◌==◌, if◌then◌else◌, length, Bytes, bytes_eq,
  all_below, all_below_sound, ==_iff, Bool-cases, inl, inr,
}
use bitprim_core.Machine.Opcode.{opcode_byte, opcode_from_byte}
use bitprim_core.Machine.ErrorCode.{ErrorCode}
use bitprim_core.Machine.Operation.{
  Operation, operation, is_oversized, opcode_from_size, opcode_from_data, minimal_opcode_from_data,
  nominal_opcode_from_data, opcode_from_positive, is_payload,
}
use bitprim_core.Machine.Program.{Program, push_move}
use bitprim_core.Machine.Interpreter.Stack.{op_push_size, op_push_data, op_push_number}
use bitprim_core.Machine.Interpreter.Crypto.{Library}
use bitprim_core.Machine.Interpreter.Run.{dispatch, run_op}

-- A family that holds of every number below a bound.
unfoldable Each : ℕ → (ℕ → Type 0) → Type 0
Each zero P = Unit
Each (suc n) P = P n × Each n P

each_below : (n : ℕ) (P : ℕ → Type 0) → Each n P → (x : ℕ) → x < n → P x
unfolding Each
each_below zero P all x h = elim h [ ]
each_below (suc n) P (top, all) x h = elim (Bool-cases (ltb x n)) [
  | inl below ↦ each_below n P all x (ltb→lt x n below)
  | inr equal ↦ subst P (ground (arith, equal)) top
]

module _ (library : Library) (address : ℕ) (p : Program) where
  Pushes : Operation → Bytes → Type 0
  Pushes op bytes = run_op library address op p ≡ (ErrorCode.success, push_move bytes p)

  -- An operation that carries its data.
  sized_push :
      (bytes : Bytes)
      → length bytes ≤ 520
      → Pushes
          (record { code = opcode_from_size (length bytes); bytes = bytes; valid = true })
          bytes
  unfolding Pushes run_op dispatch opcode_from_size opcode_from_byte op_push_size op_push_data
  sized_push bytes h = elim (Bool-cases (leb (length bytes) 75)) [
    | inl tiny ↦ rw (opcode_from_size, tiny) ground (arith, tiny)
    | inr more ↦ elim (Bool-cases (leb (length bytes) 255)) [
      | inl short ↦ rw (opcode_from_size, more, short) ground (arith, short)
      | inr long ↦ rw (opcode_from_size, more, long) ground (arith, long)
    ]
  ]

  -- An operation that stands for a number from 1 to 16.
  number_push :
      (n : ℕ)
      → 1 ≤ n
      → n ≤ 16
      → Pushes (record { code = opcode_from_positive n; bytes = []; valid = true }) (n ∷ [])
  unfolding Pushes run_op dispatch opcode_from_positive opcode_from_byte op_push_number Each
  number_push zero h k = elim h [ ]
  number_push (suc i) h k =
      each_below 16
        (λ i.
          Pushes (record { code = opcode_from_positive (suc i); bytes = []; valid = true })
            (suc i ∷ []))
        (
          refl,
          (
            refl,
            (
              refl,
              (
                refl,
                (
                  refl,
                  (
                    refl,
                    (
                      refl,
                      (refl, (refl, (refl, (refl, (refl, (refl, (refl, (refl, (refl, tt))))))))),
                    ),
                  ),
                ),
              ),
            ),
          ),
        )
        i (omega arith)

-- The code of a size is followed by data unless the size is zero.
is_payload-opcode_from_size : (n : ℕ) → is_payload (opcode_from_size (suc n)) ≡ true
unfolding is_payload opcode_from_size opcode_from_byte opcode_byte
is_payload-opcode_from_size n = elim (Bool-cases (leb (suc n) 75)) [
  | inl tiny ↦ rw (opcode_from_size, tiny) (ground (arith, tiny))
  | inr more ↦ elim (Bool-cases (leb (suc n) 255)) [
    | inl short ↦ rw (opcode_from_size, more, short) refl
    | inr long ↦ elim (Bool-cases (leb (suc n) 65535)) [
      | inl two ↦ rw (opcode_from_size, more, long, two) refl
      | inr four ↦ rw (opcode_from_size, more, long, four) refl
    ]
  ]
]

not_payload_table : all_below 16 (λ i. not (is_payload (opcode_from_positive (suc i)))) ≡ true
unfolding all_below is_payload opcode_from_positive opcode_from_byte opcode_byte
not_payload_table = refl

-- A code from 1 to 16 is not followed by data.
not_payload : (n : ℕ) → 1 ≤ n → n ≤ 16 → not (is_payload (opcode_from_positive n)) ≡ true
not_payload zero h k = elim h [ ]
not_payload (suc i) h k = all_below_sound 16 _ i not_payload_table (omega arith)

and_false : (x : Bool) → (x && false) ≡ false
and_false true = refl
and_false false = refl

not_single : (n : ℕ) → (suc (suc n) == 1) ≡ false
not_single n = ground arith

-- What an operation made of data pushes: the data, except that the one byte 0 is dropped from a
-- minimal encoding.
abbrev pushed : Bytes → Bool → Bytes
pushed bytes minimal = if minimal && bytes_eq bytes (0 ∷ []) then [] else bytes

module _ (library : Library) (address : ℕ) (p : Program) where
  nominal_push :
      (bytes : Bytes) → length bytes ≤ 520 → Pushes library address p (operation bytes false) bytes
  unfolding operation is_oversized opcode_from_data nominal_opcode_from_data Pushes
  nominal_push bytes h = rw (le→ltb 520 (length bytes) h) (sized_push library address p bytes h)

  -- The minimal encodings of no data, of -1 and of the byte 0.
  no_push : Pushes library address p (operation [] true) (pushed [] true)
  unfolding Pushes operation is_oversized opcode_from_data minimal_opcode_from_data opcode_from_size
      opcode_from_byte is_payload opcode_byte run_op dispatch op_push_number op_push_size
  no_push = refl

  negative_push : Pushes library address p (operation (0x81 ∷ []) true) (pushed (0x81 ∷ []) true)
  unfolding Pushes operation is_oversized opcode_from_data minimal_opcode_from_data opcode_from_size
      opcode_from_byte is_payload opcode_byte run_op dispatch op_push_number op_push_size
  negative_push = refl

  zero_push : Pushes library address p (operation (0 ∷ []) true) (pushed (0 ∷ []) true)
  unfolding Pushes operation is_oversized opcode_from_data minimal_opcode_from_data opcode_from_size
      opcode_from_byte is_payload opcode_byte run_op dispatch op_push_number op_push_size
  zero_push = refl

  single_push : (b : ℕ) → Pushes library address p (operation (b ∷ []) true) (pushed (b ∷ []) true)
  unfolding operation is_oversized opcode_from_data minimal_opcode_from_data Pushes
  single_push b = elim (Bool-cases (b == 0x81)) [
    | inl negative ↦
        subst (λ b. Pushes library address p (operation (b ∷ []) true) (pushed (b ∷ []) true))
          (sym ((==_iff b 0x81).0 negative)) negative_push
    | inr other ↦ elim (Bool-cases (b == 0)) [
      | inl none ↦
          subst (λ b. Pushes library address p (operation (b ∷ []) true) (pushed (b ∷ []) true))
            (sym ((==_iff b 0).0 none)) zero_push
      | inr some ↦ elim (Bool-cases (leb b 16)) [
        | inl number ↦
            rw
              (
                other,
                some,
                number,
                le→leb 1 b (ground (arith, some)),
                not_payload b (ground (arith, some)) (leb→le b 16 number),
              )
              (number_push library address p b (ground (arith, some)) (leb→le b 16 number))
        | inr large ↦
            rw
              (other, some, le→leb 1 b (ground (arith, some)), large, is_payload-opcode_from_size 0)
              (sized_push library address p (b ∷ []) (omega arith))
      ]
    ]
  ]

  minimal_push :
      (bytes : Bytes)
      → length bytes ≤ 520
      → Pushes library address p (operation bytes true) (pushed bytes true)
  unfolding operation is_oversized opcode_from_data minimal_opcode_from_data Pushes
  minimal_push [] h = no_push
  minimal_push (b ∷ []) h = single_push b
  minimal_push (b ∷ c ∷ bytes) h =
      rw
        (
          le→ltb 520 (suc (suc (length bytes))) h,
          not_single (length bytes),
          and_false (b == 0),
          is_payload-opcode_from_size (suc (length bytes)),
        )
        (sized_push library address p (b ∷ c ∷ bytes) h)

-- An operation made of at most 520 bytes of data succeeds when it is run, in the nominal and in the
-- minimal encoding, and puts the data on the top of the stack, except that the minimal encoding of
-- the one byte 0 puts an empty item there.
pub push_lem :
    (library : Library) (address : ℕ) (p : Program) (bytes : Bytes) (minimal : Bool)
    → length bytes ≤ 520
    → run_op library address (operation bytes minimal) p
      ≡ (ErrorCode.success, push_move (pushed bytes minimal) p)
unfolding Pushes
push_lem library address p bytes true h = minimal_push library address p bytes h
push_lem library address p bytes false h = nominal_push library address p bytes h
