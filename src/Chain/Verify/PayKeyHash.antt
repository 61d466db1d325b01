-- ===== src/Chain/Verify/PayKeyHash.antt =====
-- src/chain/script.cpp: what spends an output that pays to a key hash.
use bitprim_core.Common.{
  ℕ, suc, ◌≤◌, ◌≡◌, inl, inr, refl, ap, ◌∙◌, arith, Bool, true, false, ◌&&◌, List, [], ◌∷◌,
}
use bitprim_core.Common.{
  leb, le→ltb, leb→le, le→leb, length, length-append, drop, Bytes, bytes_eq, Bool-cases,
}
use bitprim_core.Chain.Patterns.{short_hash_size}
use bitprim_core.Chain.Patterns.Make.{op_of_code, to_pay_key_hash_pattern}
use bitprim_core.Chain.Patterns.Data.{op_of_data-short}
use bitprim_core.Chain.Patterns.Outputs.{made-IsCoded, to_key_hash, ops_of}
use bitprim_core.Machine.ErrorCode.{ErrorCode, is_success}
use bitprim_core.Machine.Opcode.{Opcode, opcode_byte}
use bitprim_core.Machine.Operation.{Operation, op_to_data, size_prefix}
use bitprim_core.Machine.Operation.RoundTrip.{operations-operations_to_data}
use bitprim_core.Wire.Serializer.{write_byte, write_bytes}
use bitprim_core.Machine.Operation.Script.{
  is_valid_operations, is_unspendable, operations, operations_to_data,
}
use bitprim_core.Machine.Program.{
  Program, program, stack_true, item_to_bool, stack_result, is_valid,
}
use bitprim_core.Machine.Interpreter.Crypto.{Library}
use bitprim_core.Machine.Interpreter.Run.{run_ops, run}
use bitprim_core.Chain.Verify.Rounds.{spends, spends-passed, spends-failed, spends-overflowed}
use bitprim_core.Chain.Verify.KeyHashOps.{
  Setting, counted_at, hash160, push_of, overflows, holds, dup-IsReady, dup_run, hash160-IsReady,
  hash160_run, push-IsReady, push_run, equal-IsReady, equal_run, sig-IsReady, dup_empty, sig_single,
}
use bitprim_core.Chain.Verify.CheckSig.{is_signed, sig_round}

module _ (library : Library) (setting : Setting) (hash : Bytes) where
  -- A stack that spends the output: a public key with the hash at the top, and below it an
  -- endorsement by that key. The key and the hash need two more items for a while.
  unfoldable pub can_spend : List Bytes → Bool
  can_spend [] = false
  can_spend (key ∷ []) = false
  can_spend (key ∷ endorsement ∷ stack) =
      leb (length stack) 996
      && (bytes_eq hash (hash160 library setting key) && is_signed library setting endorsement key)

module _ (library : Library) (setting : Setting) (hash : Bytes)
    (size : length hash ≡ short_hash_size) where
  abbrev at : ℕ → List Bytes → Program
  at = counted_at setting

  -- The last operation, on a stack with a key at the top.
  last : Bytes → List Bytes → Bool
  last key stack = spends (run_ops library 4 (op_of_code Opcode.checksig ∷ []) (at 3 (key ∷ stack)))

  from_equal :
      (h key : Bytes) (stack : List Bytes)
      → length stack ≤ 998
      → spends (
          run_ops library 3
            (op_of_code Opcode.equalverify ∷ op_of_code Opcode.checksig ∷ [])
            (at 2 (hash ∷ h ∷ key ∷ stack)))
        ≡ (bytes_eq hash h && last key stack)
  unfolding last is_success
  from_equal h key stack fit =
      let ready = equal-IsReady library setting (hash ∷ h ∷ key ∷ stack) in
      let run = equal_run library setting hash h (key ∷ stack) in
      elim (Bool-cases (bytes_eq hash h)) [
        | inl same ↦ rw same (
            spends-passed library 3 _ _ _ ready (op_of_code Opcode.checksig ∷ [])
              (at 3 (key ∷ stack)) (rw same at run) (holds setting 3 (key ∷ stack) (omega arith)))
        | inr other ↦ rw other (
            spends-failed library 3 _ _ _ ready (op_of_code Opcode.checksig ∷ [])
              ErrorCode.op_equal_verify2 (at 3 (key ∷ stack)) (rw other at run) refl)
      ]

  key_hash_ops : List Operation
  key_hash_ops =
      op_of_code Opcode.dup
      ∷ op_of_code Opcode.hash160
      ∷ push_of library setting hash
      ∷ op_of_code Opcode.equalverify
      ∷ op_of_code Opcode.checksig
      ∷ []

  from_push :
      (h key : Bytes) (stack : List Bytes)
      → length stack ≤ 998
      → spends (run_ops library 2 (drop 2 key_hash_ops) (at 2 (h ∷ key ∷ stack)))
        ≡ (leb (length stack) 997 && (bytes_eq hash h && last key stack))
  unfolding key_hash_ops
  from_push h key stack fit =
      let ready = push-IsReady library setting hash (h ∷ key ∷ stack) size in
      let run = push_run library setting hash (h ∷ key ∷ stack) size in
      elim (Bool-cases (leb (length stack) 997)) [
        | inl small ↦ rw small (
            spends-passed library 2 _ _ _ ready
              (op_of_code Opcode.equalverify ∷ op_of_code Opcode.checksig ∷ [])
              (at 2 (hash ∷ h ∷ key ∷ stack)) run
              (holds setting 2 (hash ∷ h ∷ key ∷ stack) (ground (arith, small)))
            ∙ from_equal h key stack fit)
        | inr large ↦ rw large (
            spends-overflowed library 2 _ _ _ ready
              (op_of_code Opcode.equalverify ∷ op_of_code Opcode.checksig ∷ [])
              (at 2 (hash ∷ h ∷ key ∷ stack)) run
              (overflows setting 2 (hash ∷ h ∷ key ∷ stack) (ground (arith, large))))
      ]

  from_dup :
      (key : Bytes) (stack : List Bytes)
      → spends (run_ops library 0 key_hash_ops (at 0 (key ∷ stack))) ≡ (
          leb (length stack) 997 && (bytes_eq hash (hash160 library setting key) && last key stack))
  unfolding key_hash_ops
  from_dup key stack =
      let ready = dup-IsReady library setting (key ∷ stack) in
      let run = dup_run library setting key stack in
      elim (Bool-cases (leb (length stack) 998)) [
        | inl small ↦
            spends-passed library 0 _ _ _ ready (drop 1 key_hash_ops) (at 1 (key ∷ key ∷ stack)) run
              (holds setting 1 (key ∷ key ∷ stack) (ground (arith, small)))
            ∙ (spends-passed library 1 _ _ _ (hash160-IsReady library setting (key ∷ key ∷ stack))
                  (drop 2 key_hash_ops) (at 2 (hash160 library setting key ∷ key ∷ stack))
                  (hash160_run library setting key (key ∷ stack))
                  (holds setting 2 (hash160 library setting key ∷ key ∷ stack)
                    (ground (arith, small)))
                ∙ from_push (hash160 library setting key) key stack (leb→le _ 998 small))
        | inr large ↦ rw (over (length stack) large) (
            spends-overflowed library 0 _ _ _ ready (drop 1 key_hash_ops) (at 1 (key ∷ key ∷ stack))
              run (overflows setting 1 (key ∷ key ∷ stack) (ground (arith, large))))
      ]
    where
      over : (n : ℕ) → leb n 998 ≡ false → leb n 997 ≡ false
      over n e = ground arith

  last_single : (key : Bytes) → last key [] ≡ false
  unfolding last run_ops is_success stack_result stack_true item_to_bool program spends
  last_single key =
      spends-passed library 4 _ _ _ (sig-IsReady library setting (key ∷ [])) []
        (at 4 ([] ∷ key ∷ [])) (sig_single library setting key)
        (holds setting 4 ([] ∷ key ∷ []) (omega arith))

  ops_spend :
      (stack : List Bytes)
      → spends (run_ops library 0 key_hash_ops (at 0 stack)) ≡ can_spend library setting hash stack
  unfolding can_spend last spends
  ops_spend [] =
      unfold key_hash_ops in
      unfold is_success in
      spends-failed library 0 _ _ _ (dup-IsReady library setting []) (drop 1 key_hash_ops)
        ErrorCode.op_dup (at 1 []) (dup_empty library setting) refl
  ops_spend (key ∷ []) = from_dup key [] ∙ ground (arith, last_single key)
  ops_spend (key ∷ endorsement ∷ stack) =
      from_dup key (endorsement ∷ stack) ∙ elim (Bool-cases (leb (length stack) 996)) [
        | inl small ↦
            rw (small, le→leb (suc (length stack)) 997 (ground (arith, small)))
              (ap (λ (b : Bool). bytes_eq hash (hash160 library setting key) && b)
                (sig_round library setting key endorsement stack (ground (arith, small))))
        | inr large ↦ rw (large, more (length stack) large) refl
      ]
    where
      more : (n : ℕ) → leb n 996 ≡ false → leb (suc n) 997 ≡ false
      more n e = ground arith

  made_ops : to_pay_key_hash_pattern hash ≡ key_hash_ops
  unfolding key_hash_ops to_pay_key_hash_pattern
  made_ops = rw (op_of_data-short hash (omega arith) (omega arith), size) refl

  made_length : length (operations_to_data key_hash_ops) ≤ 10_000
  unfolding key_hash_ops operations_to_data op_to_data size_prefix write_byte write_bytes
  made_length = omega (
    arith,
    length-append hash (opcode_byte Opcode.equalverify ∷ opcode_byte Opcode.checksig ∷ []),
    size,
  )

  module _ (lock : setting.script ≡ operations_to_data (to_pay_key_hash_pattern hash)) where
    reads : operations setting.script ≡ key_hash_ops
    unfolding ops_of
    reads =
        ap operations lock
        ∙ (operations-operations_to_data (to_pay_key_hash_pattern hash)
              (made-IsCoded (to_key_hash hash) size)
            ∙ made_ops)

    short : length setting.script ≤ 10_000
    short = omega (arith, made_length, ap length lock, ap length (ap operations_to_data made_ops))

    valid : (stack : List Bytes) → is_valid (at 0 stack) ≡ true
    unfolding is_valid is_valid_operations is_unspendable program
    valid stack =
        rw (reads, le→ltb 10_000 (length setting.script) short)
          (unfold key_hash_ops in unfold opcode_byte in refl)

    -- Evaluated on a stack, the output script succeeds with a true item exactly where the stack can
    -- spend it.
    pub run-can_spend :
        (stack : List Bytes)
        → spends (run library (at 0 stack)) ≡ can_spend library setting hash stack
    unfolding run program
    run-can_spend stack = rw (run, valid stack, reads) (ops_spend stack)
