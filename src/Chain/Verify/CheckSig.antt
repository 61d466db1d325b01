-- ===== src/Chain/Verify/CheckSig.antt =====
-- src/machine/interpreter.ipp: the last operation of an output that pays to a key hash.
use bitprim_core.Common.{
  ℕ, ◌≤◌, ◌≡◌, inl, inr, refl, ap, ◌∙◌, sym, arith, Bool, true, false, List, [], ◌∷◌,
}
use bitprim_core.Common.{if◌then◌else◌, length, Bytes, Bool-cases, some, none, Option, Option-cases}
use bitprim_core.Chain.Patterns.Make.{op_of_code}
use bitprim_core.Machine.ErrorCode.{ErrorCode, is_success, is_lax_encoding}
use bitprim_core.Machine.Opcode.{Opcode}
use bitprim_core.Machine.Program.{
  Program, program, subscript, push_move, pop, push_bool, stack_true, item_to_bool, stack_result,
}
use bitprim_core.Machine.Interpreter.Crypto.{
  Library, script_code, op_check_sig_verify, op_check_sig, push_verified, parse_endorsed,
  check_signature, signing_version,
}
use bitprim_core.Machine.Interpreter.Multisig.{signs, unparsed_fails, unparsed_signs}
use bitprim_core.Machine.Interpreter.Run.{dispatch, run_op, run_ops}
use bitprim_core.Chain.Verify.Rounds.{
  spends, goes_on, stops, some_item, two_items, if-pair, success-if, failed_check, lax_fails,
  round_fails, round_passes,
}
use bitprim_core.Chain.Verify.KeyHashOps.{Setting, counted_at, holds, sig-IsReady}

module _ (library : Library) (setting : Setting) where
  abbrev at : ℕ → List Bytes → Program
  at = counted_at setting

  -- The endorsement is by the key, for the input that the program is about.
  unfoldable pub is_signed : Bytes → Bytes → Bool
  is_signed endorsement key =
      signs library (script_code (endorsement ∷ []) (at 0 [])) (at 0 []) endorsement key

  -- A check reads only the parts of the program that are the same from the start on.
  parse_same :
      (endorsement : Bytes) (n : ℕ) (stack : List Bytes)
      → parse_endorsed library endorsement (at n stack)
        ≡ parse_endorsed library endorsement (at 0 [])
  unfolding parse_endorsed program
  parse_same endorsement n stack = refl

  code_same :
      (endorsements : List Bytes) (n : ℕ) (stack : List Bytes)
      → script_code endorsements (at n stack) ≡ script_code endorsements (at 0 [])
  unfolding script_code subscript program
  code_same endorsements n stack = refl

  check_same :
      (signature : Bytes) (sighash : ℕ) (key code : Bytes) (n : ℕ) (stack : List Bytes)
      → check_signature library signature sighash key code
          (signing_version (at n stack))
          (at n stack)
        ≡ check_signature library signature sighash key code (signing_version (at 0 [])) (at 0 [])
  unfolding check_signature signing_version program
  check_same signature sighash key code n stack = refl

  module _ (key endorsement : Bytes) (stack : List Bytes) where
    code : Bytes
    code = script_code (endorsement ∷ []) (at 0 [])

    before : Program
    before = at 4 (key ∷ endorsement ∷ stack)

    -- What `op_check_sig_verify` returns, at the parts of the program that it reads.
    Verified : ErrorCode × Program → Type 0
    Verified (v, q) = (q ≡ at 4 stack) × (is_success v ≡ is_signed endorsement key)

    unparsed :
        (parse_endorsed library endorsement (at 0 [])).0 ≡ none
        → Verified (op_check_sig_verify library before)
    unfolding Verified before op_check_sig_verify pop program is_signed script_code code
    unparsed bad =
        rw (op_check_sig_verify, two_items (length stack), parse_same endorsement 4 stack, bad)
          (
            refl,
            unparsed_fails library code (at 4 stack) endorsement (
                  ap (λ (r : Option (ℕ × Bytes) × ErrorCode). r.0) (parse_same endorsement 4 stack)
                  ∙ bad)
                ∙ sym (unparsed_signs library code (at 0 []) endorsement key bad),
          )

    module _ (sighash : ℕ) (signature : Bytes)
        (good : (parse_endorsed library endorsement (at 0 [])).0 ≡ some (sighash, signature)) where
      checked : Bool
      checked =
          check_signature library signature sighash key code (signing_version (at 0 [])) (at 0 [])

      signed-checked : is_signed endorsement key ≡ checked
      unfolding is_signed signs checked code
      signed-checked = rw (signs, good) refl

      verify-checked :
          op_check_sig_verify library before
          ≡ (if checked then ErrorCode.success else ErrorCode.incorrect_signature, at 4 stack)
      unfolding op_check_sig_verify before pop program checked code
      verify-checked =
          rw
            (
              op_check_sig_verify,
              two_items (length stack),
              parse_same endorsement 4 stack,
              good,
              code_same (endorsement ∷ []) 4 stack,
              check_same signature sighash key (script_code (endorsement ∷ []) (at 0 [])) 4 stack,
            )
            (if-pair checked ErrorCode.success ErrorCode.incorrect_signature (at 4 stack))

      parsed : Verified (op_check_sig_verify library before)
      unfolding Verified is_success
      parsed = rw (verify-checked, signed-checked) (refl, success-if checked)

    verified : Verified (op_check_sig_verify library before)
    verified = elim (Option-cases (parse_endorsed library endorsement (at 0 [])).0) [
      | inl bad ↦ unparsed bad
      | inr ((sighash, signature), good) ↦ parsed sighash signature good
    ]

    flag : Bool → Bytes
    flag b = if b then 1 ∷ [] else []

    pushed_flag :
        (v : ErrorCode)
        → push_verified library ErrorCode.op_check_sig (v, at 4 stack) ≡ (
          if is_lax_encoding v then ErrorCode.op_check_sig else ErrorCode.success,
          at 4 (if is_lax_encoding v then stack else flag (is_success v) ∷ stack),
        )
    unfolding push_bool push_move program flag
    pushed_flag v = elim (Bool-cases (is_lax_encoding v)) [
      | inl lax ↦ rw lax refl
      | inr not_lax ↦ rw not_lax refl
    ]

    ends : (b : Bool) → spends (run_ops library 5 [] (at 4 (flag b ∷ stack))) ≡ b
    unfolding run_ops spends stack_result program is_success stack_true item_to_bool flag
    ends true = (rw (some_item (length stack)) refl)
    ends false = (rw (some_item (length stack)) refl)

    sig_run :
        (v : ErrorCode)
        → op_check_sig_verify library before ≡ (v, at 4 stack)
        → run_op library 4 (op_of_code Opcode.checksig) before
          ≡ push_verified library ErrorCode.op_check_sig (v, at 4 stack)
    unfolding run_op dispatch op_check_sig
    sig_run v h = ap (push_verified library ErrorCode.op_check_sig) h

    pub sig_round :
        length stack ≤ 999
        → spends
            (run_ops library 4 (op_of_code Opcode.checksig ∷ []) (at 3 (key ∷ endorsement ∷ stack)))
          ≡ is_signed endorsement key
    unfolding Verified before
    sig_round h =
        let v = (op_check_sig_verify library before).0 in
        let (same, signed) = verified in
        let run = sig_run v (ap (λ (q : Program). (v, q)) same) ∙ pushed_flag v in
        elim (Bool-cases (is_lax_encoding v)) [
          | inl lax ↦
              stops library 4 (op_of_code Opcode.checksig) [] (at 3 (key ∷ endorsement ∷ stack))
                (at 4 stack) ErrorCode.op_check_sig
                (round_fails library 4 (op_of_code Opcode.checksig) _ _
                  (sig-IsReady library setting (key ∷ endorsement ∷ stack)) ErrorCode.op_check_sig
                  (at 4 stack) (rw lax at run) failed_check)
                failed_check
              ∙ (sym (lax_fails v lax) ∙ signed)
          | inr not_lax ↦
              ap spends (
                goes_on library 4 (op_of_code Opcode.checksig) [] (at 3 (key ∷ endorsement ∷ stack))
                  (at 4 (flag (is_success v) ∷ stack))
                  (round_passes library 4 (op_of_code Opcode.checksig) _ _
                    (sig-IsReady library setting (key ∷ endorsement ∷ stack)) _ (rw not_lax at run)
                    (holds setting 4 (flag (is_success v) ∷ stack) (omega arith))))
              ∙ (ends (is_success v) ∙ signed)
        ]
