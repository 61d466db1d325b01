-- ===== src/Machine/Interpreter/Timelocks.antt =====
-- When op_check_locktime_verify lets a script go on.
use bitprim_core.Common.{ℕ, ◌≤◌, ◌<◌, ◌≡◌, ◌≢◌, ◌↔◌, inl, inr, sym, ◌∙◌, arith, true, false, some}
use bitprim_core.Common.{none, get_elem?, Bool-cases, Option-cases}
use bitprim_core.Common.Int.{pos, negsuc}
use bitprim_core.Chain.Types.{Input}
use bitprim_core.Machine.ErrorCode.{is_success}
use bitprim_core.Machine.Program.{Program, top}
use bitprim_core.Machine.Interpreter.Crypto.{is_enabled, bip65_rule}
use bitprim_core.Machine.Interpreter.Locktime.{
  is_final, compare_locktime, check_locktime, op_check_locktime_verify,
}

-- The input is not final, and the lock time on the stack is of the transaction's kind and reached.
pub record IsLockMet (p : Program) : Type 0 where
  pub input : Input
  pub found : get_elem? p.transaction.inputs p.input_index ≡ some input
  pub open_input : input.sequence ≢ 0xffff_ffff
  pub locktime : ℕ
  pub reads : top 5 p ≡ some (pos locktime)
  pub same_kind : (locktime < 500_000_000) ↔ (p.transaction.locktime < 500_000_000)
  pub reached : locktime ≤ p.transaction.locktime

compare_locktime_iff :
    (a b : ℕ)
    → (is_success (compare_locktime a b) ≡ true)
      ↔ (((a < 500_000_000) ↔ (b < 500_000_000)) × (a ≤ b))
unfolding compare_locktime is_success
compare_locktime_iff a b = ground arith

module _ (p : Program) (on : is_enabled p.forks bip65_rule ≡ true) where
  no_input :
      get_elem? p.transaction.inputs p.input_index ≡ none
      → is_success (op_check_locktime_verify p).0 ≡ false
  unfolding op_check_locktime_verify is_success
  no_input e = ground (arith, on, e)

  with_input :
      {input : Input}
      → get_elem? p.transaction.inputs p.input_index ≡ some input
      → is_success (op_check_locktime_verify p).0 ≡ is_success (check_locktime input p)
  unfolding op_check_locktime_verify is_success
  with_input e = ground (arith, on, e)

  lock_met :
      (input : Input)
      → get_elem? p.transaction.inputs p.input_index ≡ some input
      → is_success (check_locktime input p) ≡ true
      → IsLockMet p
  unfolding check_locktime is_final is_success
  lock_met input e h = elim (Bool-cases (is_final input)) [
    | inl final ↦ absurd (ground (arith, final, h))
    | inr not_final ↦ elim (Option-cases (top 5 p)) [
      | inl f ↦ absurd (ground (arith, not_final, f, h))
      | inr (negsuc n, f) ↦ absurd (ground (arith, not_final, f, h))
      | inr (pos n, f) ↦
          let (kind, le) =
            (compare_locktime_iff n p.transaction.locktime).0 (ground (arith, not_final, f, h)) in
          record {
            input = input;
            found = e;
            open_input = ground (arith, not_final);
            locktime = n;
            reads = f;
            same_kind = kind;
            reached = le;
          }
    ]
  ]

  met_succeeds : IsLockMet p → is_success (op_check_locktime_verify p).0 ≡ true
  unfolding check_locktime is_final
  met_succeeds m = with_input m.found ∙ opened
    where
      compared : is_success (compare_locktime m.locktime p.transaction.locktime) ≡ true
      compared = (compare_locktime_iff m.locktime p.transaction.locktime).1 (m.same_kind, m.reached)

      opened : is_success (check_locktime m.input p) ≡ true
      opened = ground (arith, m.open_input, m.reads, compared)

  -- With BIP65 active, the operation succeeds exactly where the input is not final and the top of
  -- the stack reads as a lock time of the transaction's kind, block height or time, that the
  -- transaction's lock time has reached.
  pub op_check_locktime_verify_iff :
      (is_success (op_check_locktime_verify p).0 ≡ true) ↔ IsLockMet p
  op_check_locktime_verify_iff = (forward, met_succeeds)
    where
      forward : is_success (op_check_locktime_verify p).0 ≡ true → IsLockMet p
      forward h = elim (Option-cases (get_elem? p.transaction.inputs p.input_index)) [
        | inl e ↦ absurd (ground (arith, no_input e, h))
        | inr (input, e) ↦ lock_met input e (sym (with_input e) ∙ h)
      ]
