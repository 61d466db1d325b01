-- ===== src/Machine/Interpreter/Sequences.antt =====
-- When op_check_sequence_verify lets a script go on, by the relative locks that sequences stand for.
use bitprim_core.Common.{
  ℕ, ◌*◌, ◌/◌, ◌%◌, ◌^◌, ◌≤◌, ◌≡◌, ◌↔◌, ◌⊎◌, inl, inr, sym, ◌∙◌, arith, true, false,
}
use bitprim_core.Common.{some, none, get_elem?, ◌==◌, if◌then◌else◌, Option-cases}
use bitprim_core.Common.Bits.{bit_and-bit, bit_and-mask}
use bitprim_core.Common.Int.{pos, negsuc}
use bitprim_core.Chain.Types.{Input}
use bitprim_core.Machine.ErrorCode.{is_success}
use bitprim_core.Machine.Program.{Program, top}
use bitprim_core.Machine.Interpreter.Crypto.{is_enabled, bip112_rule}
use bitprim_core.Machine.Interpreter.Locktime.{
  compare_sequence, check_sequence, op_check_sequence_verify,
}

-- The age that a coin must have, by BIP68: a number of blocks or of spans of 512 seconds.
pub data RelativeLock : Type 0 where
  no_lock : RelativeLock
  blocks : ℕ → RelativeLock
  seconds : ℕ → RelativeLock

-- The lock that a sequence stands for: digit 31 disables it, digit 22 chooses the unit, and the
-- lowest 16 digits are its length.
unfoldable pub relative_lock : ℕ → RelativeLock
relative_lock sequence =
    if sequence / 2 ^ 31 % 2 == 1
    then RelativeLock.no_lock
    else if sequence / 2 ^ 22 % 2 == 1
    then RelativeLock.seconds (512 * (sequence % 65536))
    else RelativeLock.blocks (sequence % 65536)

-- A lock is held to by another one: both are of one unit and the other is no shorter.
unfoldable pub IsHeld : RelativeLock → RelativeLock → Type 0
IsHeld (RelativeLock.blocks n) (RelativeLock.blocks m) = n ≤ m
IsHeld (RelativeLock.seconds n) (RelativeLock.seconds m) = n ≤ m
IsHeld _ _ = ⊥

-- What a script demands of a transaction's version and of its input's sequence.
abbrev pub IsSequenceMet : ℕ → ℕ → ℕ → Type 0
IsSequenceMet sequence tx_version tx_sequence =
    (relative_lock sequence ≡ RelativeLock.no_lock)
    ⊎ ((2 ≤ tx_version) × IsHeld (relative_lock sequence) (relative_lock tx_sequence))

-- The same in binary digits.
record IsDigitsMet (sequence tx_version tx_sequence : ℕ) : Type 0 where
  new_version : 2 ≤ tx_version
  enabled : tx_sequence / 2 ^ 31 % 2 ≡ 0
  same_unit : sequence / 2 ^ 22 % 2 ≡ tx_sequence / 2 ^ 22 % 2
  reached : sequence % 65536 ≤ tx_sequence % 65536

compare_sequence_digits :
    (sequence tx_version tx_sequence : ℕ)
    → (is_success (compare_sequence sequence tx_version tx_sequence) ≡ true)
      ↔ ((sequence / 2 ^ 31 % 2 ≡ 1) ⊎ IsDigitsMet sequence tx_version tx_sequence)
unfolding compare_sequence is_success
compare_sequence_digits sequence tx_version tx_sequence = ground (
  arith,
  bit_and-bit 31 sequence,
  bit_and-bit 31 tx_sequence,
  bit_and-bit 22 sequence,
  bit_and-bit 22 tx_sequence,
  bit_and-mask 16 sequence,
  bit_and-mask 16 tx_sequence,
)

digits_held :
    (sequence tx_version tx_sequence : ℕ)
    → ((sequence / 2 ^ 31 % 2 ≡ 1) ⊎ IsDigitsMet sequence tx_version tx_sequence)
      ↔ IsSequenceMet sequence tx_version tx_sequence
unfolding relative_lock IsHeld
digits_held sequence tx_version tx_sequence = ground arith

compare_sequence_iff :
    (sequence tx_version tx_sequence : ℕ)
    → (is_success (compare_sequence sequence tx_version tx_sequence) ≡ true)
      ↔ IsSequenceMet sequence tx_version tx_sequence
compare_sequence_iff sequence tx_version tx_sequence =
    let (digits, of_digits) = compare_sequence_digits sequence tx_version tx_sequence in
    let (held, of_held) = digits_held sequence tx_version tx_sequence in
    (λ h. held (digits h), λ m. of_digits (of_held m))

-- The top of the stack is a sequence whose relative lock the program's input is held to.
pub record IsRelativeLockMet (p : Program) : Type 0 where
  pub input : Input
  pub found : get_elem? p.transaction.inputs p.input_index ≡ some input
  pub sequence : ℕ
  pub reads : top 5 p ≡ some (pos sequence)
  pub met : IsSequenceMet sequence p.transaction.version input.sequence

module _ (p : Program) (on : is_enabled p.forks bip112_rule ≡ true) where
  no_input :
      get_elem? p.transaction.inputs p.input_index ≡ none
      → is_success (op_check_sequence_verify p).0 ≡ false
  unfolding op_check_sequence_verify is_success
  no_input e = ground (arith, on, e)

  with_input :
      {input : Input}
      → get_elem? p.transaction.inputs p.input_index ≡ some input
      → is_success (op_check_sequence_verify p).0 ≡ is_success (check_sequence input p)
  unfolding op_check_sequence_verify is_success
  with_input e = ground (arith, on, e)

  lock_met :
      (input : Input)
      → get_elem? p.transaction.inputs p.input_index ≡ some input
      → is_success (check_sequence input p) ≡ true
      → IsRelativeLockMet p
  unfolding check_sequence is_success
  lock_met input e h = elim (Option-cases (top 5 p)) [
    | inl f ↦ absurd (ground (arith, f, h))
    | inr (negsuc n, f) ↦ absurd (ground (arith, f, h))
    | inr (pos n, f) ↦ record {
      input = input;
      found = e;
      sequence = n;
      reads = f;
      met = (compare_sequence_iff n p.transaction.version input.sequence).0 (ground (arith, f, h));
    }
  ]

  met_succeeds : IsRelativeLockMet p → is_success (op_check_sequence_verify p).0 ≡ true
  unfolding check_sequence
  met_succeeds m = with_input m.found ∙ opened
    where
      compared :
          is_success (compare_sequence m.sequence p.transaction.version m.input.sequence) ≡ true
      compared = (compare_sequence_iff m.sequence p.transaction.version m.input.sequence).1 m.met

      opened : is_success (check_sequence m.input p) ≡ true
      opened = ground (arith, m.reads, compared)

  -- With BIP112 active, the operation succeeds exactly where the program has its input, the top of
  -- the stack reads as a number that is not negative, and either that number's digit 31 is set, so
  -- it stands for no relative lock, or the transaction is of version 2 at least and its input's
  -- sequence stands for a lock of the same unit, blocks or seconds, that is no shorter.
  pub op_check_sequence_verify_iff :
      (is_success (op_check_sequence_verify p).0 ≡ true) ↔ IsRelativeLockMet p
  op_check_sequence_verify_iff = (forward, met_succeeds)
    where
      forward : is_success (op_check_sequence_verify p).0 ≡ true → IsRelativeLockMet p
      forward h = elim (Option-cases (get_elem? p.transaction.inputs p.input_index)) [
        | inl e ↦ absurd (ground (arith, no_input e, h))
        | inr (input, e) ↦ lock_met input e (sym (with_input e) ∙ h)
      ]
