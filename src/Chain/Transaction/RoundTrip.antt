-- ===== src/Chain/Transaction/RoundTrip.antt =====
-- Transactions read back from their wire form.
use bitprim_core.Common.{ℕ, ◌≡◌, refl, sym, ap₂, arith, Bool, true, false, not, ◌||◌}
use bitprim_core.Common.{List, [], ◌∷◌, ◌++◌, append_assoc, ◌==◌, if◌then◌else◌}
use bitprim_core.Common.{length, Bytes, Bool-cases, inl, inr}
use bitprim_core.Wire.Serializer.{
  write_byte, write_variable_little_endian, write_4_bytes_little_endian,
}
use bitprim_core.Wire.Deserializer.{
  Reader, reader, peek_byte, skip, check_safe, read_4_bytes_little_endian,
}
use bitprim_core.Wire.RoundTrip.{read_4_bytes_lem}
use bitprim_core.Wire.Sequences.{write_all}
use bitprim_core.Chain.Types.{Input, Output, Transaction}
use bitprim_core.Chain.Input.{reset_input, input_from_data, input_to_data}
use bitprim_core.Chain.Transaction.{
  write_puts, output_to_wire, write_witnesses, strip_witness, is_segregated, read_inputs,
  read_outputs, read_marker, read_segregated, read_plain, transaction_from_data,
  transaction_to_data,
}
use bitprim_core.Chain.Transaction.Parts.{
  IsSendable, read_puts-write_puts, length-strip_witness, inputs_lem, outputs_lem,
  read_witnesses-write_witnesses,
}

none_left : (stack : List Bytes) → not (length stack == 0) ≡ false → stack ≡ []
none_left [] h = refl
none_left (element ∷ stack) h = absurd (ground (arith, h))

both_false : (a b : Bool) → (a || b) ≡ false → (a ≡ false) × (b ≡ false)
both_false false b h = (refl, h)
both_false true b h = absurd (ground (arith, h))

not_segregated :
    (inputs : List Input) → is_segregated inputs ≡ false → strip_witness inputs ≡ inputs
unfolding is_segregated strip_witness
not_segregated [] h = refl
not_segregated (input ∷ inputs) h =
    let (own, others) = both_false (not (length input.witness == 0)) (is_segregated inputs) h in
    ap₂ (λ (stack : List Bytes) (rest : List Input). record input { witness = stack } ∷ rest)
      (sym (none_left input.witness own)) (not_segregated inputs others)

module _ (tx : Transaction) (h : IsSendable tx) (rest : Bytes) where
  outs : Bytes
  outs = write_puts output_to_wire tx.outputs

  plain_inputs :
      (bytes : Bytes)
      → read_inputs true (reader (write_puts (input_to_data true false) tx.inputs ++ bytes))
        ≡ (strip_witness tx.inputs, reader bytes)
  plain_inputs bytes = inputs_lem false tx.inputs bytes h.input_count h.inputs

  no_marker : (r : Reader) → read_marker (strip_witness tx.inputs) r ≡ (false, r)
  no_marker r = rw (length-strip_witness tx.inputs) (rw some_input refl)
    where
      some_input : (length tx.inputs == 0) ≡ false
      some_input = ground (arith, h.has_input)

  -- The bytes behind the inputs and outputs.
  ending : Bytes
  ending = write_4_bytes_little_endian tx.locktime ++ rest

  plain_bytes :
      is_segregated tx.inputs ≡ false
      → transaction_to_data true tx ++ rest
        ≡ write_4_bytes_little_endian tx.version
          ++ (write_puts (input_to_data true false) tx.inputs ++ (outs ++ ending))
  unfolding transaction_to_data outs ending
  plain_bytes off = rw (transaction_to_data, off, append_assoc, append_assoc, append_assoc) refl

  segregated_bytes :
      is_segregated tx.inputs ≡ true
      → transaction_to_data true tx ++ rest
        ≡ write_4_bytes_little_endian tx.version
          ++ (0
              ∷ 1
              ∷ (write_puts (input_to_data true true) tx.inputs
                  ++ (outs ++ (write_witnesses tx.inputs ++ ending))))
  unfolding transaction_to_data outs ending write_byte
  segregated_bytes on =
      rw (transaction_to_data, on, append_assoc, append_assoc, append_assoc, append_assoc) refl

-- The steps of `from_data`.
from_data_steps :
    (r r1 r2 r3 r4 : Reader) {version locktime : ℕ} {first ins : List Input} {outs : List Output}
    {marker : Bool} {rest : Bytes}
    → read_4_bytes_little_endian r ≡ (version, r1)
    → read_inputs true r1 ≡ (first, r2)
    → read_marker first r2 ≡ (marker, r3)
    → (if marker then read_segregated true r3 else read_plain first r3) ≡ ((ins, outs), r4)
    → read_4_bytes_little_endian r4 ≡ (locktime, reader rest)
    → transaction_from_data true r ≡ (
      record { version = version; locktime = locktime; inputs = ins; outputs = outs },
      reader rest,
    )
unfolding transaction_from_data
from_data_steps r r1 r2 r3 r4 e1 e2 e3 e4 e5 = rw (transaction_from_data, e1, e2, e3, e4, e5) refl

-- The marker and the flag.
no_inputs : (bytes : Bytes) → read_inputs true (reader (0 ∷ bytes)) ≡ ([], reader bytes)
unfolding write_puts write_variable_little_endian write_byte write_all
no_inputs bytes =
    read_puts-write_puts reset_input (input_from_data true true) (input_to_data true true) [] bytes
      (omega arith) tt

flag_peeked : (bytes : Bytes) → read_marker [] (reader (1 ∷ bytes)) ≡ (true, reader (1 ∷ bytes))
unfolding peek_byte check_safe
flag_peeked bytes = ground arith

flag_skipped : (bytes : Bytes) → skip 1 (reader (1 ∷ bytes)) ≡ reader bytes
unfolding skip check_safe
flag_skipped bytes = ground arith

module _ (tx : Transaction) (h : IsSendable tx) (rest : Bytes) where
  after_inputs : Bytes
  after_inputs = outs tx h rest ++ ending tx h rest

  witnesses : Bytes
  witnesses = write_witnesses tx.inputs ++ ending tx h rest

  behind_flag : Bytes
  behind_flag = write_puts (input_to_data true true) tx.inputs ++ (outs tx h rest ++ witnesses)

  Back : Bytes → Type 0
  Back bytes = transaction_from_data true (reader bytes) ≡ (tx, reader rest)

  outs_read :
      (bytes : Bytes) → read_outputs (reader (outs tx h rest ++ bytes)) ≡ (tx.outputs, reader bytes)
  unfolding outs
  outs_read bytes = outputs_lem tx.outputs bytes h.output_count h.outputs

  ending_read : read_4_bytes_little_endian (reader (ending tx h rest)) ≡ (tx.locktime, reader rest)
  unfolding ending
  ending_read = read_4_bytes_lem tx.locktime rest h.locktime

  plain_back :
      is_segregated tx.inputs ≡ false
      → transaction_from_data true (
          reader (
            write_4_bytes_little_endian tx.version
            ++ (write_puts (input_to_data true false) tx.inputs ++ after_inputs)))
        ≡ (tx, reader rest)
  unfolding after_inputs
  plain_back off =
      from_data_steps _ (reader (write_puts (input_to_data true false) tx.inputs ++ after_inputs))
        (reader after_inputs) (reader after_inputs) (reader (ending tx h rest))
        (read_4_bytes_lem tx.version _ h.version) (plain_inputs tx h rest after_inputs)
        (no_marker tx h rest (reader after_inputs))
        (rw (outs_read (ending tx h rest), not_segregated tx.inputs off) refl) ending_read

  segregated_read :
      read_segregated true (reader (1 ∷ behind_flag))
      ≡ ((tx.inputs, tx.outputs), reader (ending tx h rest))
  unfolding behind_flag witnesses
  segregated_read =
      rw
        (
          flag_skipped behind_flag,
          inputs_lem true tx.inputs (outs tx h rest ++ witnesses) h.input_count h.inputs,
          outs_read witnesses,
          read_witnesses-write_witnesses tx.inputs (ending tx h rest) h.inputs,
        )
        refl

  segregated_back :
      transaction_from_data true
        (reader (write_4_bytes_little_endian tx.version ++ (0 ∷ 1 ∷ behind_flag)))
      ≡ (tx, reader rest)
  segregated_back =
      from_data_steps _ (reader (0 ∷ 1 ∷ behind_flag)) (reader (1 ∷ behind_flag))
        (reader (1 ∷ behind_flag)) (reader (ending tx h rest))
        (read_4_bytes_lem tx.version _ h.version) (no_inputs (1 ∷ behind_flag))
        (flag_peeked behind_flag) segregated_read ending_read

  -- A transaction with an input, whose fields and lists are within their limits, reads back from its
  -- wire form, with its witnesses where an input has one, and whatever follows.
  pub transaction_from_data-transaction_to_data :
      transaction_from_data true (reader (transaction_to_data true tx ++ rest)) ≡ (tx, reader rest)
  unfolding behind_flag witnesses after_inputs
  transaction_from_data-transaction_to_data = elim (Bool-cases (is_segregated tx.inputs)) [
    | inl on ↦ rw (segregated_bytes tx h rest on) segregated_back
    | inr off ↦ rw (plain_bytes tx h rest off) (plain_back off)
  ]
