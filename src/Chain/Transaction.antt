-- ===== src/Chain/Transaction.antt =====
-- src/chain/transaction.cpp: the wire form of transactions, for a currency other than Bitcoin Cash.
pub mod Parts
pub mod RoundTrip
use bitprim_core.Common.{
  ℕ, zero, suc, ◌+◌, Bool, true, false, not, ◌&&◌, ◌||◌, Option, none, some, List, [], ◌∷◌, ◌++◌,
}
use bitprim_core.Common.{ltb, ◌==◌, if◌then◌else◌, length, Bytes}
use bitprim_core.Wire.Serializer.{
  write_byte, write_variable_little_endian, write_4_bytes_little_endian,
}
use bitprim_core.Wire.Deserializer.{
  Reader, Read, invalidate, peek_byte, skip, read_size_little_endian, read_4_bytes_little_endian,
}
use bitprim_core.Wire.Sequences.{write_all}
use bitprim_core.Machine.Operation.{max_block_size}
use bitprim_core.Chain.Types.{Input, Output, Transaction}
use bitprim_core.Chain.Witness.{witness_from_data, witness_to_data}
use bitprim_core.Chain.Input.{reset_input, input_from_data, input_to_data}
use bitprim_core.Chain.Output.{not_found, not_spent, output_from_data, output_to_data}

-- `std::for_each(puts.begin(), puts.end(), deserialize)`: none is read behind one that failed.
unfoldable pub read_each : {A : Type 0} → A → Read A → ℕ → Read (List A)
read_each default read zero r = ([], r)
read_each default read (suc n) r =
    let (a, r1) = (if r.valid then read r else (default, r)) in
    let (rest, r2) = read_each default read n r1 in (a ∷ rest, r2)

-- `read(source, puts, wire, witness)`
unfoldable pub read_puts : {A : Type 0} → A → Read A → Read (List A)
read_puts default read r =
    let (count, r') = read_size_little_endian r in
    if ltb max_block_size count then ([], invalidate r') else read_each default read count r'

-- `write(sink, puts, wire, witness)`
unfoldable pub write_puts : {A : Type 0} → (A → Bytes) → List A → Bytes
write_puts write puts = write_variable_little_endian (length puts) ++ write_all write puts

-- An output in its wire form, of which no part is out of range.
abbrev pub output_to_wire : Output → Bytes
output_to_wire output = elim (output_to_data true output) [ none ↦ [] | some bytes ↦ bytes ]

abbrev pub default_output : Output
default_output = record { value = not_found; script = []; spender_height = not_spent }

unfoldable pub read_witnesses : List Input → Read (List Input)
read_witnesses [] r = ([], r)
read_witnesses (input ∷ inputs) r =
    let (stack, r1) = witness_from_data r in
    let (rest, r2) = read_witnesses inputs r1 in (record input { witness = stack } ∷ rest, r2)

unfoldable pub write_witnesses : List Input → Bytes
write_witnesses [] = []
write_witnesses (input ∷ inputs) = witness_to_data input.witness ++ write_witnesses inputs

-- `strip_witness()`
unfoldable pub strip_witness : List Input → List Input
strip_witness [] = []
strip_witness (input ∷ inputs) = record input { witness = [] } ∷ strip_witness inputs

-- `is_segregated()`
unfoldable pub is_segregated : List Input → Bool
is_segregated [] = false
is_segregated (input ∷ inputs) = not (length input.witness == 0) || is_segregated inputs

abbrev pub reset_transaction : Transaction
reset_transaction = record { version = 0; locktime = 0; inputs = []; outputs = [] }

-- No inputs (the marker), and the flag behind them, which is peeked at only then.
abbrev pub read_marker : List Input → Read Bool
read_marker inputs r =
    if length inputs == 0 then (let (flag, r') = peek_byte r in (flag == 1, r')) else (false, r)

abbrev pub read_inputs : Bool → Read (List Input)
read_inputs witness = read_puts reset_input (input_from_data true witness)

abbrev pub read_outputs : Read (List Output)
read_outputs = read_puts default_output (output_from_data true not_spent)

-- The inputs, outputs and witnesses behind the flag.
abbrev pub read_segregated : Bool → Read (List Input × List Output)
read_segregated witness r =
    let (inputs, r1) = read_inputs witness (skip 1 r) in
    let (outputs, r2) = read_outputs r1 in
    let (witnessed, r3) = read_witnesses inputs r2 in ((witnessed, outputs), r3)

abbrev pub read_plain : List Input → Read (List Input × List Output)
read_plain inputs r = let (outputs, r') = read_outputs r in ((inputs, outputs), r')

-- `transaction::from_data(source, true, witness)`
unfoldable pub transaction_from_data : Bool → Read Transaction
transaction_from_data witness r =
    let (version, r1) = read_4_bytes_little_endian r in
    let (inputs, r2) = read_inputs witness r1 in
    let (marker, r3) = read_marker inputs r2 in
    let ((ins, outs), r4) = (if marker then read_segregated witness r3 else read_plain inputs r3) in
    let (locktime, r5) = read_4_bytes_little_endian r4 in
    if r5.valid
    then (
      record {
        version = version;
        locktime = locktime;
        inputs = if witness then ins else strip_witness ins;
        outputs = outs;
      },
      r5,
    )
    else (reset_transaction, r5)

-- What stands between the version and the lock time.
abbrev pub write_body : Bool → Transaction → Bytes
write_body witness tx =
    let ins = write_puts (input_to_data true witness) tx.inputs in
    let outs = write_puts output_to_wire tx.outputs in
    if witness
    then write_byte 0 ++ (write_byte 1 ++ (ins ++ (outs ++ write_witnesses tx.inputs)))
    else ins ++ outs

-- `transaction::to_data(sink, true, witness)`
unfoldable pub transaction_to_data : Bool → Transaction → Bytes
transaction_to_data witness tx =
    write_4_bytes_little_endian tx.version
    ++ (write_body (witness && is_segregated tx.inputs) tx
        ++ write_4_bytes_little_endian tx.locktime)
