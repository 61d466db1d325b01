-- ===== src/Chain/Transaction/Parts.antt =====
-- The inputs, outputs and witnesses of a transaction read back from its wire form.
use bitprim_core.Common.{◌^◌, ◌≤◌, ◌<◌, ◌≡◌, refl, ap, arith, Bool, true, false}
use bitprim_core.Common.{Option, none, some, List, [], ◌∷◌, ◌++◌, append_assoc, le→ltb}
use bitprim_core.Common.{length, Bytes, All}
use bitprim_core.Wire.Deserializer.{Read, reader}
use bitprim_core.Wire.RoundTrip.{read_size_lem}
use bitprim_core.Wire.Sequences.{write_all, ReadsBack}
use bitprim_core.Machine.Operation.{max_block_size}
use bitprim_core.Chain.Types.{Input, Output, Transaction}
use bitprim_core.Chain.Witness.{witness_from_data-witness_to_data}
use bitprim_core.Chain.Input.{
  reset_input, input_from_data, input_to_data, IsInputRanged, input_from_data-input_to_data,
}
use bitprim_core.Chain.Output.{
  not_spent, output_from_data, IsOutputRanged, output_from_data-output_to_data,
}
use bitprim_core.Chain.Transaction.{
  read_each, read_puts, write_puts, output_to_wire, default_output, read_witnesses, write_witnesses,
  strip_witness, read_inputs, read_outputs,
}

-- The fields are in the ranges of their types and the lists within the limits of the reader, there is
-- an input, and no output is marked as spent, which the wire form leaves out.
pub record IsSendable (tx : Transaction) : Type 0 where
  pub version : tx.version < 2 ^ 32
  pub locktime : tx.locktime < 2 ^ 32
  pub has_input : 0 < length tx.inputs
  pub input_count : length tx.inputs ≤ max_block_size
  pub output_count : length tx.outputs ≤ max_block_size
  pub inputs : All (IsInputRanged true) tx.inputs
  pub outputs :
      All (λ output. IsOutputRanged output × (output.spender_height ≡ not_spent)) tx.outputs

module _ {A : Type 0} (default : A) (read : Read A) (write : A → Bytes) where
  read_each-write_all :
      (items : List A) (rest : Bytes)
      → All (ReadsBack read write) items
      → read_each default read (length items) (reader (write_all write items ++ rest))
        ≡ (items, reader rest)
  unfolding read_each write_all
  read_each-write_all [] rest h = refl
  read_each-write_all (a ∷ items) rest (ha, h) =
      rw (append_assoc, ha.back (write_all write items ++ rest), read_each-write_all items rest h)
        refl

  pub read_puts-write_puts :
      (items : List A) (rest : Bytes)
      → length items ≤ max_block_size
      → All (ReadsBack read write) items
      → read_puts default read (reader (write_puts write items ++ rest)) ≡ (items, reader rest)
  unfolding read_puts write_puts
  read_puts-write_puts items rest few h =
      rw
        (
          append_assoc,
          read_size_lem (length items) (write_all write items ++ rest) (omega arith),
          le→ltb max_block_size (length items) few,
        )
        (read_each-write_all items rest h)

inputs_read_back :
    (inputs : List Input)
    → All (IsInputRanged true) inputs
    → All (ReadsBack (input_from_data true true) (input_to_data true true)) (strip_witness inputs)
unfolding strip_witness input_to_data
inputs_read_back [] h = tt
inputs_read_back (input ∷ inputs) (hi, h) = (
  record { back = λ rest. input_from_data-input_to_data true true input rest hi },
  inputs_read_back inputs h,
)

outputs_read_back :
    (outputs : List Output)
    → All (λ output. IsOutputRanged output × (output.spender_height ≡ not_spent)) outputs
    → All (ReadsBack (output_from_data true not_spent) output_to_wire) outputs
outputs_read_back [] h = tt
outputs_read_back (output ∷ outputs) ((ho, unspent), h) =
    (record { back = λ rest. back rest }, outputs_read_back outputs h)
  where
    back :
        (rest : Bytes)
        → output_from_data true not_spent (reader (output_to_wire output ++ rest))
          ≡ (output, reader rest)
    back rest =
        let (bytes, written, read, size) = output_from_data-output_to_data true output rest ho in
        rw
          (
            ap {B = Bytes} (λ (o : Option Bytes). elim o [ none ↦ [] | some b ↦ b ]) written,
            ← unspent,
          )
          read

-- On the wire an input is written without its witness.
write_all-strip_witness :
    (w : Bool) (inputs : List Input)
    → write_all (input_to_data true w) inputs
      ≡ write_all (input_to_data true true) (strip_witness inputs)
unfolding write_all strip_witness input_to_data
write_all-strip_witness w [] = refl
write_all-strip_witness true (input ∷ inputs) =
    ap (λ (t : Bytes). input_to_data true true input ++ t) (write_all-strip_witness true inputs)
write_all-strip_witness false (input ∷ inputs) =
    ap (λ (t : Bytes). input_to_data true true input ++ t) (write_all-strip_witness false inputs)

pub length-strip_witness : (inputs : List Input) → length (strip_witness inputs) ≡ length inputs
unfolding strip_witness
length-strip_witness [] = refl
length-strip_witness (input ∷ inputs) = omega (arith, length-strip_witness inputs)

pub inputs_lem :
    (w : Bool) (inputs : List Input) (rest : Bytes)
    → length inputs ≤ max_block_size
    → All (IsInputRanged true) inputs
    → read_inputs true (reader (write_puts (input_to_data true w) inputs ++ rest))
      ≡ (strip_witness inputs, reader rest)
unfolding write_puts
inputs_lem w inputs rest few h =
    rw (write_all-strip_witness w inputs, ← length-strip_witness inputs)
      (read_puts-write_puts reset_input (input_from_data true true) (input_to_data true true)
        (strip_witness inputs) rest (omega (arith, length-strip_witness inputs))
        (inputs_read_back inputs h))

pub outputs_lem :
    (outputs : List Output) (rest : Bytes)
    → length outputs ≤ max_block_size
    → All (λ output. IsOutputRanged output × (output.spender_height ≡ not_spent)) outputs
    → read_outputs (reader (write_puts output_to_wire outputs ++ rest)) ≡ (outputs, reader rest)
outputs_lem outputs rest few h =
    read_puts-write_puts default_output (output_from_data true not_spent) output_to_wire outputs
      rest few (outputs_read_back outputs h)

pub read_witnesses-write_witnesses :
    (inputs : List Input) (rest : Bytes)
    → All (IsInputRanged true) inputs
    → read_witnesses (strip_witness inputs) (reader (write_witnesses inputs ++ rest))
      ≡ (inputs, reader rest)
unfolding read_witnesses write_witnesses strip_witness
read_witnesses-write_witnesses [] rest h = refl
read_witnesses-write_witnesses (input ∷ inputs) rest (hi, h) =
    rw
      (
        append_assoc,
        witness_from_data-witness_to_data input.witness (write_witnesses inputs ++ rest) hi.few
            hi.elements,
        read_witnesses-write_witnesses inputs rest h,
      )
      refl
