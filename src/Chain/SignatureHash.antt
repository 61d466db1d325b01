-- ===== src/Chain/SignatureHash.antt =====
-- src/chain/script.cpp: the digest that a signature signs, for a currency other than Bitcoin Cash.
-- SHA-256 is a parameter.
pub mod Covers
pub mod Same
pub mod Size
use bitprim_core.Common.{
  ℕ, suc, ◌+◌, ◌%◌, ◌^◌, Bool, true, false, not, ◌&&◌, ◌||◌, List, [], ◌∷◌, ◌++◌, map, bit_and,
}
use bitprim_core.Common.{ltb, leb, ◌==◌, if◌then◌else◌, length, get_or, set, replicate, Bytes}
use bitprim_core.Wire.Serializer.{
  write_bytes, write_4_bytes_little_endian, write_8_bytes_little_endian,
}
use bitprim_core.Wire.Sequences.{write_all}
use bitprim_core.Machine.Opcode
use bitprim_core.Machine.Operation.{Operation, code_eq}
use bitprim_core.Machine.Operation.Script.{operations, operations_to_data}
use bitprim_core.Machine.Program.{ScriptVersion, version_zero, version_reserved, unversioned}
use bitprim_core.Chain.Types.{Input, Output, Transaction}
use bitprim_core.Chain.Script.{script_to_data, script_serialized_size}
use bitprim_core.Chain.Point.{hash_size, point_to_data}
use bitprim_core.Chain.Input.{reset_input}
use bitprim_core.Chain.Transaction.{default_output, output_to_wire, transaction_to_data}

-- include/bitcoin/bitcoin/machine/sighash_algorithm.hpp
pub data SighashAlgorithm : Type 0 where
  sighash_all sighash_none sighash_single : SighashAlgorithm

abbrev pub sighash_mask : ℕ
sighash_mask = 0x1f

abbrev pub anyone_can_pay : ℕ
anyone_can_pay = 0x80

abbrev pub null_hash : Bytes
null_hash = replicate hash_size 0

-- The text `00…01`, with its bytes reversed.
abbrev pub one_hash : Bytes
one_hash = 1 ∷ replicate 31 0

-- `to_sighash_enum`
unfoldable pub to_sighash_enum : ℕ → SighashAlgorithm
to_sighash_enum sighash_type =
    if bit_and sighash_type sighash_mask == 3
    then sighash_single
    else if bit_and sighash_type sighash_mask == 2
    then sighash_none
    else sighash_all

-- `(sighash_type & sighash_algorithm::anyone_can_pay) != 0`
unfoldable pub is_anyone_can_pay : ℕ → Bool
is_anyone_can_pay sighash_type = not (bit_and sighash_type anyone_can_pay == 0)

-- `input(previous_output, script, sequence)`: with no witness.
abbrev pub signed_input : Input → Bytes → ℕ → Input
signed_input input script sequence = record {
  previous_output = input.previous_output;
  script = script;
  witness = [];
  sequence = sequence;
}

-- The inputs of `sign_none` and `sign_single`: the others lose their scripts and sequences.
unfoldable pub sequenceless_inputs : Bool → List Input → ℕ → Bytes → List Input
sequenceless_inputs any inputs input_index script_code =
    let self = get_or inputs input_index reset_input in
    let kept = signed_input self script_code self.sequence in
    if any then kept ∷ [] else set (map (λ input. signed_input input [] 0) inputs) input_index kept

-- The inputs of `sign_all`: the others lose their scripts.
unfoldable pub scriptless_inputs : Bool → List Input → ℕ → Bytes → List Input
scriptless_inputs any inputs input_index script_code =
    let self = get_or inputs input_index reset_input in
    let kept = signed_input self script_code self.sequence in
    if any
    then kept ∷ []
    else set (map (λ input. signed_input input [] input.sequence) inputs) input_index kept

-- The outputs of `sign_single`: the one of the input, behind outputs that are not set.
unfoldable pub single_output : List Output → ℕ → List Output
single_output outputs input_index =
    replicate input_index default_output ++ get_or outputs input_index default_output ∷ []

-- `strip_code_seperators`
unfoldable pub without_separators : List Operation → List Operation
without_separators [] = []
without_separators (op ∷ ops) =
    let rest = without_separators ops in
    if code_eq op.code Opcode.codeseparator then rest else op ∷ rest

unfoldable pub strip_code_seperators : Bytes → Bytes
strip_code_seperators script = operations_to_data (without_separators (operations script))

-- The transaction that an unversioned signature signs.
unfoldable pub signed_transaction : Transaction → ℕ → Bytes → ℕ → SighashAlgorithm → Transaction
signed_transaction tx input_index script_code sighash_type sighash_none = record {
  version = tx.version;
  locktime = tx.locktime;
  inputs = sequenceless_inputs (is_anyone_can_pay sighash_type) tx.inputs input_index script_code;
  outputs = [];
}
signed_transaction tx input_index script_code sighash_type sighash_single = record {
  version = tx.version;
  locktime = tx.locktime;
  inputs = sequenceless_inputs (is_anyone_can_pay sighash_type) tx.inputs input_index script_code;
  outputs = single_output tx.outputs input_index;
}
signed_transaction tx input_index script_code sighash_type sighash_all = record {
  version = tx.version;
  locktime = tx.locktime;
  inputs = scriptless_inputs (is_anyone_can_pay sighash_type) tx.inputs input_index script_code;
  outputs = tx.outputs;
}

abbrev pub is_single : SighashAlgorithm → Bool
is_single sighash_single = true
is_single sighash = false

abbrev pub is_all : SighashAlgorithm → Bool
is_all sighash_all = true
is_all sighash = false

-- No input, or no output for a single signature.
unfoldable pub is_out_of_range : Transaction → ℕ → SighashAlgorithm → Bool
is_out_of_range tx input_index sighash =
    leb (length tx.inputs) input_index || leb (length tx.outputs) input_index && is_single sighash

-- `preimage_size(script_size)`
abbrev pub preimage_size : ℕ → ℕ
preimage_size script_size = 4 + hash_size + hash_size + 36 + script_size + 8 + 4 + hash_size + 4 + 4

module _ (sha256_hash : Bytes → Bytes) where
  unfoldable pub bitcoin_hash : Bytes → Bytes
  bitcoin_hash bytes = sha256_hash (sha256_hash bytes)

  -- `signature_hash(tx, sighash_type)`
  unfoldable pub signature_hash : Transaction → ℕ → Bytes
  signature_hash tx sighash_type =
      bitcoin_hash (transaction_to_data false tx ++ write_4_bytes_little_endian sighash_type)

  unfoldable pub generate_unversioned_signature_hash : Transaction → ℕ → Bytes → ℕ → Bytes
  generate_unversioned_signature_hash tx input_index script_code sighash_type =
      let sighash = to_sighash_enum sighash_type in
      let stripped = strip_code_seperators script_code in
      if is_out_of_range tx input_index sighash
      then one_hash
      else signature_hash (signed_transaction tx input_index stripped sighash_type sighash)
          sighash_type

  unfoldable pub to_outputs : Transaction → Bytes
  to_outputs tx = bitcoin_hash (write_all output_to_wire tx.outputs)

  unfoldable pub to_inpoints : Transaction → Bytes
  to_inpoints tx =
      bitcoin_hash (write_all (λ input. point_to_data true input.previous_output) tx.inputs)

  unfoldable pub to_sequences : Transaction → Bytes
  to_sequences tx =
      bitcoin_hash (write_all (λ input. write_4_bytes_little_endian input.sequence) tx.inputs)

  -- The eighth part of the preimage: the hash of the outputs that are signed.
  unfoldable pub signed_outputs_hash : Transaction → ℕ → SighashAlgorithm → Bytes
  signed_outputs_hash tx input_index sighash =
      if is_all sighash
      then to_outputs tx
      else if is_single sighash && ltb input_index (length tx.outputs)
      then bitcoin_hash (output_to_wire (get_or tx.outputs input_index default_output))
      else null_hash

  -- What `generate_version_0_signature_hash` hashes. The source asserts that the input is there.
  unfoldable pub version_0_preimage : Transaction → ℕ → Bytes → ℕ → ℕ → Bytes
  version_0_preimage tx input_index script_code value sighash_type =
      let sighash = to_sighash_enum sighash_type in
      let any = is_anyone_can_pay sighash_type in
      let input = get_or tx.inputs input_index reset_input in
      write_4_bytes_little_endian tx.version
      ++ (write_bytes (if not any then to_inpoints tx else null_hash)
          ++ (write_bytes (if not any && is_all sighash then to_sequences tx else null_hash)
              ++ (point_to_data true input.previous_output
                  ++ (script_to_data true script_code
                      ++ (write_8_bytes_little_endian value
                          ++ (write_4_bytes_little_endian input.sequence
                              ++ (write_bytes (signed_outputs_hash tx input_index sighash)
                                  ++ (write_4_bytes_little_endian tx.locktime
                                      ++ write_4_bytes_little_endian sighash_type))))))))

  unfoldable pub generate_version_0_signature_hash : Transaction → ℕ → Bytes → ℕ → ℕ → Bytes
  generate_version_0_signature_hash tx input_index script_code value sighash_type =
      bitcoin_hash (version_0_preimage tx input_index script_code value sighash_type)

  -- `generate_signature_hash`; the source asserts that no version is reserved.
  unfoldable pub generate_signature_hash : Transaction → ℕ → Bytes → ℕ → ScriptVersion → ℕ → Bytes
  generate_signature_hash tx input_index script_code sighash_type unversioned value =
      generate_unversioned_signature_hash tx input_index script_code sighash_type
  generate_signature_hash tx input_index script_code sighash_type version_zero value =
      generate_version_0_signature_hash tx input_index script_code value sighash_type
  generate_signature_hash tx input_index script_code sighash_type version_reserved value = null_hash
