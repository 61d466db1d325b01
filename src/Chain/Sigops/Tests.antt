-- ===== src/Chain/Sigops/Tests.antt =====
-- Counts of signature operations at concrete inputs.
use bitprim_core.Wire.Deserializer.{read_bytes, read_byte, is_exhausted}
use bitprim_core.Machine.Operation.{read_data_size, opcode_to_positive, op_from_data}
use bitprim_core.Machine.Operation.Classes.{is_positive}
use bitprim_core.Machine.Opcode.{opcode_from_byte, opcode_byte}
use bitprim_core.Common.{◌*◌, ◌≤◌, ◌≡◌, refl, true, false, [], ◌∷◌, length, Bytes}
use bitprim_core.Machine.Operation.Script.{operations_loop, operations}
use bitprim_core.Chain.Sigops.{sigops_loop, multisig_sigops, code_sigops, sigops}
use bitprim_core.Chain.Sigops.Bounds.{sigops-accurate}

-- `3 checkmultisig checksigverify`
abbrev three_keys : Bytes
three_keys = 0x53 ∷ 0xae ∷ 0xad ∷ []

three_keys_accurate : sigops true three_keys ≡ 4
unfolding sigops code_sigops multisig_sigops sigops_loop opcode_byte opcode_from_byte is_positive
    operations operations_loop op_from_data opcode_to_positive read_data_size is_exhausted read_byte
    read_bytes
three_keys_accurate = refl

three_keys_default : sigops false three_keys ≡ 21
unfolding sigops code_sigops multisig_sigops sigops_loop opcode_byte opcode_from_byte operations
    operations_loop op_from_data read_data_size is_exhausted read_byte read_bytes
three_keys_default = refl

sigops-accurate_example :
    (sigops true three_keys ≤ sigops false three_keys)
    × (sigops false three_keys ≤ 20 * length (operations three_keys))
sigops-accurate_example = sigops-accurate three_keys
