-- ===== src/Chain/Sigops.antt =====
-- src/chain/script.cpp: the signature operations of a script.
mod Bounds
mod Tests
use bitprim_core.Common.{ℕ, ◌+◌, Bool, ◌&&◌, ◌||◌, List, [], ◌∷◌, if◌then◌else◌, Bytes}
use bitprim_core.Machine.Opcode.{Opcode}
use bitprim_core.Machine.Operation.{Operation, code_eq, opcode_to_positive}
use bitprim_core.Machine.Operation.Classes.{is_positive}
use bitprim_core.Machine.Operation.Script.{operations}

abbrev pub multisig_default_sigops : ℕ
multisig_default_sigops = 20

unfoldable pub multisig_sigops : Bool → Opcode → ℕ
multisig_sigops accurate code =
    if accurate && is_positive code then opcode_to_positive code else multisig_default_sigops

-- The signature operations of one code, behind the code before it.
unfoldable pub code_sigops : Bool → Opcode → Opcode → ℕ
code_sigops accurate preceding code =
    if code_eq code Opcode.checksig || code_eq code Opcode.checksigverify
    then 1
    else if code_eq code Opcode.checkmultisig || code_eq code Opcode.checkmultisigverify
    then multisig_sigops accurate preceding
    else 0

-- `for (const auto& op: operations())`
unfoldable pub sigops_loop : Bool → Opcode → List Operation → ℕ → ℕ
sigops_loop accurate preceding [] total = total
sigops_loop accurate preceding (op ∷ ops) total =
    sigops_loop accurate op.code ops (total + code_sigops accurate preceding op.code)

-- `script::sigops(accurate)`
unfoldable pub sigops : Bool → Bytes → ℕ
sigops accurate script = sigops_loop accurate (Opcode.reserved 255) (operations script) 0
