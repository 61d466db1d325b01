-- ===== src/Chain/Sigops/Bounds.antt =====
-- src/chain/script.cpp: how the two counts of signature operations bound each other.
use bitprim_core.Common.{
  ℕ, ◌+◌, ◌*◌, ◌≤◌, ◌≡◌, arith, Bool, true, false, List, [], ◌∷◌, length, Bytes,
}
use bitprim_core.Machine.Opcode.{Opcode}
use bitprim_core.Machine.Operation.{Operation, opcode_to_positive}
use bitprim_core.Machine.Operation.Classes.{is_positive}
use bitprim_core.Machine.Operation.Script.{operations}
use bitprim_core.Chain.Sigops.{multisig_sigops, code_sigops, sigops_loop, sigops}

positive_bound : (code : Opcode) → is_positive code ≡ true → opcode_to_positive code ≤ 16
unfolding is_positive opcode_to_positive
positive_bound code positive = ground arith

multisig_bound : (accurate : Bool) → (code : Opcode) → multisig_sigops accurate code ≤ 20
unfolding multisig_sigops
multisig_bound accurate code = let bound = positive_bound code in ground arith

code_bound :
    (accurate : Bool) → (preceding code : Opcode) → code_sigops accurate preceding code ≤ 20
unfolding code_sigops
code_bound accurate preceding code = let bound = multisig_bound accurate preceding in ground arith

code_accurate :
    (preceding code : Opcode) → code_sigops true preceding code ≤ code_sigops false preceding code
unfolding code_sigops multisig_sigops
code_accurate preceding code = let bound = positive_bound preceding in ground arith

loop_accurate :
    (preceding : Opcode)
    → (ops : List Operation) → (total more : ℕ) → total ≤ more
    → sigops_loop true preceding ops total ≤ sigops_loop false preceding ops more
unfolding sigops_loop
loop_accurate preceding [] total more le = le
loop_accurate preceding (op ∷ ops) total more le =
    let step = code_accurate preceding op.code in
    loop_accurate op.code ops _ _ (omega (arith, le, step))

loop_bound :
    (preceding : Opcode)
    → (ops : List Operation) → (total : ℕ)
    → sigops_loop false preceding ops total ≤ total + 20 * length ops
unfolding sigops_loop
loop_bound preceding [] total = omega arith
loop_bound preceding (op ∷ ops) total =
    let step = code_bound false preceding op.code in
    let rest = loop_bound op.code ops (total + code_sigops false preceding op.code) in
    omega (arith, step, rest)

-- The accurate count of the signature operations of a script is at most the other, which is at most
-- 20 for each operation that the script parses to.
pub sigops-accurate :
    (script : Bytes)
    → (sigops true script ≤ sigops false script)
      × (sigops false script ≤ 20 * length (operations script))
unfolding sigops
sigops-accurate script = (
  loop_accurate _ (operations script) 0 0 (omega arith),
  let rest = loop_bound (Opcode.reserved 255) (operations script) 0 in omega (arith, rest),
)
