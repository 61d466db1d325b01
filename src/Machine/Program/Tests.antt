-- ===== src/Machine/Program/Tests.antt =====
-- The conditional stack at concrete inputs.
use bitprim_core.Common.{refl, true, false, [], ◌∷◌}
use bitprim_core.Chain.Types.{Transaction}
use bitprim_core.Machine.Program.{Program, unversioned, negate}
use bitprim_core.Machine.Program.Conditions.{IsBalanced, count_false, negate-IsBalanced}

abbrev no_transaction : Transaction
no_transaction = record { version = 1; locktime = 0; inputs = []; outputs = [] }

-- Inside the second of two conditionals, whose condition does not hold.
abbrev nested_program : Program
nested_program = record {
  script = [];
  transaction = no_transaction;
  input_index = 0;
  forks = 0;
  value = 0;
  version = unversioned;
  negative_count = 1;
  operation_count = 0;
  jump = 0;
  primary = [];
  alternate = [];
  condition = false ∷ true ∷ [];
}

nested_program-IsBalanced : IsBalanced nested_program
unfolding count_false
nested_program-IsBalanced = record { count = refl }

negate-IsBalanced_example : IsBalanced (negate nested_program)
negate-IsBalanced_example = negate-IsBalanced nested_program nested_program-IsBalanced refl
