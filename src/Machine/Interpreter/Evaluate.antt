-- ===== src/Machine/Interpreter/Evaluate.antt =====
-- What a script whose evaluation succeeds is known to be.
use bitprim_core.Common.{ℕ, suc, ◌+◌, ◌≤◌, ◌≡◌, refl, arith, true, false}
use bitprim_core.Common.{some, List, [], ◌∷◌, length, All}
use bitprim_core.Common.{Bool-cases, ◌⊎◌, inl, inr}
use bitprim_core.Machine.ErrorCode.{is_success}
use bitprim_core.Machine.Operation.{Operation, is_oversized}
use bitprim_core.Machine.Operation.Classes.{is_disabled}
use bitprim_core.Machine.Operation.Script.{operations}
use bitprim_core.Machine.Program.{Program, is_valid, closed, max_counted_ops}
use bitprim_core.Machine.Program.Conditions.{IsBalanced, count_false}
use bitprim_core.Machine.Interpreter.Crypto.{Library}
use bitprim_core.Machine.Interpreter.Run.{step, run_ops, run}
use bitprim_core.Machine.Interpreter.Nesting.{nest, count_of}
use bitprim_core.Machine.Interpreter.Round.{StacksFit, Went, step-Went}

-- The number of operations that count towards the limit.
unfoldable pub counted_ops : List Operation → ℕ
counted_ops [] = 0
counted_ops (op ∷ ops) = count_of op.code + counted_ops ops

-- An operation that evaluation admits, whether or not it is executed.
abbrev pub IsAdmitted : Operation → Type 0
IsAdmitted op = (is_oversized op ≡ false) × (is_disabled op.code ≡ false)

-- What evaluation that ends with success from `p` on, over `ops`, guarantees.
pub record Succeeded (ops : List Operation) (p q : Program) : Type 0 where
  pub admitted : All IsAdmitted ops
  pub nested : nest ops (length p.condition) ≡ some 0
  pub counted : (ops ≡ []) ⊎ (p.operation_count + counted_ops ops ≤ max_counted_ops)
  pub balanced : IsBalanced p → IsBalanced q
  pub stacks : StacksFit p → StacksFit q

joined :
    {op : Operation} {ops : List Operation} {p q r : Program}
    → Went op p q
    → Succeeded ops q r
    → Succeeded (op ∷ ops) p r
unfolding nest counted_ops
joined {op} {ops} w s = record {
  admitted = ((w.fits, w.enabled), s.admitted);
  nested = rw (nest, w.nested) (s.nested);
  counted = inr (elim s.counted [
    | inl ended ↦ rw (ended) (omega (arith, w.limited))
    | inr rest ↦ omega (arith, rest, w.counted)
  ]);
  balanced = λ v. s.balanced (w.balanced v);
  stacks = λ f. s.stacks (w.stacks f);
}

module _ (library : Library) where
  ended :
      (p : Program) (address : ℕ)
      → is_success (run_ops library address [] p).0 ≡ true
      → Succeeded [] p (run_ops library address [] p).1
        × closed (run_ops library address [] p).1 ≡ true
  unfolding is_success nest counted_ops run_ops
  ended p address h = (
    record {
      admitted = tt;
      nested = ground arith;
      counted = inl refl;
      balanced = λ v. v;
      stacks = λ f. f;
    },
    ground arith,
  )

  run_ops-Succeeded :
      (ops : List Operation) (address : ℕ) (p : Program)
      → is_success (run_ops library address ops p).0 ≡ true
      → Succeeded ops p (run_ops library address ops p).1
        × closed (run_ops library address ops p).1 ≡ true
  unfolding run_ops is_success
  run_ops-Succeeded [] address p h = ended p address h
  run_ops-Succeeded (op ∷ ops) address p h =
      elim (Bool-cases (is_success (step library address op p).0)) [
        | inr failed ↦ absurd (stop (rw (run_ops, failed, failed) at h))
        | inl ok ↦
            rw (run_ops, ok)
              (let (s, c) =
                  run_ops-Succeeded ops (suc address) (step library address op p).1
                    (rw (run_ops, ok) at h) in
                (joined (step-Went library address op p ok) s, c))
      ]
    where
      stop : false ≡ true → ⊥
      stop e = cc

-- What `run` that returns success guarantees of a program as its constructor leaves it.
pub record Accepted (p q : Program) : Type 0 where
  pub valid : is_valid p ≡ true
  pub admitted : All IsAdmitted (operations p.script)
  pub nested : nest (operations p.script) 0 ≡ some 0
  pub counted : counted_ops (operations p.script) ≤ max_counted_ops
  pub closes : closed q ≡ true
  pub balanced : IsBalanced q
  pub stacks : StacksFit q

-- No conditional is open and nothing is counted yet.
pub record IsFresh (p : Program) : Type 0 where
  pub condition : p.condition ≡ []
  pub negative_count : p.negative_count ≡ 0
  pub operation_count : p.operation_count ≡ 0

accepted :
    {p q : Program}
    → IsFresh p
    → StacksFit p
    → is_valid p ≡ true
    → Succeeded (operations p.script) p q
    → closed q ≡ true
    → Accepted p q
unfolding counted_ops count_false
accepted {p} f fit valid s c = record {
  valid = valid;
  admitted = s.admitted;
  nested = cc (s.nested, f.condition);
  counted = elim s.counted [
    | inl e ↦ rw (e) (omega arith)
    | inr le ↦ omega (arith, le, f.operation_count)
  ];
  closes = c;
  balanced = s.balanced (record { count = rw (f.negative_count, f.condition) (refl) });
  stacks = s.stacks fit;
}

-- Where `run` returns success, from a program with no conditional open, no operation counted and
-- both stacks within the limit, the script has a valid operation list, none of its operations is
-- oversized or disabled (not even in a branch that is not taken), its conditionals are well nested,
-- and it has at most 201 counted operations; the program after it has its conditional stack
-- closed, the counter of false conditions in agreement with that stack, and both stacks within the
-- limit.
pub run-Accepted :
    (library : Library) (p : Program)
    → IsFresh p
    → StacksFit p
    → is_success (run library p).0 ≡ true
    → Accepted p (run library p).1
unfolding is_success run
run-Accepted library p f fit h = elim (Bool-cases (is_valid p)) [
  | inr bad ↦ absurd (stop (rw (run, bad) at h))
  | inl good ↦
      rw (run, good)
        (let (s, c) = run_ops-Succeeded library (operations p.script) 0 p (rw (run, good) at h) in
          accepted f fit good s c)
]
  where
    stop : false ≡ true → ⊥
    stop e = cc
