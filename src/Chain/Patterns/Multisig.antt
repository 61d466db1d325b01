-- ===== src/Chain/Patterns/Multisig.antt =====
-- src/chain/script.cpp: the multisig script that is made is told as such.
use bitprim_core.Common.{
  ℕ, zero, suc, ◌+◌, ◌-◌, ◌≤◌, ◌≡◌, inl, inr, refl, ap, ◌∙◌, arith, true, false, List, [], ◌∷◌,
  ◌++◌, map,
}
use bitprim_core.Common.{
  le→ltb, length, length-append, get_or, take, drop, take-append, Bytes, All, Bool-cases,
}
use bitprim_core.Machine.Opcode.{
  Opcode, opcode_byte, opcode_from_byte, opcode_byte-opcode_from_byte,
}
use bitprim_core.Machine.Operation.{Operation, invalid_operation}
use bitprim_core.Machine.Operation.RoundTrip.{IsCoded}
use bitprim_core.Chain.Patterns.{
  pay_multisig, output_pattern, is_public_key, op_at, all_ops, is_pay_key_hash_pattern,
  is_pay_script_hash_pattern, is_null_data_pattern, is_pay_public_key_pattern,
  is_pay_multisig_pattern,
}
use bitprim_core.Chain.Patterns.Make.{
  op_of_code, op_of_data, to_pay_multisig_pattern, all_public_keys,
}
use bitprim_core.Chain.Patterns.Data.{op_of_data-short, is_public_key-size}
use bitprim_core.Chain.Patterns.Coded.{IsCoded-checkmultisig, IsCoded-number, pushed_points}

abbrev pub IsMultisig : ℕ → List Bytes → Type 0
IsMultisig signatures points =
    (1 ≤ signatures)
    × (signatures ≤ length points)
    × (length points ≤ 16)
    × (all_public_keys points ≡ true)

get_or-at :
    (xs ys : List Operation) (k i : ℕ) (d : Operation)
    → k ≡ length xs + i
    → get_or (xs ++ ys) k d ≡ get_or ys i d
get_or-at [] ys k i d h = let e : k ≡ i = omega arith in rw e refl
get_or-at (x ∷ xs) ys zero i d h = absurd (omega arith)
get_or-at (x ∷ xs) ys (suc k) i d h = get_or-at xs ys k i d (omega arith)

length-points : (points : List Bytes) → length (map op_of_data points) ≡ length points
length-points [] = refl
length-points (point ∷ points) = ap suc (length-points points)

dup_byte : opcode_byte Opcode.dup ≡ 118
unfolding opcode_byte
dup_byte = refl

hash160_byte : opcode_byte Opcode.hash160 ≡ 169
unfolding opcode_byte
hash160_byte = refl

key_operation : (point : Bytes) → is_public_key point ≡ true → (op_of_data point).bytes ≡ point
key_operation point h = elim (is_public_key-size point h) [
  | inl e ↦ rw (op_of_data-short point (omega arith) (omega arith)) refl
  | inr e ↦ rw (op_of_data-short point (omega arith) (omega arith)) refl
]

key_operations :
    (points : List Bytes)
    → all_public_keys points ≡ true
    → all_ops (λ op. is_public_key op.bytes) (map op_of_data points) ≡ true
unfolding all_public_keys all_ops
key_operations [] h = refl
key_operations (point ∷ points) h = elim (Bool-cases (is_public_key point)) [
  | inl key ↦ rw (key_operation point key, key) (key_operations points (rw key at h))
  | inr other ↦ absurd (stop (rw other at h))
]
  where
    stop : false ≡ true → ⊥
    stop e = cc

module _ (signatures : ℕ) (points : List Bytes) (s : IsMultisig signatures points) where
  op_m : Operation
  op_m = op_of_code (opcode_from_byte (signatures + 80))

  op_n : Operation
  op_n = op_of_code (opcode_from_byte (length points + 80))

  multisig_ops : List Operation
  unfolding op_m op_n
  multisig_ops = op_m ∷ map op_of_data points ++ op_n ∷ op_of_code Opcode.checkmultisig ∷ []

  to_multisig_ops : to_pay_multisig_pattern signatures points ≡ multisig_ops
  unfolding to_pay_multisig_pattern multisig_ops
  to_multisig_ops =
      let (h1, h2, h3, h4) = s in
      rw
        (
          le→ltb signatures 1 h1,
          le→ltb (length points) signatures h2,
          le→ltb (length points) 1 (omega arith),
          le→ltb 16 (length points) h3,
          h4,
        )
        refl

  m_byte : opcode_byte op_m.code ≡ signatures + 80
  unfolding op_m
  m_byte = let (h1, h2, h3, h4) = s in opcode_byte-opcode_from_byte (signatures + 80) (omega arith)

  n_byte : opcode_byte op_n.code ≡ length points + 80
  unfolding op_n
  n_byte =
      let (h1, h2, h3, h4) = s in opcode_byte-opcode_from_byte (length points + 80) (omega arith)

  count_ops : length multisig_ops ≡ length points + 3
  unfolding multisig_ops
  count_ops = omega (
    arith,
    length-append (map op_of_data points) (op_n ∷ op_of_code Opcode.checkmultisig ∷ []),
    length-points points,
  )

  first_op : op_at multisig_ops 0 ≡ op_m
  unfolding multisig_ops
  first_op = refl

  last_op : op_at multisig_ops (length multisig_ops - 1) ≡ op_of_code Opcode.checkmultisig
  unfolding multisig_ops
  last_op =
      get_or-at (op_m ∷ map op_of_data points) _ _ 1 invalid_operation
        (omega (arith, count_ops, length-points points))

  before_last : op_at multisig_ops (length multisig_ops - 2) ≡ op_n
  unfolding multisig_ops
  before_last =
      get_or-at (op_m ∷ map op_of_data points) _ _ 0 invalid_operation
        (omega (arith, count_ops, length-points points))

  middle : take (length multisig_ops - 3) (drop 1 multisig_ops) ≡ map op_of_data points
  unfolding multisig_ops
  middle =
      let e : length multisig_ops - 3 ≡ length (map op_of_data points) =
        omega (arith, count_ops, length-points points) in
      ap (λ (n : ℕ). take n (drop 1 multisig_ops)) e ∙ take-append (map op_of_data points) _

  key_ops : all_ops (λ op. is_public_key op.bytes) (map op_of_data points) ≡ true
  key_ops = let (h1, h2, h3, h4) = s in key_operations points h4

  is_multisig : is_pay_multisig_pattern multisig_ops ≡ true
  unfolding is_pay_multisig_pattern
  is_multisig =
      rw (last_op, before_last, first_op, middle, key_ops)
        (let (h1, h2, h3, h4) = s in ground (arith, m_byte, n_byte, count_ops))

  multisig-else :
      (is_pay_key_hash_pattern multisig_ops ≡ false)
      × (is_pay_script_hash_pattern multisig_ops ≡ false)
      × (is_null_data_pattern multisig_ops ≡ false)
      × (is_pay_public_key_pattern multisig_ops ≡ false)
  unfolding is_pay_key_hash_pattern is_pay_script_hash_pattern is_null_data_pattern
      is_pay_public_key_pattern
  multisig-else =
      let (h1, h2, h3, h4) = s in
      rw first_op (
        ground (arith, m_byte, dup_byte),
        ground (arith, m_byte, hash160_byte),
        ground (arith, count_ops),
        ground (arith, count_ops),
      )

  -- A multisig script of up to 16 public keys is told as such.
  pub multisig-pattern : output_pattern (to_pay_multisig_pattern signatures points) ≡ pay_multisig
  unfolding output_pattern
  multisig-pattern =
      let (key_hash, script_hash, null, key) = multisig-else in
      rw (to_multisig_ops, key_hash, script_hash, null, key, is_multisig) refl

  pub multisig-IsCoded : All IsCoded (to_pay_multisig_pattern signatures points)
  unfolding multisig_ops op_m op_n
  multisig-IsCoded =
      let (h1, h2, h3, h4) = s in
      rw to_multisig_ops (
        IsCoded-number signatures h1 (omega arith),
        pushed_points points _ h4
            (IsCoded-number (length points) (omega arith) h3, (IsCoded-checkmultisig, tt)),
      )
