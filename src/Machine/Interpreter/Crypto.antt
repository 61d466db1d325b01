-- ===== src/Machine/Interpreter/Crypto.antt =====
-- The hash operations and the signature checks. Hashing and elliptic curves are libraries that the
-- sources call, and are parameters here.
use bitprim_core.Common.{
  ℕ, ◌^◌, bit_and, Bool, true, false, not, ◌&&◌, ◌||◌, Option, none, some, List, [],
}
use bitprim_core.Common.{◌∷◌, ◌==◌, if◌then◌else◌, length, Bytes}
use bitprim_core.Common.Int.{ℤ, pos, ltb_ℤ, pos_part}
use bitprim_core.Chain.SignatureHash.{generate_signature_hash}
use bitprim_core.Machine.ErrorCode.{ErrorCode, is_success, is_lax_encoding}
use bitprim_core.Machine.Operation.Script.{operations_to_data, find_and_delete}
use bitprim_core.Machine.Program.{
  Program, ScriptVersion, version_zero, unversioned, push_move, push_bool, empty, pop, pop_int32,
  pop_section, count_public_keys, subscript,
}
use bitprim_core.Machine.Interpreter.Stack.{Handler, succeed, fail, needs}

pub record Library : Type 0 where
  pub ripemd160_hash : Bytes → Bytes
  pub sha1_hash : Bytes → Bytes
  pub sha256_hash : Bytes → Bytes
  -- The EC signature that a DER encoding holds, read strictly or not.
  pub parse_der : Bytes → Bool → Option Bytes
  -- Public key, digest and EC signature.
  pub verify_signature : Bytes → Bytes → Bytes → Bool

-- include/bitcoin/bitcoin/machine/rule_fork.hpp
abbrev pub bip66_rule : ℕ
bip66_rule = 2 ^ 4

abbrev pub bip65_rule : ℕ
bip65_rule = 2 ^ 5

abbrev pub bip112_rule : ℕ
bip112_rule = 2 ^ 9

abbrev pub bip143_rule : ℕ
bip143_rule = 2 ^ 12

abbrev pub bip147_rule : ℕ
bip147_rule = 2 ^ 13

-- `script::is_enabled(active_forks, fork)`
unfoldable pub is_enabled : ℕ → ℕ → Bool
is_enabled active_forks fork = not (bit_and fork active_forks == 0)

-- `parse_endorsement`: the last byte is the sighash type, the others are the DER signature.
unfoldable pub parse_endorsement : Bytes → Option (ℕ × Bytes)
parse_endorsement [] = none
parse_endorsement (b ∷ []) = some (b, [])
parse_endorsement (b ∷ c ∷ bs) = elim (parse_endorsement (c ∷ bs)) [
  | none ↦ none
  | some (sighash, der) ↦ some (sighash, b ∷ der)
]

-- `program.version() == script_version::zero`
unfoldable pub is_version_zero : ScriptVersion → Bool
is_version_zero version_zero = true
is_version_zero version = false

-- The subscript, with endorsements stripped unless the program is a version 0 witness.
unfoldable pub script_code : List Bytes → Program → Bytes
script_code endorsements p =
    let code = operations_to_data (subscript p) in
    if is_enabled p.forks bip143_rule && is_version_zero p.version
    then code
    else find_and_delete code endorsements

-- The version that a signature is checked at.
unfoldable pub signing_version : Program → ScriptVersion
signing_version p = if is_enabled p.forks bip143_rule then p.version else unversioned

module _ (library : Library) where
  open library use {ripemd160_hash, sha1_hash, sha256_hash, parse_der, verify_signature}

  -- Replace the top item by its hash.
  abbrev hash_top : ErrorCode → (Bytes → Bytes) → Handler
  hash_top code hash p =
      if empty p then fail code p else let (item, p') = pop p in succeed (push_move (hash item) p')

  unfoldable pub op_ripemd160 : Handler
  op_ripemd160 = hash_top ErrorCode.op_ripemd160 ripemd160_hash

  unfoldable pub op_sha1 : Handler
  op_sha1 = hash_top ErrorCode.op_sha1 sha1_hash

  unfoldable pub op_sha256 : Handler
  op_sha256 = hash_top ErrorCode.op_sha256 sha256_hash

  unfoldable pub op_hash160 : Handler
  op_hash160 = hash_top ErrorCode.op_hash160 (λ item. ripemd160_hash (sha256_hash item))

  unfoldable pub op_hash256 : Handler
  op_hash256 = hash_top ErrorCode.op_hash256 (λ item. sha256_hash (sha256_hash item))

  -- `parse_signature`
  unfoldable pub parse_signature : Bytes → Bool → Option Bytes
  parse_signature der strict = if length der == 0 then none else parse_der der strict

  -- `script::check_signature`, for the program's input.
  unfoldable pub check_signature : Bytes → ℕ → Bytes → Bytes → ScriptVersion → Program → Bool
  check_signature signature sighash public_key script_code version p =
      if length public_key == 0
      then false
      else verify_signature public_key
          (generate_signature_hash sha256_hash p.transaction p.input_index script_code sighash
            version p.value)
          signature

  -- A signature with its sighash type, or why the endorsement is no such.
  unfoldable pub parse_endorsed : Bytes → Program → Option (ℕ × Bytes) × ErrorCode
  parse_endorsed endorsement p = elim (parse_endorsement endorsement) [
    | none ↦ (none, ErrorCode.invalid_signature_encoding)
    | some (sighash, der) ↦
        let bip66 = is_enabled p.forks bip66_rule in
        elim (parse_signature der bip66) [
          | none ↦ (
            none,
            if bip66
                then ErrorCode.invalid_signature_lax_encoding
                else ErrorCode.invalid_signature_encoding,
          )
          | some signature ↦ (some (sighash, signature), ErrorCode.success)
        ]
  ]

  unfoldable pub op_check_sig_verify : Handler
  op_check_sig_verify = needs 2 ErrorCode.op_check_sig_verify1 (λ p.
      let (public_key, p1) = pop p in
      let (endorsement, p2) = pop p1 in
      let code = script_code (endorsement ∷ []) p2 in
      let (parsed, why) = parse_endorsed endorsement p2 in
      elim parsed [
        | none ↦ fail why p2
        | some (sighash, signature) ↦
            if check_signature signature sighash public_key code (signing_version p2) p2
            then succeed p2
            else fail ErrorCode.incorrect_signature p2
      ])

  -- A verification whose failure is an operand, but for a lax encoding.
  abbrev pub push_verified : ErrorCode → ErrorCode × Program → ErrorCode × Program
  push_verified code (verified, p) =
      if is_lax_encoding verified then fail code p else succeed (push_bool (is_success verified) p)

  unfoldable pub op_check_sig : Handler
  op_check_sig p = push_verified ErrorCode.op_check_sig (op_check_sig_verify p)

  -- `while (true)`: from the current key on, the first that `check` accepts is current then. The
  -- source does not come here with no key left.
  unfoldable pub find_key : (Bytes → Bool) → List Bytes → Option (List Bytes)
  find_key check [] = none
  find_key check (public_key ∷ public_keys) =
      let next = find_key check public_keys in
      if check public_key then some (public_key ∷ public_keys) else next

  -- `for (auto& endorsement: endorsements)`; the list of keys begins at the current one.
  unfoldable pub verify_endorsements : Bytes → List Bytes → List Bytes → Program → ErrorCode
  verify_endorsements code [] public_keys p = ErrorCode.success
  verify_endorsements code (endorsement ∷ endorsements) public_keys p =
      let (parsed, why) = parse_endorsed endorsement p in
      let next = λ (keys : List Bytes). verify_endorsements code endorsements keys p in
      elim parsed [
        | none ↦ why
        | some (sighash, signature) ↦
            elim (find_key
              (λ public_key.
                check_signature signature sighash public_key code (signing_version p) p)
              public_keys) [ none ↦ ErrorCode.incorrect_signature | some keys ↦ next keys ]
      ]

  -- Behind the endorsements lies one more item, which is discarded.
  unfoldable pub multisig_dummy : List Bytes → List Bytes → Handler
  multisig_dummy public_keys endorsements p =
      if empty p
      then fail ErrorCode.op_check_multisig_verify7 p
      else let (dummy, p') = pop p in
        if not (length dummy == 0) && is_enabled p'.forks bip147_rule
        then fail ErrorCode.op_check_multisig_verify8 p'
        else (verify_endorsements (script_code endorsements p') endorsements public_keys p', p')

  unfoldable pub multisig_endorsements : ℤ → List Bytes → Handler
  multisig_endorsements key_count public_keys p =
      let (popped, p1) = pop_int32 p in
      elim popped [
        | none ↦ fail ErrorCode.op_check_multisig_verify4 p1
        | some signature_count ↦
            if ltb_ℤ signature_count (pos 0) || ltb_ℤ key_count signature_count
            then fail ErrorCode.op_check_multisig_verify5 p1
            else let (endorsements, p2) = pop_section (pos_part signature_count) p1 in
              elim endorsements [
                | none ↦ fail ErrorCode.op_check_multisig_verify6 p2
                | some es ↦ multisig_dummy public_keys es p2
              ]
      ]

  unfoldable pub op_check_multisig_verify : Handler
  op_check_multisig_verify p =
      let (popped, p1) = pop_int32 p in
      elim popped [
        | none ↦ fail ErrorCode.op_check_multisig_verify1 p1
        | some key_count ↦
            let (counted, p2) = count_public_keys key_count p1 in
            if not counted
            then fail ErrorCode.op_check_multisig_verify2 p2
            else let (public_keys, p3) = pop_section (pos_part key_count) p2 in
              elim public_keys [
                | none ↦ fail ErrorCode.op_check_multisig_verify3 p3
                | some keys ↦ multisig_endorsements key_count keys p3
              ]
      ]

  unfoldable pub op_check_multisig : Handler
  op_check_multisig p = push_verified ErrorCode.op_check_multisig (op_check_multisig_verify p)
