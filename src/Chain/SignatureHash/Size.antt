-- ===== src/Chain/SignatureHash/Size.antt =====
-- The size that is reserved for what a version 0 signature signs, which the source asserts.
use bitprim_core.Common.{ℕ, ◌+◌, ◌≡◌, refl, arith, Bool, true, false, not, ◌&&◌, ◌++◌}
use bitprim_core.Common.{length, length-append, get_or, Bytes, if◌then◌else◌, ltb}
use bitprim_core.Wire.Endian.{length-to_little_endian}
use bitprim_core.Wire.Serializer.{
  write_bytes, write_4_bytes_little_endian, write_8_bytes_little_endian,
}
use bitprim_core.Chain.Types.{Transaction}
use bitprim_core.Chain.Point.{length-point_to_data, point_serialized_size}
use bitprim_core.Chain.Script.{script_serialized_size, length-script_to_data}
use bitprim_core.Chain.Input.{reset_input}
use bitprim_core.Chain.SignatureHash.{
  SighashAlgorithm, to_sighash_enum, is_anyone_can_pay, is_all, is_single, null_hash, bitcoin_hash,
  to_inpoints, to_sequences, to_outputs, signed_outputs_hash, version_0_preimage, preimage_size,
}

-- Parts of known sizes, one behind the other.
append_sizes : {m n : ℕ} (xs ys : Bytes) → length xs ≡ m → length ys ≡ n → length (xs ++ ys) ≡ m + n
append_sizes {m} {n} xs ys h k = omega (arith, h, k, length-append xs ys)

either_size :
    (b : Bool) (xs ys : Bytes) {n : ℕ}
    → length xs ≡ n
    → length ys ≡ n
    → length (if b then xs else ys) ≡ n
either_size true xs ys h k = h
either_size false xs ys h k = k

module _ (sha256_hash : Bytes → Bytes)
    (size : (bytes : Bytes) → length (sha256_hash bytes) ≡ 32) where
  hash_size_lem : (bytes : Bytes) → length (bitcoin_hash sha256_hash bytes) ≡ 32
  unfolding bitcoin_hash
  hash_size_lem bytes = size (sha256_hash bytes)

  outputs_size :
      (tx : Transaction) (index : ℕ) (sighash : SighashAlgorithm)
      → length (signed_outputs_hash sha256_hash tx index sighash) ≡ 32
  unfolding signed_outputs_hash to_outputs
  outputs_size tx index sighash =
      either_size (is_all sighash) _ _ (hash_size_lem _) (
        either_size (is_single sighash && ltb index (length tx.outputs)) _ _ (hash_size_lem _) refl)

  -- The bytes that `generate_version_0_signature_hash` hashes are as many as it reserves, where hashes
  -- have 32 bytes.
  pub length-version_0_preimage :
      (tx : Transaction) (index : ℕ) (script : Bytes) (value sighash_type : ℕ)
      → length (get_or tx.inputs index reset_input).previous_output.hash ≡ 32
      → length (version_0_preimage sha256_hash tx index script value sighash_type)
        ≡ preimage_size (script_serialized_size true script)
  unfolding version_0_preimage write_4_bytes_little_endian write_8_bytes_little_endian write_bytes
      to_inpoints to_sequences point_serialized_size
  length-version_0_preimage tx index script value sighash_type h =
      let four = length-to_little_endian 4 in
      let any = is_anyone_can_pay sighash_type in
      let sighash = to_sighash_enum sighash_type in
      let inpoints =
        either_size (not any) (to_inpoints sha256_hash tx) null_hash (hash_size_lem _) refl in
      let sequences =
        either_size (not any && is_all sighash) (to_sequences sha256_hash tx) null_hash
          (hash_size_lem _) refl in
      let input = get_or tx.inputs index reset_input in
      omega (
        arith,
        append_sizes _ _ (four tx.version) (
            append_sizes _ _ inpoints (
              append_sizes _ _ sequences (
                append_sizes _ _ (length-point_to_data true input.previous_output h) (
                  append_sizes _ _ (length-script_to_data true script) (
                    append_sizes _ _ (length-to_little_endian 8 value) (
                      append_sizes _ _ (four input.sequence) (
                        append_sizes _ _ (outputs_size tx index sighash)
                          (append_sizes _ _ (four tx.locktime) (four sighash_type))))))))),
      )
