-- ===== src/Chain/SignatureHash/Same.antt =====
-- The digests of transactions that agree on what is signed.
use bitprim_core.Common.{
  ℕ, ◌<◌, ◌≡◌, refl, sym, ap, ◌∙◌, Bool, true, false, not, ◌&&◌, List, [], ◌∷◌, ◌++◌, map,
}
use bitprim_core.Common.{if◌then◌else◌, lt→ltb, length, Bytes}
use bitprim_core.Wire.Serializer.{write_4_bytes_little_endian}
use bitprim_core.Wire.Sequences.{write_all}
use bitprim_core.Machine.Program.{ScriptVersion, version_zero, version_reserved, unversioned}
use bitprim_core.Chain.Types.{Point, Input, Output, Transaction}
use bitprim_core.Chain.Point.{point_to_data}
use bitprim_core.Chain.Transaction.{output_to_wire}
use bitprim_core.Chain.SignatureHash.{
  SighashAlgorithm, sighash_all, sighash_none, sighash_single, to_sighash_enum, is_anyone_can_pay,
  is_single, is_all, null_hash, bitcoin_hash, strip_code_seperators, signature_hash,
  generate_unversioned_signature_hash, to_outputs, to_inpoints, to_sequences, signed_outputs_hash,
  version_0_preimage, generate_version_0_signature_hash, generate_signature_hash,
}
use bitprim_core.Chain.SignatureHash.Covers.{
  outpoint, outpoint_sequence, SameInputs, SameOutputs, SameSigned, signed-same, in_range,
}

output_range :
    (sighash : SighashAlgorithm) (index : ℕ) (tx tx' : Transaction)
    → SameOutputs sighash index tx tx'
    → (is_single sighash ≡ true → index < length tx.outputs)
      × (is_single sighash ≡ true → index < length tx'.outputs)
output_range sighash_single index tx tx' (here, here', same) = (λ e. here, λ e. here')
output_range sighash_all index tx tx' same = (λ e. absurd (cc), λ e. absurd (cc))
output_range sighash_none index tx tx' same = (λ e. absurd (cc), λ e. absurd (cc))

write_all-map :
    {A B : Type 0} (write : B → Bytes) (f : A → B) (xs : List A)
    → write_all (λ (a : A). write (f a)) xs ≡ write_all write (map f xs)
unfolding write_all
write_all-map write f [] = refl
write_all-map write f (x ∷ xs) =
    ap (λ (bytes : Bytes). write (f x) ++ bytes) (write_all-map write f xs)

map-points :
    (inputs : List Input)
    → map outpoint inputs ≡ map (λ (p : Point × ℕ). p.0) (map outpoint_sequence inputs)
map-points [] = refl
map-points (input ∷ inputs) = ap (λ (l : List Point). outpoint input ∷ l) (map-points inputs)

same_points :
    (sighash : SighashAlgorithm) (tx tx' : Transaction)
    → SameInputs false sighash tx tx'
    → map outpoint tx.inputs ≡ map outpoint tx'.inputs
same_points sighash_all tx tx' h =
    map-points tx.inputs ∙ (ap (map (λ (p : Point × ℕ). p.0)) h ∙ sym (map-points tx'.inputs))
same_points sighash_none tx tx' h = h
same_points sighash_single tx tx' h = h

module _ (sha256_hash : Bytes → Bytes) (tx tx' : Transaction) where
  inpoints-same :
      map outpoint tx.inputs ≡ map outpoint tx'.inputs
      → to_inpoints sha256_hash tx ≡ to_inpoints sha256_hash tx'
  unfolding to_inpoints
  inpoints-same h = ap (bitcoin_hash sha256_hash) (
      write_all-map (point_to_data true) outpoint tx.inputs
      ∙ (ap (write_all (point_to_data true)) h
          ∙ sym (write_all-map (point_to_data true) outpoint tx'.inputs)))

  sequences-same :
      map outpoint_sequence tx.inputs ≡ map outpoint_sequence tx'.inputs
      → to_sequences sha256_hash tx ≡ to_sequences sha256_hash tx'
  unfolding to_sequences
  sequences-same h =
      let write = λ (p : Point × ℕ). write_4_bytes_little_endian p.1 in
      ap (bitcoin_hash sha256_hash) (
        write_all-map write outpoint_sequence tx.inputs
        ∙ (ap (write_all write) h ∙ sym (write_all-map write outpoint_sequence tx'.inputs)))

  inpoints_part :
      (any : Bool) (sighash : SighashAlgorithm)
      → SameInputs any sighash tx tx'
      → (if not any then to_inpoints sha256_hash tx else null_hash)
        ≡ (if not any then to_inpoints sha256_hash tx' else null_hash)
  inpoints_part true sighash h = refl
  inpoints_part false sighash h = inpoints-same (same_points sighash tx tx' h)

  sequences_part :
      (any : Bool) (sighash : SighashAlgorithm)
      → SameInputs any sighash tx tx'
      → (if not any && is_all sighash then to_sequences sha256_hash tx else null_hash)
        ≡ (if not any && is_all sighash then to_sequences sha256_hash tx' else null_hash)
  sequences_part true sighash h = refl
  sequences_part false sighash_all h = sequences-same h
  sequences_part false sighash_none h = refl
  sequences_part false sighash_single h = refl

  outputs_part :
      (sighash : SighashAlgorithm) (index : ℕ)
      → SameOutputs sighash index tx tx'
      → signed_outputs_hash sha256_hash tx index sighash
        ≡ signed_outputs_hash sha256_hash tx' index sighash
  unfolding signed_outputs_hash to_outputs
  outputs_part sighash_all index h =
      ap (λ (o : List Output). bitcoin_hash sha256_hash (write_all output_to_wire o)) h
  outputs_part sighash_none index h = refl
  outputs_part sighash_single index (here, here', same) =
      rw (lt→ltb _ _ here, lt→ltb _ _ here')
        (ap (λ (o : Output). bitcoin_hash sha256_hash (output_to_wire o)) same)

  module _ (sighash_type index : ℕ) (s : SameSigned sighash_type index tx tx')
      (script : Bytes) where
    unversioned-same :
        generate_unversioned_signature_hash sha256_hash tx index script sighash_type
        ≡ generate_unversioned_signature_hash sha256_hash tx' index script sighash_type
    unfolding generate_unversioned_signature_hash
    unversioned-same =
        let (here, here') = output_range (to_sighash_enum sighash_type) index tx tx' s.outputs in
        rw
          (
            in_range tx index (to_sighash_enum sighash_type) s.in_range here,
            in_range tx' index (to_sighash_enum sighash_type) s.in_range' here',
          )
          (ap (λ (t : Transaction). signature_hash sha256_hash t sighash_type)
            (signed-same tx tx' index sighash_type (strip_code_seperators script) s.version
              s.locktime s.own (to_sighash_enum sighash_type) s.others s.outputs))

    version_0-same :
        (value : ℕ)
        → version_0_preimage sha256_hash tx index script value sighash_type
          ≡ version_0_preimage sha256_hash tx' index script value sighash_type
    unfolding version_0_preimage
    version_0-same value = cc (
      s.version,
      s.locktime,
      s.own,
      inpoints_part (is_anyone_can_pay sighash_type) (to_sighash_enum sighash_type) s.others,
      sequences_part (is_anyone_can_pay sighash_type) (to_sighash_enum sighash_type) s.others,
      outputs_part (to_sighash_enum sighash_type) index s.outputs,
    )

-- The digest that a signature signs, of either version, is the same for two transactions that
-- agree on what the type of the signature signs: the version, the lock time and the own input's
-- point and sequence; the points of the other inputs, and for a signature of all outputs their
-- sequences, unless anyone can pay; and all outputs, none, or the one at the input's index.
pub generate_signature_hash-same :
    (sha256_hash : Bytes → Bytes) (tx tx' : Transaction) (index sighash_type : ℕ) (script : Bytes)
    (version : ScriptVersion) (value : ℕ)
    → SameSigned sighash_type index tx tx'
    → generate_signature_hash sha256_hash tx index script sighash_type version value
      ≡ generate_signature_hash sha256_hash tx' index script sighash_type version value
unfolding generate_signature_hash generate_version_0_signature_hash
generate_signature_hash-same sha tx tx' index sighash_type script unversioned value s =
    unversioned-same sha tx tx' sighash_type index s script
generate_signature_hash-same sha tx tx' index sighash_type script version_zero value s =
    ap (bitcoin_hash sha) (version_0-same sha tx tx' sighash_type index s script value)
generate_signature_hash-same sha tx tx' index sighash_type script version_reserved value s = refl
