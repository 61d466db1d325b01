-- ===== src/Machine/Interpreter/Multisig.antt =====
-- Which endorsements `op_check_multisig_verify` accepts for which public keys.
use bitprim_core.Common.{ℕ, zero, suc, ◌≡◌, refl, sym, ap, ◌∙◌, ◌↔◌, Bool, true, false, none, some}
use bitprim_core.Common.{List, [], ◌∷◌, ◌++◌, append_assoc, arith, replicate, Bytes}
use bitprim_core.Common.{Bool-cases, Option-cases, inl, inr}
use mathlib.Core.Path.{subst}
use bitprim_core.Machine.ErrorCode.{ErrorCode, is_success}
use bitprim_core.Machine.Program.{Program}
use bitprim_core.Machine.Interpreter.Crypto
use bitprim_core.Machine.Interpreter.Crypto.{Library}

module _ (library : Library) (code : Bytes) (p : Program) where
  -- The endorsement holds a valid signature by the key.
  unfoldable pub signs : Bytes → Bytes → Bool
  signs endorsement public_key = elim (Crypto.parse_endorsed library endorsement p).0 [
    | none ↦ false
    | some (sighash, signature) ↦
        Crypto.check_signature library signature sighash public_key code (Crypto.signing_version p)
          p
  ]

  -- Each endorsement has a key that made it, and no key stands before that of the endorsement
  -- before. Two endorsements can have the same key.
  abbrev pub IsMatched : List Bytes → List Bytes → Type 0
  IsMatched [] public_keys = Unit
  IsMatched (endorsement ∷ endorsements) public_keys =
      (before : List Bytes) × (public_key : Bytes) × (after : List Bytes) × (public_keys
        ≡ before ++ public_key ∷ after)
      × (signs endorsement public_key ≡ true)
      × IsMatched endorsements (public_key ∷ after)

  -- Keys before the matched ones do no harm.
  IsMatched-append : (es xs ys : List Bytes) → IsMatched es ys → IsMatched es (xs ++ ys)
  IsMatched-append [] xs ys m = tt
  IsMatched-append (e ∷ es) xs ys (before, k, after, w, s, m) =
      (xs ++ before, k, after, rw append_assoc (ap (λ (l : List Bytes). xs ++ l) w), s, m)

  find_key-append :
      (check : Bytes → Bool) (before : List Bytes) (k : Bytes) (after : List Bytes)
      → check k ≡ true
      → (xs : List Bytes) × (Crypto.find_key library check (before ++ k ∷ after)
          ≡ some (xs ++ k ∷ after))
  unfolding Crypto.find_key
  find_key-append check [] k after h = ([], rw (Crypto.find_key, h) refl)
  find_key-append check (b ∷ bs) k after h = elim (Bool-cases (check b)) [
    | inl first ↦ (b ∷ bs, rw (Crypto.find_key, first) refl)
    | inr other ↦
        let (xs, e) = find_key-append check bs k after h in (xs, rw (Crypto.find_key, other) e)
  ]

  find_key-some :
      (check : Bytes → Bool) (keys found : List Bytes)
      → Crypto.find_key library check keys ≡ some found
      → (before : List Bytes) × (k : Bytes) × (after : List Bytes) × (keys ≡ before ++ k ∷ after)
        × (check k ≡ true)
        × (found ≡ k ∷ after)
  unfolding Crypto.find_key
  find_key-some check [] found h = absurd (ground (arith, h))
  find_key-some check (k ∷ ks) found h = elim (Bool-cases (check k)) [
    | inl first ↦ ([], k, ks, refl, first, ground (arith, rw (Crypto.find_key, first) at h))
    | inr other ↦
        let (before, j, after, w, s, f) =
          find_key-some check ks found (rw (Crypto.find_key, other) at h) in
        (k ∷ before, j, after, ap (λ (l : List Bytes). k ∷ l) w, s, f)
  ]

  pub unparsed_fails :
      (e : Bytes)
      → (Crypto.parse_endorsed library e p).0 ≡ none
      → is_success (Crypto.parse_endorsed library e p).1 ≡ false
  unfolding Crypto.parse_endorsed is_success
  unparsed_fails e h = ground (arith, h)

  abbrev Verifies : List Bytes → List Bytes → Type 0
  Verifies es keys = is_success (Crypto.verify_endorsements library code es keys p) ≡ true

  module _ (e : Bytes) (es : List Bytes) {parsed : ℕ × Bytes}
      (good : (Crypto.parse_endorsed library e p).0 ≡ some parsed) where
    check : Bytes → Bool
    check k = Crypto.check_signature library parsed.1 parsed.0 k code (Crypto.signing_version p) p

    signs-check : (k : Bytes) → signs e k ≡ check k
    unfolding signs check
    signs-check k = rw (signs, good) refl

    verify_found :
        (keys found : List Bytes)
        → Crypto.find_key library check keys ≡ some found
        → Crypto.verify_endorsements library code (e ∷ es) keys p
          ≡ Crypto.verify_endorsements library code es found p
    unfolding Crypto.verify_endorsements check
    verify_found keys found h = rw (Crypto.verify_endorsements, good, h) refl

    verify_missing :
        (keys : List Bytes)
        → Crypto.find_key library check keys ≡ none
        → is_success (Crypto.verify_endorsements library code (e ∷ es) keys p) ≡ false
    unfolding Crypto.verify_endorsements check is_success
    verify_missing keys h = rw (Crypto.verify_endorsements, good, h) refl

  verify_unparsed :
      (e : Bytes) (es keys : List Bytes)
      → (Crypto.parse_endorsed library e p).0 ≡ none
      → is_success (Crypto.verify_endorsements library code (e ∷ es) keys p) ≡ false
  unfolding Crypto.verify_endorsements
  verify_unparsed e es keys h = rw (Crypto.verify_endorsements, h) (unparsed_fails e h)

  pub unparsed_signs :
      (e k : Bytes) → (Crypto.parse_endorsed library e p).0 ≡ none → signs e k ≡ false
  unfolding signs
  unparsed_signs e k h = rw (signs, h) refl

  contradiction : {b : Bool} → b ≡ false → b ≡ true → ⊥
  contradiction f t = cc

  verified-IsMatched : (es keys : List Bytes) → Verifies es keys → IsMatched es keys
  verified-IsMatched [] keys h = tt
  verified-IsMatched (e ∷ es) keys h = elim (Option-cases (Crypto.parse_endorsed library e p).0) [
    | inl bad ↦ absurd (contradiction (verify_unparsed e es keys bad) h)
    | inr (parsed, good) ↦ elim (Option-cases (Crypto.find_key library (check e es good) keys)) [
      | inl missing ↦ absurd (contradiction (verify_missing e es good keys missing) h)
      | inr (found, at_key) ↦
          let (before, k, after, w, s, f) = find_key-some (check e es good) keys found at_key in
          (
            before,
            k,
            after,
            w,
            signs-check e es good k ∙ s,
            subst (λ (l : List Bytes). IsMatched es l) f
                (verified-IsMatched es found (
                  subst (λ (c : ErrorCode). is_success c ≡ true)
                    (verify_found e es good keys found at_key) h)),
          )
    ]
  ]

  IsMatched-verified : (es keys : List Bytes) → IsMatched es keys → Verifies es keys
  unfolding Crypto.verify_endorsements is_success
  IsMatched-verified [] keys m = refl
  IsMatched-verified (e ∷ es) keys (before, k, after, w, s, m) =
      elim (Option-cases (Crypto.parse_endorsed library e p).0) [
        | inl bad ↦ absurd (contradiction (unparsed_signs e k bad) s)
        | inr (parsed, good) ↦
            let (xs, at_key) =
              find_key-append (check e es good) before k after
                (sym (signs-check e es good k) ∙ s) in
            let found : Crypto.find_key library (check e es good) keys ≡ some (xs ++ k ∷ after) =
              ap (λ (l : List Bytes). Crypto.find_key library (check e es good) l) w ∙ at_key in
            subst (λ (c : ErrorCode). is_success c ≡ true)
              (sym (verify_found e es good keys (xs ++ k ∷ after) found))
              (IsMatched-verified es (xs ++ k ∷ after) (IsMatched-append es xs (k ∷ after) m))
      ]

  -- The loop over the endorsements succeeds exactly where the endorsements have keys that made them,
  -- in the order of the keys. It takes the first key that fits each, and misses no assignment.
  pub verify_endorsements_iff :
      (es keys : List Bytes)
      → (is_success (Crypto.verify_endorsements library code es keys p) ≡ true) ↔ IsMatched es keys
  verify_endorsements_iff es keys = (verified-IsMatched es keys, IsMatched-verified es keys)

  repeated-IsMatched :
      (e k : Bytes) (before after : List Bytes) (n : ℕ)
      → signs e k ≡ true
      → IsMatched (replicate n e) (before ++ k ∷ after)
  repeated-IsMatched e k before after zero h = tt
  repeated-IsMatched e k before after (suc n) h =
      (before, k, after, refl, h, repeated-IsMatched e k [] after n h)

  -- An endorsement that one of the keys made is accepted in place of any number of them, since the
  -- current key stays current after it verified an endorsement.
  pub verify_endorsements-replicate :
      (e k : Bytes) (before after : List Bytes) (n : ℕ)
      → signs e k ≡ true
      → is_success (Crypto.verify_endorsements library code (replicate n e) (before ++ k ∷ after) p)
        ≡ true
  verify_endorsements-replicate e k before after n h =
      IsMatched-verified (replicate n e) (before ++ k ∷ after)
        (repeated-IsMatched e k before after n h)
