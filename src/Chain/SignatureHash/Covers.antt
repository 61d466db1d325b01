-- ===== src/Chain/SignatureHash/Covers.antt =====
-- What the digest of a signature depends on: the parts of the transaction that its type signs.
use bitprim_core.Common.{
  ℕ, ◌<◌, ◌≡◌, refl, sym, ap, ap₂, ◌∙◌, arith, Bool, true, false, List, [], ◌∷◌, ◌++◌, map,
}
use bitprim_core.Common.{length, get_or, set, replicate, Bytes}
use bitprim_core.Chain.Types.{Point, Input, Output, Transaction}
use bitprim_core.Chain.Input.{reset_input}
use bitprim_core.Chain.Transaction.{default_output}
use bitprim_core.Chain.SignatureHash.{
  SighashAlgorithm, sighash_all, sighash_none, sighash_single, to_sighash_enum, is_anyone_can_pay,
  sequenceless_inputs, scriptless_inputs, single_output, signed_transaction, is_single,
  is_out_of_range,
}

-- What a signature signs of an input that is not its own.
abbrev pub outpoint : Input → Point
outpoint input = input.previous_output

abbrev pub outpoint_sequence : Input → Point × ℕ
outpoint_sequence input = (input.previous_output, input.sequence)

-- The other inputs, where the type does not say that anyone can pay.
abbrev pub SameInputs : Bool → SighashAlgorithm → Transaction → Transaction → Type 0
SameInputs true sighash tx tx' = Unit
SameInputs false sighash_all tx tx' =
    map outpoint_sequence tx.inputs ≡ map outpoint_sequence tx'.inputs
SameInputs false sighash tx tx' = map outpoint tx.inputs ≡ map outpoint tx'.inputs

abbrev pub SameOutputs : SighashAlgorithm → ℕ → Transaction → Transaction → Type 0
SameOutputs sighash_all index tx tx' = tx.outputs ≡ tx'.outputs
SameOutputs sighash_none index tx tx' = Unit
SameOutputs sighash_single index tx tx' =
    (index < length tx.outputs)
    × (index < length tx'.outputs)
    × (get_or tx.outputs index default_output ≡ get_or tx'.outputs index default_output)

-- The transactions agree on what a signature of a type signs, for an input that both have.
pub record SameSigned (sighash_type index : ℕ) (tx tx' : Transaction) : Type 0 where
  pub version : tx.version ≡ tx'.version
  pub locktime : tx.locktime ≡ tx'.locktime
  pub in_range : index < length tx.inputs
  pub in_range' : index < length tx'.inputs
  pub own :
      outpoint_sequence (get_or tx.inputs index reset_input)
      ≡ outpoint_sequence (get_or tx'.inputs index reset_input)
  pub others : SameInputs (is_anyone_can_pay sighash_type) (to_sighash_enum sighash_type) tx tx'
  pub outputs : SameOutputs (to_sighash_enum sighash_type) index tx tx'

map-outpoint :
    (f : Point → Input) (inputs : List Input)
    → map (λ (input : Input). f input.previous_output) inputs ≡ map f (map outpoint inputs)
map-outpoint f [] = refl
map-outpoint f (input ∷ inputs) =
    ap (λ (l : List Input). f input.previous_output ∷ l) (map-outpoint f inputs)

map-outpoint_sequence :
    (f : Point × ℕ → Input) (inputs : List Input)
    → map (λ (input : Input). f (outpoint_sequence input)) inputs
      ≡ map f (map outpoint_sequence inputs)
map-outpoint_sequence f [] = refl
map-outpoint_sequence f (input ∷ inputs) =
    ap (λ (l : List Input). f (outpoint_sequence input) ∷ l) (map-outpoint_sequence f inputs)

-- The own input keeps its point and its sequence.
own_input : Bytes → Point × ℕ → Input
own_input script (point, sequence) = record {
  previous_output = point;
  script = script;
  witness = [];
  sequence = sequence;
}

sequenceless-same :
    (any : Bool) (tx tx' : Transaction) (index : ℕ) (script : Bytes)
    → outpoint_sequence (get_or tx.inputs index reset_input)
      ≡ outpoint_sequence (get_or tx'.inputs index reset_input)
    → SameInputs any sighash_none tx tx'
    → sequenceless_inputs any tx.inputs index script
      ≡ sequenceless_inputs any tx'.inputs index script
unfolding sequenceless_inputs own_input
sequenceless-same true tx tx' index script own others =
    ap (λ (p : Point × ℕ). own_input script p ∷ []) own
sequenceless-same false tx tx' index script own others =
    let erase = λ (point : Point). own_input [] (point, 0) in
    ap₂ (λ (l : List Input) (kept : Input). set l index kept)
      (map-outpoint erase tx.inputs ∙ (ap (map erase) others ∙ sym (map-outpoint erase tx'.inputs)))
      (ap (own_input script) own)

scriptless-same :
    (any : Bool) (tx tx' : Transaction) (index : ℕ) (script : Bytes)
    → outpoint_sequence (get_or tx.inputs index reset_input)
      ≡ outpoint_sequence (get_or tx'.inputs index reset_input)
    → SameInputs any sighash_all tx tx'
    → scriptless_inputs any tx.inputs index script ≡ scriptless_inputs any tx'.inputs index script
unfolding scriptless_inputs own_input
scriptless-same true tx tx' index script own others =
    ap (λ (p : Point × ℕ). own_input script p ∷ []) own
scriptless-same false tx tx' index script own others =
    ap₂ (λ (l : List Input) (kept : Input). set l index kept)
      (map-outpoint_sequence (own_input []) tx.inputs
        ∙ (ap (map (own_input [])) others ∙ sym (map-outpoint_sequence (own_input []) tx'.inputs)))
      (ap (own_input script) own)

single-SameInputs :
    (any : Bool) (tx tx' : Transaction)
    → SameInputs any sighash_single tx tx'
    → SameInputs any sighash_none tx tx'
single-SameInputs true tx tx' h = tt
single-SameInputs false tx tx' h = h

transaction_eq :
    (a b : Transaction)
    → a.version ≡ b.version
    → a.locktime ≡ b.locktime
    → a.inputs ≡ b.inputs
    → a.outputs ≡ b.outputs
    → a ≡ b
transaction_eq a b v l i o = cc

module _ (tx tx' : Transaction) (index sighash_type : ℕ) (script : Bytes)
    (version : tx.version ≡ tx'.version) (locktime : tx.locktime ≡ tx'.locktime)
    (own : outpoint_sequence (get_or tx.inputs index reset_input)
      ≡ outpoint_sequence (get_or tx'.inputs index reset_input)) where
  pub signed-same :
      (sighash : SighashAlgorithm)
      → SameInputs (is_anyone_can_pay sighash_type) sighash tx tx'
      → SameOutputs sighash index tx tx'
      → signed_transaction tx index script sighash_type sighash
        ≡ signed_transaction tx' index script sighash_type sighash
  unfolding signed_transaction single_output
  signed-same sighash_all others outputs =
      transaction_eq _ _ version locktime (scriptless-same _ tx tx' index script own others) outputs
  signed-same sighash_none others outputs =
      transaction_eq _ _ version locktime (sequenceless-same _ tx tx' index script own others) refl
  signed-same sighash_single others (here, here', outputs) =
      transaction_eq _ _ version locktime
        (sequenceless-same _ tx tx' index script own (single-SameInputs _ tx tx' others))
        (ap (λ (o : Output). replicate index default_output ++ o ∷ []) outputs)

pub in_range :
    (tx : Transaction) (index : ℕ) (sighash : SighashAlgorithm)
    → index < length tx.inputs
    → (is_single sighash ≡ true → index < length tx.outputs)
    → is_out_of_range tx index sighash ≡ false
unfolding is_out_of_range
in_range tx index sighash_single h k = ground (arith, k refl)
in_range tx index sighash_all h k = ground arith
in_range tx index sighash_none h k = ground arith
