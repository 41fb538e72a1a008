-- ===== src/Tx/Spends.antt =====
-- What `validate_transaction` (node/tx.py) accepts: exactly the transactions that spend distinct
-- unspent outputs, each signed by its owner and old enough, and that create no coins.
use arche_blockchain.Prelude.{
  ◌≤◌, ◌≡◌, ◌↔◌, ◌∙◌, ap, true, false, Option, none, some, inl, inr, List, [], ◌∷◌, map, arith,
  length, any, All, Option-cases, pair_eq,
}
use arche_blockchain.Int.{ℤ, pos, ◌+ℤ◌, ◌-ℤ◌, ◌≤ℤ◌, +ℤ_zero, zero-+ℤ, +ℤ_assoc}
use arche_blockchain.Dict
use arche_blockchain.Dict.{Dict}
use arche_blockchain.Params.{max_tx_inputs, max_tx_outputs}
use arche_blockchain.Encoding.{Bytes}
use arche_blockchain.Tx.{
  Crypto, TxInput, TxOutput, TxDict, signing_hash, OutPoint, out_point, UtxoSet, output_sum,
}
use arche_blockchain.Tx.Inputs.{InputOk, input_ok_sound, input_ok_complete}
use arche_blockchain.Tx.Validate.{
  Rules, input_ok, is_seen, check_inputs, is_empty, is_negative, sums_ok, unsigned,
  validate_transaction,
}

-- The value of the output that an input names, and of all that the inputs name.
abbrev pub spent_value : Dict OutPoint TxOutput → TxInput → ℤ
spent_value utxos i = elim (Dict.get (out_point i) utxos) [ none ↦ pos 0 | some out ↦ out.value ]

abbrev pub input_total : Dict OutPoint TxOutput → List TxInput → ℤ
input_total utxos [] = pos 0
input_total utxos (i ∷ is) = spent_value utxos i +ℤ input_total utxos is

-- No input names an output in `seen`, or one that an earlier input names.
abbrev pub Distinct : List OutPoint → List TxInput → Type 0
Distinct seen [] = Unit
Distinct seen (i ∷ is) = (is_seen (out_point i) seen ≡ false) × Distinct (out_point i ∷ seen) is

module _ (crypto : Crypto) (rules : Rules) (utxo : UtxoSet) (sig_hash : Bytes) where
  -- One round of the loop that goes on.
  Round : List OutPoint → ℤ → TxInput → List TxInput → ℤ → Type 0
  Round seen acc i is s =
      (out : TxOutput) × (is_seen (out_point i) seen ≡ false)
      × (Dict.get (out_point i) utxo.utxos ≡ some out)
      × (input_ok crypto rules utxo sig_hash i out ≡ true)
      × (check_inputs crypto rules utxo sig_hash (out_point i ∷ seen) (acc +ℤ out.value) is
          ≡ some s)

  check-Round :
      (seen : List OutPoint) (acc : ℤ) (i : TxInput) (is : List TxInput) (s : ℤ)
      → check_inputs crypto rules utxo sig_hash seen acc (i ∷ is) ≡ some s
      → Round seen acc i is s
  unfolding check_inputs Round
  check-Round seen acc i is s h = elim (Option-cases (Dict.get (out_point i) utxo.utxos)) [
    | inl missing ↦ ground arith
    | inr (out, found) ↦ (out, ground arith, found, ground arith, ground arith)
  ]

  pub check_inputs_sound :
      (seen : List OutPoint) (acc : ℤ) (is : List TxInput) (s : ℤ)
      → check_inputs crypto rules utxo sig_hash seen acc is ≡ some s
      → Distinct seen is
        × All (InputOk crypto rules utxo sig_hash) is
        × (s ≡ acc +ℤ input_total utxo.utxos is)
  unfolding check_inputs Round
  check_inputs_sound seen acc [] s h = (tt, tt, cc (+ℤ_zero acc))
  check_inputs_sound seen acc (i ∷ is) s h =
      let (out, new, found, good, more) = check-Round seen acc i is s h in
      let (distinct, rest, total) =
        check_inputs_sound (out_point i ∷ seen) (acc +ℤ out.value) is s more in
      let (old, owned) = input_ok_sound crypto rules utxo sig_hash i out good in
      (
        (new, distinct),
        ((out, found, old, owned), rest),
        ground (arith, total, +ℤ_assoc acc out.value (input_total utxo.utxos is)),
      )

  pub check_inputs_complete :
      (seen : List OutPoint) (acc : ℤ) (is : List TxInput)
      → Distinct seen is
      → All (InputOk crypto rules utxo sig_hash) is
      → check_inputs crypto rules utxo sig_hash seen acc is
        ≡ some (acc +ℤ input_total utxo.utxos is)
  unfolding check_inputs
  check_inputs_complete seen acc [] d a = cc (+ℤ_zero acc)
  check_inputs_complete seen acc (i ∷ is) (new, d) ((out, found, old, owned), a) = ground (
    arith,
    input_ok_complete crypto rules utxo sig_hash i out old owned,
    check_inputs_complete (out_point i ∷ seen) (acc +ℤ out.value) is d a,
    +ℤ_assoc acc out.value (input_total utxo.utxos is),
  )

sums_ok_sound :
    (rules : Rules) (s o : ℤ) → sums_ok rules s o ≡ true → (o ≤ℤ s) × (rules.min_fee ≤ℤ s -ℤ o)
unfolding sums_ok
sums_ok_sound rules s o h = ground arith

sums_ok_complete :
    (rules : Rules) (s o : ℤ) → o ≤ℤ s → rules.min_fee ≤ℤ s -ℤ o → sums_ok rules s o ≡ true
unfolding sums_ok
sums_ok_complete rules s o h k = ground arith

-- What makes a transaction valid.
pub record IsValidSpend (crypto : Crypto) (rules : Rules) (utxo : UtxoSet) (tx : TxDict)
    : Type 0 where
  pub has_inputs : is_empty tx.inputs ≡ false
  pub has_outputs : is_empty tx.outputs ≡ false
  pub few_inputs : length tx.inputs ≤ max_tx_inputs
  pub few_outputs : length tx.outputs ≤ max_tx_outputs
  pub nonneg : any is_negative tx.outputs ≡ false
  pub distinct : Distinct [] tx.inputs
  pub inputs_ok :
      All
        (InputOk crypto rules utxo (
          signing_hash crypto rules.chain_id
            (record { inputs = map unsigned tx.inputs; outputs = tx.outputs })))
        tx.inputs
  pub no_inflation : output_sum tx.outputs ≤ℤ input_total utxo.utxos tx.inputs
  pub pays_fee : rules.min_fee ≤ℤ input_total utxo.utxos tx.inputs -ℤ output_sum tx.outputs

module _ (crypto : Crypto) (rules : Rules) (utxo : UtxoSet) (tx : TxDict) where
  abbrev hash : Bytes
  hash =
      signing_hash crypto rules.chain_id
        (record { inputs = map unsigned tx.inputs; outputs = tx.outputs })

  abbrev looked : Option ℤ
  looked = check_inputs crypto rules utxo hash [] (pos 0) tx.inputs

  -- `validate_transaction` decides that.
  pub validate_sound :
      validate_transaction crypto rules utxo tx ≡ true → IsValidSpend crypto rules utxo tx
  unfolding validate_transaction
  validate_sound h = elim (Option-cases looked) [
    | inl refused ↦ ground arith
    | inr (s, e) ↦
        let (distinct, inputs_ok, total) =
          check_inputs_sound crypto rules utxo hash [] (pos 0) tx.inputs s e in
        let same : s ≡ input_total utxo.utxos tx.inputs = total ∙ zero-+ℤ _ in
        let sums : sums_ok rules s (output_sum tx.outputs) ≡ true = ground arith in
        let (no_inflation, pays_fee) =
          sums_ok_sound rules (input_total utxo.utxos tx.inputs) (output_sum tx.outputs)
            (rw same at sums) in
        record {
          has_inputs = ground arith;
          has_outputs = ground arith;
          few_inputs = ground arith;
          few_outputs = ground arith;
          nonneg = ground arith;
          distinct = distinct;
          inputs_ok = inputs_ok;
          no_inflation = no_inflation;
          pays_fee = pays_fee;
        }
  ]

  pub validate_complete :
      IsValidSpend crypto rules utxo tx → validate_transaction crypto rules utxo tx ≡ true
  unfolding validate_transaction
  validate_complete v =
      let total : ℤ = input_total utxo.utxos tx.inputs in
      let e : looked ≡ some total =
        check_inputs_complete crypto rules utxo hash [] (pos 0) tx.inputs v.distinct v.inputs_ok
        ∙ ap some (zero-+ℤ total) in
      let sums : sums_ok rules total (output_sum tx.outputs) ≡ true =
        sums_ok_complete rules total (output_sum tx.outputs) v.no_inflation v.pays_fee in
      ground arith

  -- `validate_transaction` returns True exactly for the transactions that have inputs and outputs
  -- within the limits, no negative output, distinct unspent inputs each of which is old enough and has
  -- a signature that verifies under a key whose address the spent output is locked to, outputs of at
  -- most the inputs' value, and the minimum fee.
  pub validate_iff :
      (validate_transaction crypto rules utxo tx ≡ true) ↔ IsValidSpend crypto rules utxo tx
  validate_iff = (validate_sound, validate_complete)
