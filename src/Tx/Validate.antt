-- ===== src/Tx/Validate.antt =====
-- `validate_transaction` (node/tx.py), with its loop over the inputs as a function of its own that
-- returns `none` where the loop returns False, and the sum of the inputs where it ends.
use arche_blockchain.Prelude.{
  ℕ, Bool, true, false, ◌||◌, Option, none, some, List, [], ◌∷◌, map, Text, length, any, ltb, ◌==◌,
  text_eq, pair_eq, if◌then◌else◌,
}
use arche_blockchain.Int.{ℤ, pos, ◌+ℤ◌, ◌-ℤ◌, ltb_ℤ, leb_ℤ}
use arche_blockchain.Dict
use arche_blockchain.Dict.{Dict}
use arche_blockchain.Params.{max_tx_inputs, max_tx_outputs, coinbase_maturity}
use arche_blockchain.Encoding.{Bytes, from_hex}
use arche_blockchain.Tx.{
  Crypto, pubkey_to_address, TxInput, TxOutput, TxDict, signing_hash, OutPoint, out_point, UtxoSet,
  output_sum,
}

-- The keyword arguments. `coinbase_heights` is `none` for the default.
pub record Rules : Type 0 where
  pub min_fee : ℤ
  pub chain_id : ℕ
  pub coinbase_heights : Option (Dict Text ℕ)
  pub current_height : ℤ
  pub coinbase_maturity : ℤ

-- The defaults of the signature.
abbrev pub default_rules : Rules
default_rules = record {
  min_fee = pos 0;
  chain_id = 1;
  coinbase_heights = none;
  current_height = pos 0;
  coinbase_maturity = pos 0;
}

-- A negative maturity disables the check, zero stands for the default.
unfoldable pub effective_maturity : ℤ → ℤ
effective_maturity m =
    if ltb_ℤ m (pos 0) then pos 0 else if leb_ℤ m (pos 0) then pos coinbase_maturity else m

unfoldable pub effective_heights : Rules → UtxoSet → Dict Text ℕ
effective_heights rules utxo = elim rules.coinbase_heights [
  | none ↦ utxo.coinbase_heights
  | some d ↦ d
]

-- Whether an input spends a coinbase that is not old enough.
unfoldable pub immature : Rules → UtxoSet → TxInput → Bool
unfolding effective_maturity effective_heights
immature rules utxo tin = elim (Dict.get tin.txid (effective_heights rules utxo)) [
  | none ↦ false
  | some cb_h ↦
      ltb_ℤ (rules.current_height -ℤ pos cb_h) (effective_maturity rules.coinbase_maturity)
]

-- The `try` block: any exception counts as a failed check.
unfoldable pub signed : Crypto → Bytes → TxInput → Bool
signed crypto sig_hash tin = elim (from_hex tin.pubkey) [
  | none ↦ false
  | some pubkey ↦ elim (from_hex tin.signature) [
    | none ↦ false
    | some signature ↦ elim (crypto.verify pubkey signature sig_hash) [ none ↦ false | some b ↦ b ]
  ]
]

-- The public key hashes to the address that the output is locked to.
unfoldable pub owns : Crypto → TxInput → TxOutput → Bool
owns crypto tin out = elim (from_hex tin.pubkey) [
  | none ↦ false
  | some pubkey ↦ pubkey_to_address crypto pubkey == out.address
]

-- The checks of one input after it was found, in the source's order.
unfoldable pub input_ok : Crypto → Rules → UtxoSet → Bytes → TxInput → TxOutput → Bool
input_ok crypto rules utxo sig_hash tin out =
    if immature rules utxo tin
    then false
    else if signed crypto sig_hash tin
    then owns crypto tin out
    else false

abbrev pub is_seen : OutPoint → List OutPoint → Bool
is_seen key = any (λ k. k == key)

-- `for tin in inputs`, with the set `seen` and the running sum.
unfoldable pub check_inputs :
    Crypto → Rules → UtxoSet → Bytes → List OutPoint → ℤ → List TxInput → Option ℤ
check_inputs crypto rules utxo sig_hash seen input_sum [] = some input_sum
check_inputs crypto rules utxo sig_hash seen input_sum (tin ∷ rest) =
    elim (is_seen (out_point tin) seen) [
      | true ↦ none
      | false ↦ elim (Dict.get (out_point tin) utxo.utxos) [
        | none ↦ none
        | some out ↦ elim (input_ok crypto rules utxo sig_hash tin out) [
          | false ↦ none
          | true ↦
              check_inputs crypto rules utxo sig_hash (out_point tin ∷ seen)
                (input_sum +ℤ out.value) rest
        ]
      ]
    ]

abbrev pub is_empty {ℓ} : {A : Type ℓ} → List A → Bool
is_empty [] = true
is_empty (_ ∷ _) = false

abbrev pub is_negative : TxOutput → Bool
is_negative out = ltb_ℤ out.value (pos 0)

-- The checks after the loop.
unfoldable pub sums_ok : Rules → ℤ → ℤ → Bool
sums_ok rules input_sum out_sum =
    if ltb_ℤ input_sum out_sum
    then false
    else if ltb_ℤ (input_sum -ℤ out_sum) rules.min_fee
    then false
    else true

-- The unsigned body that the signatures cover keeps the public keys and drops the signatures.
abbrev pub unsigned : TxInput → TxInput
unsigned i = record i { signature = [] }

unfoldable pub validate_transaction : Crypto → Rules → UtxoSet → TxDict → Bool
validate_transaction crypto rules utxo tx =
    let sig_hash =
      signing_hash crypto rules.chain_id
        (record { inputs = map unsigned tx.inputs; outputs = tx.outputs }) in
    let looked = check_inputs crypto rules utxo sig_hash [] (pos 0) tx.inputs in
    if is_empty tx.inputs || is_empty tx.outputs
    then false
    else if ltb max_tx_inputs (length tx.inputs)
    then false
    else if ltb max_tx_outputs (length tx.outputs)
    then false
    else if any is_negative tx.outputs
    then false
    else elim looked [
      | none ↦ false
      | some input_sum ↦ sums_ok rules input_sum (output_sum tx.outputs)
    ]
