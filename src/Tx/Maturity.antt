-- ===== src/Tx/Maturity.antt =====
-- The maturity rule of `validate_transaction` (node/tx.py), and what it does to a caller that
-- leaves `current_height` at its default, as `mine` of node/node.py does.
use arche_blockchain.Prelude.{
  ℕ, ◌≡◌, true, false, subst, some, List, [], ◌∷◌, ◌++◌, All, inl, inr, Bool-cases, text_eq,
}
use arche_blockchain.Int.{ℤ, int_laws}
use arche_blockchain.Dict
use arche_blockchain.Encoding.{Bytes}
use arche_blockchain.Tx.{Crypto, TxInput, TxDict, UtxoSet}
use arche_blockchain.Tx.Validate.{
  Rules, default_rules, effective_maturity, effective_heights, validate_transaction,
}
use arche_blockchain.Tx.Inputs.{OldEnough, IsMature, InputOk}
use arche_blockchain.Tx.Spends.{validate_sound}

module _ (crypto : Crypto) (rules : Rules) (utxo : UtxoSet) where
  IsMature-of_All :
      (sig_hash : Bytes) (is : List TxInput)
      → All (InputOk crypto rules utxo sig_hash) is
      → All (IsMature rules utxo) is
  IsMature-of_All sig_hash [] h = tt
  IsMature-of_All sig_hash (i ∷ is) ((out, found, old, owned), h) =
      (old, IsMature-of_All sig_hash is h)

  pub validate-IsMature :
      (tx : TxDict)
      → validate_transaction crypto rules utxo tx ≡ true
      → All (IsMature rules utxo) tx.inputs
  validate-IsMature tx h =
      IsMature-of_All _ tx.inputs (validate_sound crypto rules utxo tx h).inputs_ok

All-mid {ℓ κ} :
    {A : Type ℓ} (P : A → Type κ) (xs : List A) (y : A) (ys : List A) → All P (xs ++ (y ∷ ys)) → P y
All-mid P [] y ys h = h.0
All-mid P (x ∷ xs) y ys h = All-mid P xs y ys h.1

-- With the default arguments, the minimum fee aside, no transaction that spends an output of a
-- tracked coinbase is valid, however old that output is.
pub default_height_rejects :
    (crypto : Crypto) (min_fee : ℤ) (utxo : UtxoSet) (tx : TxDict) (before after : List TxInput)
    (i : TxInput) (height : ℕ)
    → tx.inputs ≡ before ++ (i ∷ after)
    → Dict.get i.txid utxo.coinbase_heights ≡ some height
    → validate_transaction crypto (record default_rules { min_fee = min_fee }) utxo tx ≡ false
unfolding effective_maturity effective_heights
default_height_rejects crypto min_fee utxo tx before after i height e h =
    elim (Bool-cases
      (validate_transaction crypto (record default_rules { min_fee = min_fee }) utxo tx)) [
        | inl accepted ↦
            let rules : Rules = record default_rules { min_fee = min_fee } in
            let mature : All (IsMature rules utxo) (before ++ (i ∷ after)) =
              rw e at (validate-IsMature crypto rules utxo tx accepted) in
            let now : OldEnough rules (some height) =
              subst (OldEnough rules) h (All-mid (IsMature rules utxo) before i after mature) in
            absurd (omega (int_laws, now))
        | inr refused ↦ refused
      ]
