-- ===== src/Tx/Inputs.antt =====
-- The conditions on one input of a transaction that `validate_transaction` (node/tx.py) decides.
use arche_blockchain.Prelude.{
  ℕ, ◌≡◌, ◌↔◌, refl, true, false, Option, none, some, ==_iff, arith, text_eq, pair_eq, Option-cases,
  inl, inr,
}
use arche_blockchain.Int.{pos, ◌-ℤ◌, ltb_ℤ, ◌≤ℤ◌}
use arche_blockchain.Dict
use arche_blockchain.Encoding.{Bytes, from_hex}
use arche_blockchain.Tx.{Crypto, pubkey_to_address, TxInput, TxOutput, out_point, UtxoSet}
use arche_blockchain.Tx.Validate.{
  Rules, effective_maturity, effective_heights, immature, signed, owns, input_ok,
}

-- An output of a coinbase mined at this height, if any, may be spent now.
abbrev pub OldEnough : Rules → Option ℕ → Type 0
OldEnough rules none = Unit
OldEnough rules (some h) =
    effective_maturity rules.coinbase_maturity ≤ℤ rules.current_height -ℤ pos h

-- A coinbase output is spent only after the maturity.
abbrev pub IsMature : Rules → UtxoSet → TxInput → Type 0
IsMature rules utxo i = OldEnough rules (Dict.get i.txid (effective_heights rules utxo))

-- The input has the signature of a key whose address the output is locked to.
pub record IsSigned (crypto : Crypto) (sig_hash : Bytes) (i : TxInput) (out : TxOutput)
    : Type 0 where
  pub key : Bytes
  pub signature : Bytes
  pub key_hex : from_hex i.pubkey ≡ some key
  pub signature_hex : from_hex i.signature ≡ some signature
  pub verifies : crypto.verify key signature sig_hash ≡ some true
  pub owner : pubkey_to_address crypto key ≡ out.address

-- The input names an unspent output, is old enough, and has its owner's signature.
abbrev pub InputOk : Crypto → Rules → UtxoSet → Bytes → TxInput → Type 0
InputOk crypto rules utxo sig_hash i =
    (out : TxOutput) × (Dict.get (out_point i) utxo.utxos ≡ some out)
    × IsMature rules utxo i
    × IsSigned crypto sig_hash i out

OldEnough-iff :
    (rules : Rules) (mined : Option ℕ)
    → (elim mined [
      | none ↦ false
      | some h ↦ ltb_ℤ (rules.current_height -ℤ pos h) (effective_maturity rules.coinbase_maturity)
    ]
        ≡ false)
      ↔ OldEnough rules mined
OldEnough-iff rules none = (λ h. tt, λ h. refl)
OldEnough-iff rules (some n) = (λ h. ground arith, λ h. ground arith)

module _ (crypto : Crypto) (rules : Rules) (utxo : UtxoSet) (sig_hash : Bytes) (i : TxInput)
    (out : TxOutput) where
  IsSigned-sound :
      signed crypto sig_hash i ≡ true → owns crypto i out ≡ true → IsSigned crypto sig_hash i out
  unfolding signed owns
  IsSigned-sound s o = elim (Option-cases (from_hex i.pubkey)) [
    | inl bad ↦ ground (arith, bad, s)
    | inr (key, k) ↦ elim (Option-cases (from_hex i.signature)) [
      | inl bad ↦ ground (arith, bad, k, s)
      | inr (signature, g) ↦ record {
        key = key;
        signature = signature;
        key_hex = k;
        signature_hex = g;
        verifies = ground (arith, k, g, s);
        owner = (==_iff (pubkey_to_address crypto key) out.address).0 (rw (k, owns) at o);
      }
    ]
  ]

  pub input_ok_sound :
      input_ok crypto rules utxo sig_hash i out ≡ true
      → IsMature rules utxo i × IsSigned crypto sig_hash i out
  unfolding input_ok immature
  input_ok_sound h =
      let old : immature rules utxo i ≡ false = ground (arith, h) in
      let s : signed crypto sig_hash i ≡ true = ground (arith, h) in
      let o : owns crypto i out ≡ true = ground (arith, h) in
      (
        (OldEnough-iff rules (Dict.get i.txid (effective_heights rules utxo))).0 old,
        IsSigned-sound s o,
      )

  pub input_ok_complete :
      IsMature rules utxo i
      → IsSigned crypto sig_hash i out
      → input_ok crypto rules utxo sig_hash i out ≡ true
  unfolding input_ok immature signed owns
  input_ok_complete old s =
      let young : immature rules utxo i ≡ false =
        (OldEnough-iff rules (Dict.get i.txid (effective_heights rules utxo))).1 old in
      let sealed : signed crypto sig_hash i ≡ true =
        rw (signed, s.key_hex) (rw s.signature_hex (rw s.verifies refl)) in
      let owned : owns crypto i out ≡ true =
        rw (owns, s.key_hex) ((==_iff (pubkey_to_address crypto s.key) out.address).1 s.owner) in
      rw (young, sealed) owned
