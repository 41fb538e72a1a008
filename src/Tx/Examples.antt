-- ===== src/Tx/Examples.antt =====
-- The properties of transactions at concrete inputs, with toy primitives: hashes that change
-- nothing, and a signature that is always good.
use arche_blockchain.Prelude.{
  ◌≡◌, refl, ◌↔◌, some, true, false, List, [], ◌∷◌, codes, ℕ, any, text_beq,
}
use arche_blockchain.Int.{pos, ◌+ℤ◌, ◌-ℤ◌}
use arche_blockchain.Dict.{get}
use arche_blockchain.Encoding.{from_hex, hex_byte, hex_value, is_space, add_byte, to_hex, hex_digit}
use arche_blockchain.Tx.{
  Crypto, TxInput, TxDict, Transaction, UtxoSet, pubkey_to_address, output_sum,
}
use arche_blockchain.Tx.Validate.{
  Rules, default_rules, validate_transaction, check_inputs, input_ok, immature, owns, signed,
  sums_ok, effective_maturity, effective_heights,
}
use arche_blockchain.Tx.Spends.{IsValidSpend, validate_iff}
use arche_blockchain.Tx.Maturity.{default_height_rejects}
use arche_blockchain.Tx.Replay.{chain_id_of_body}
use arche_blockchain.Tx.Create.{
  Signer, Coin, create_signed_tx, Balanced, create-Balanced, sign_all, draft, select,
  payment_outputs, sign_input,
}

abbrev pub toy_crypto : Crypto
toy_crypto = record {
  sha256 = λ message. message;
  ripemd160 = λ message. message;
  verify = λ pubkey signature message. some true;
}

abbrev pub payer_input : TxInput
payer_input = record { txid = codes "aa"; index = 0; signature = codes "01"; pubkey = codes "02" }

abbrev pub payment : TxDict
payment = record {
  txid = codes "bb";
  coinbase = false;
  inputs = payer_input ∷ [];
  outputs = record { value = pos 7; address = codes "03" } ∷ [];
}

-- One unspent output of 10.
abbrev pub one_coin : UtxoSet
one_coin = record {
  utxos = ((codes "aa", 0), record { value = pos 10; address = codes "02" }) ∷ [];
  coinbase_heights = [];
}

-- The same output, of a coinbase at height 5.
abbrev one_reward : UtxoSet
one_reward = record one_coin { coinbase_heights = (codes "aa", 5) ∷ [] }

abbrev late_rules : Rules
late_rules = record default_rules { current_height = pos 105 }

pub payment-valid : validate_transaction toy_crypto default_rules one_coin payment ≡ true
unfolding validate_transaction check_inputs input_ok immature owns signed sums_ok effective_maturity
    effective_heights any text_beq get from_hex hex_byte hex_value is_space add_byte to_hex
    hex_digit pubkey_to_address output_sum ◌+ℤ◌ ◌-ℤ◌
payment-valid = refl

validate_iff_example :
    (validate_transaction toy_crypto default_rules one_coin payment ≡ true)
    ↔ IsValidSpend toy_crypto default_rules one_coin payment
validate_iff_example = validate_iff toy_crypto default_rules one_coin payment

default_height_rejects_example :
    validate_transaction toy_crypto (record default_rules { min_fee = pos 1 }) one_reward payment
    ≡ false
unfolding get text_beq
default_height_rejects_example =
    default_height_rejects toy_crypto (pos 1) one_reward payment [] [] payer_input 5 refl refl

abbrev plain : Transaction
plain = record { inputs = payment.inputs; outputs = payment.outputs }

abbrev mainnet : ℕ
mainnet = 1

chain_id_of_body_example : mainnet ≡ mainnet
chain_id_of_body_example = chain_id_of_body mainnet mainnet plain plain refl

abbrev toy_signer : Signer
toy_signer = record { public_key = λ key. some key; sign = λ key message. 1 ∷ [] }

abbrev coins : List Coin
coins =
    record { txid = codes "aa"; index = 0; value = pos 10; address = codes "02" }
    ∷ record { txid = codes "ab"; index = 1; value = pos 20; address = codes "02" }
    ∷ []

abbrev signed_tx : Transaction
signed_tx = record {
  inputs =
      record { txid = codes "aa"; index = 0; signature = codes "01"; pubkey = codes "02" }
      ∷ record { txid = codes "ab"; index = 1; signature = codes "01"; pubkey = codes "02" }
      ∷ [];
  outputs =
      record { value = pos 15; address = codes "03" }
      ∷ record { value = pos 14; address = codes "02" }
      ∷ [];
}

signed_tx-created :
    create_signed_tx toy_crypto toy_signer
      (codes "02")
      coins
      (codes "03")
      (pos 15)
      (codes "02")
      (pos 1)
      1
    ≡ some signed_tx
unfolding create_signed_tx sign_all draft select payment_outputs sign_input from_hex hex_byte
    hex_value is_space add_byte to_hex hex_digit ◌+ℤ◌ ◌-ℤ◌
signed_tx-created = refl

create-Balanced_example : Balanced coins (pos 1) signed_tx
create-Balanced_example =
    create-Balanced toy_crypto toy_signer (codes "02") coins (codes "03") (pos 15) (codes "02")
      (pos 1) 1 signed_tx signed_tx-created
