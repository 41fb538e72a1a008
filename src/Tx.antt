-- ===== src/Tx.antt =====
-- Transactions, the set of unspent outputs and the validation of a transaction (node/tx.py).
-- Indexes and heights that the chain itself assigns are natural numbers; amounts, which come from
-- messages, are integers.
pub mod Sums
pub mod Validate
pub mod Inputs
pub mod Create
pub mod Spends
pub mod Maturity
pub mod Replay
mod Examples
use arche_blockchain.Prelude.{
  ℕ, zero, suc, ◌+◌, Bool, true, false, ◌||◌, not, Option, none, some, List, [], ◌∷◌, ◌++◌, map,
  Text, codes, length, any, ltb, leb, ◌==◌, text_eq, pair_eq, if◌then◌else◌,
}
use arche_blockchain.Int.{ℤ, pos, ◌+ℤ◌, ◌-ℤ◌, ltb_ℤ, leb_ℤ}
use arche_blockchain.Dict
use arche_blockchain.Dict.{Dict, values}
use arche_blockchain.Params.{max_tx_inputs, max_tx_outputs, coinbase_maturity}
use arche_blockchain.Encoding.{Bytes, from_hex, to_hex, str, str_ℤ, json_string, json_items}

-- The cryptographic primitives that the code takes from `hashlib` and `coincurve`. `verify` is
-- `coincurve.PublicKey(pubkey).verify(signature, message)`, and `none` where a call raises.
pub record Crypto : Type 0 where
  pub sha256 : Bytes → Bytes
  pub ripemd160 : Bytes → Bytes
  pub verify : Bytes → Bytes → Bytes → Option Bool

unfoldable pub sha256d : Crypto → Bytes → Bytes
sha256d crypto message = crypto.sha256 (crypto.sha256 message)

unfoldable pub sha256d_hex : Crypto → Bytes → Text
unfolding sha256d
sha256d_hex crypto message = to_hex (sha256d crypto message)

unfoldable pub pubkey_to_address : Crypto → Bytes → Text
pubkey_to_address crypto pubkey = to_hex (crypto.ripemd160 (crypto.sha256 pubkey))

pub record TxInput : Type 0 where
  pub txid : Text
  pub index : ℕ
  pub signature : Text
  pub pubkey : Text

pub record TxOutput : Type 0 where
  pub value : ℤ
  pub address : Text

pub record Transaction : Type 0 where
  pub inputs : List TxInput
  pub outputs : List TxOutput

-- A transaction as the messages and the blocks carry it: a dict with its own `txid`.
pub record TxDict : Type 0 where
  pub txid : Text
  pub coinbase : Bool
  pub inputs : List TxInput
  pub outputs : List TxOutput

-- Canonical JSON: sorted keys, compact separators.
input_json : TxInput → Text
input_json i =
    codes "{\"index\":"
    ++ (str i.index
        ++ (codes ",\"pubkey\":"
            ++ (json_string i.pubkey ++ (codes ",\"txid\":" ++ (json_string i.txid ++ codes "}")))))

unfoldable pub output_json : TxOutput → Text
output_json o =
    codes "{\"address\":"
    ++ (json_string o.address ++ (codes ",\"value\":" ++ (str_ℤ o.value ++ codes "}")))

-- The text after the number of the chain.
body_rest : Transaction → Text
unfolding input_json output_json
body_rest tx =
    codes "\"inputs\":["
    ++ (json_items (map input_json tx.inputs)
        ++ (codes "],\"outputs\":[" ++ (json_items (map output_json tx.outputs) ++ codes "]}")))

-- `_unsigned_body(chain_id)`
unfoldable pub unsigned_body : ℕ → Transaction → Bytes
unfolding body_rest
unsigned_body chain_id tx = codes "{\"chain_id\":" ++ (str chain_id ++ (codes "," ++ body_rest tx))

-- `Transaction.txid`
pub transaction_id : Crypto → Transaction → Text
unfolding sha256d_hex unsigned_body
transaction_id crypto tx = sha256d_hex crypto (unsigned_body 1 tx)

unfoldable pub signing_hash : Crypto → ℕ → Transaction → Bytes
unfolding sha256d unsigned_body
signing_hash crypto chain_id tx = sha256d crypto (unsigned_body chain_id tx)

-- A key `(txid, index)` of the dict of unspent outputs.
abbrev pub OutPoint : Type 0
OutPoint = Text × ℕ

abbrev pub out_point : TxInput → OutPoint
out_point i = (i.txid, i.index)

pub record UtxoSet : Type 0 where
  pub utxos : Dict OutPoint TxOutput
  pub coinbase_heights : Dict Text ℕ

abbrev pub empty_utxos : UtxoSet
empty_utxos = record { utxos = []; coinbase_heights = [] }

-- `for i, out in enumerate(outputs): self.utxos[(txid, i)] = out`, from the index `i` on.
unfoldable pub put_outputs :
    Text → ℕ → List TxOutput → Dict OutPoint TxOutput → Dict OutPoint TxOutput
put_outputs txid i [] utxos = utxos
put_outputs txid i (out ∷ outs) utxos = put_outputs txid (suc i) outs (Dict.put (txid, i) out utxos)

-- `for tin in inputs: self.utxos.pop((tin.txid, tin.index), None)`
unfoldable pub pop_inputs : List TxInput → Dict OutPoint TxOutput → Dict OutPoint TxOutput
pop_inputs [] utxos = utxos
pop_inputs (i ∷ is) utxos = pop_inputs is (Dict.pop (out_point i) utxos)

pub add_tx : Crypto → Transaction → UtxoSet → UtxoSet
unfolding transaction_id
add_tx crypto tx u = record u {
  utxos = put_outputs (transaction_id crypto tx) 0 tx.outputs u.utxos;
}

unfoldable pub add_coinbase : Text → List TxOutput → ℕ → UtxoSet → UtxoSet
add_coinbase txid outputs height u = record {
  utxos = put_outputs txid 0 outputs u.utxos;
  coinbase_heights = Dict.put txid height u.coinbase_heights;
}

pub spend : TxInput → UtxoSet → UtxoSet
spend i u = record u { utxos = Dict.pop (out_point i) u.utxos }

-- Python's `sum`, over values; it adds from the left, which makes no difference to integers.
abbrev pub sum_ℤ : List ℤ → ℤ
sum_ℤ [] = pos 0
sum_ℤ (v ∷ vs) = v +ℤ sum_ℤ vs

abbrev pub output_value : TxOutput → ℤ
output_value out = out.value

-- `sum(o.value for o in outputs)`
unfoldable pub output_sum : List TxOutput → ℤ
output_sum outputs = sum_ℤ (map output_value outputs)

-- `balance(address)`
pub balance : Text → Dict OutPoint TxOutput → ℤ
balance address [] = pos 0
balance address ((k, out) ∷ utxos) =
    let rest = balance address utxos in if out.address == address then out.value +ℤ rest else rest
