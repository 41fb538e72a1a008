-- ===== src/Chain/Rebuild.antt =====
-- `_rebuild_utxo` of node/chain.py: the keys of the store are read back as texts. The store lists its
-- entries in the order in which their keys were first written. `reread` is what json.loads and
-- TxOutput make of the json.dumps of an output.
use arche_blockchain.Prelude.{
  ℕ, Bool, ◌&&◌, Option, none, some, [], ◌∷◌, ◌++◌, Text, codes, all, leb, nat_beq, if◌then◌else◌,
  text_eq, pair_eq,
}
use arche_blockchain.Dict.{Dict, put}
use arche_blockchain.Encoding.{str}
use arche_blockchain.Encoding.Decimal.{read_digits}
use arche_blockchain.Tx.{TxOutput, OutPoint, UtxoSet}
use arche_blockchain.Tx.Validate.{is_empty}
use arche_blockchain.Block.{◌>>=◌}
use arche_blockchain.Chain.{Store}

-- The text before the first colon, and the text after it, if there is one.
unfoldable pub break_colon : Text → Text × Option Text
break_colon [] = ([], none)
break_colon (c ∷ cs) =
    let rest = break_colon cs in if nat_beq c b':' then ([], some cs) else (c ∷ rest.0, rest.1)

unfoldable pub is_digit : ℕ → Bool
is_digit c = leb b'0' c && leb c b'9'

-- `int(text)`, of a text of digits or of one with a colon, which raises.
unfoldable pub parse_int : Text → Option ℕ
parse_int t = if is_empty t then none else if all is_digit t then some (read_digits 0 t) else none

-- The key of an output in the store.
unfoldable pub utxo_key : OutPoint → Text
utxo_key (txid, index) = codes "utxo:" ++ (txid ++ (b':' ∷ str index))

pub data KeyParts : Type 0 where
  -- Fewer than three parts.
  skipped : KeyParts
  -- The last part is no number.
  raised : KeyParts
  parts : OutPoint → KeyParts

-- `key.split(":", 2)` and `int` of the last part.
unfoldable pub split_key : Text → KeyParts
split_key key = elim (break_colon key).1 [
  | none ↦ skipped
  | some rest ↦ elim (break_colon rest).1 [
    | none ↦ skipped
    | some index ↦ elim (parse_int index) [
      | none ↦ raised
      | some i ↦ parts ((break_colon rest).0, i)
    ]
  ]
]

unfoldable pub load_utxos :
    (TxOutput → Option TxOutput)
    → Dict OutPoint TxOutput
    → Dict OutPoint TxOutput
    → Option (Dict OutPoint TxOutput)
load_utxos reread [] utxos = some utxos
load_utxos reread ((k, out) ∷ d) utxos = elim (split_key (utxo_key k)) [
  | skipped ↦ load_utxos reread d utxos
  | raised ↦ none
  | parts own ↦ do found ← reread out; load_utxos reread d (put own found utxos)
]

unfoldable pub load_heights : Dict Text ℕ → Dict Text ℕ → Option (Dict Text ℕ)
load_heights [] heights = some heights
load_heights ((txid, h) ∷ d) heights = do
  height ← parse_int (str h)
  load_heights d (put txid height heights)

unfoldable pub rebuild_utxo : (TxOutput → Option TxOutput) → Store → Option UtxoSet
rebuild_utxo reread s = do
  utxos ← load_utxos reread s.utxo []
  heights ← load_heights s.cb_height []
  some (record { utxos = utxos; coinbase_heights = heights })
