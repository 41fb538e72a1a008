-- ===== src/Chain/Validate.antt =====
-- `validate_block` of node/chain.py with its helpers. `none` stands for a raised exception, and
-- `now` is the clock. The size of a block's JSON text is a parameter.
use arche_blockchain.Prelude.{
  ℕ, zero, suc, ◌-◌, ◌/◌, ◌%◌, Bool, true, false, not, Option, none, some, List, [], ◌∷◌, map, Text,
  codes, length, any, ltb, leb, ◌==◌, nat_beq, nat_eq, text_eq, pair_eq, if◌then◌else◌,
}
use arche_blockchain.Int.{ℤ, pos, ◌+ℤ◌, ◌-ℤ◌, ltb_ℤ, max_ℤ}
use arche_blockchain.Dict.{Dict}
use arche_blockchain.Params.{block_subsidy, coinbase_maturity, max_block_size, retarget_interval}
use arche_blockchain.Target.{difficulty_to_bits, calculate_next_bits}
use arche_blockchain.Tx.{Crypto, TxOutput, TxDict, OutPoint, UtxoSet, output_sum}
use arche_blockchain.Tx.Validate.{Rules, is_empty, is_negative, validate_transaction}
use arche_blockchain.Tx.Spends.{input_total}
use arche_blockchain.Block.{
  Block, ◌>>=◌, compute_hash, meets_target, validate_timestamp, merkle_root, tx_id,
}
use arche_blockchain.Chain.{Blockchain, get_block, spend_and_create}

-- What the chain takes from outside: the primitives, and `len(json.dumps(block.to_dict()))`.
pub record Env : Type 0 where
  pub crypto : Crypto
  pub json_size : Block → ℕ

abbrev pub genesis_prev_hash : Text
genesis_prev_hash = codes "0000000000000000000000000000000000000000000000000000000000000000"

-- The timestamps of the blocks at heights `from, ..., from + n - 1` that are stored.
unfoldable pub timestamps : Blockchain → ℕ → ℕ → List ℕ
timestamps c from zero = []
timestamps c from (suc n) =
    let rest = timestamps c (suc from) n in
    elim (get_block c from) [ none ↦ rest | some b ↦ b.timestamp ∷ rest ]

unfoldable pub insert : ℕ → List ℕ → List ℕ
insert x [] = x ∷ []
insert x (y ∷ ys) = let rest = insert x ys in if leb x y then x ∷ y ∷ ys else y ∷ rest

unfoldable pub sort : List ℕ → List ℕ
unfolding insert
sort [] = []
sort (x ∷ xs) = insert x (sort xs)

unfoldable pub element : List ℕ → ℕ → ℕ
element [] i = 0
element (x ∷ xs) zero = x
element (x ∷ xs) (suc i) = element xs i

-- `_median_time_past`: 0 without history.
unfoldable pub median_time_past : Blockchain → ℕ → ℕ
unfolding timestamps sort element
median_time_past c index =
    let from = index - 11 in
    let times = sort (timestamps c from (index - from)) in element times (length times / 2)

-- The fee that `_total_fees` finds for one transaction: only inputs in the snapshot count.
unfoldable pub tx_fee : Dict OutPoint TxOutput → TxDict → ℤ
tx_fee snap tx =
    if tx.coinbase
    then pos 0
    else max_ℤ (pos 0) (input_total snap tx.inputs -ℤ output_sum tx.outputs)

unfoldable pub total_fees : Dict OutPoint TxOutput → List TxDict → ℤ
unfolding tx_fee
total_fees snap [] = pos 0
total_fees snap (tx ∷ txs) = tx_fee snap tx +ℤ total_fees snap txs

-- The bits of the block below, or those of difficulty 1.
unfoldable pub previous_bits : Blockchain → ℕ → ℕ
previous_bits c height = elim (get_block c (height - 1)) [
  | none ↦ difficulty_to_bits 1
  | some b ↦ b.bits
]

unfoldable pub expected_bits : Blockchain → ℕ → ℕ
unfolding previous_bits
expected_bits c height =
    if nat_beq height 0
    then difficulty_to_bits 0
    else if c.no_retarget
    then previous_bits c height
    else if not (nat_beq (height % retarget_interval) 0)
    then previous_bits c height
    else elim (get_block c (height - retarget_interval)) [
      | none ↦ previous_bits c height
      | some first ↦ elim (get_block c (height - 1)) [
        | none ↦ previous_bits c height
        | some last ↦ calculate_next_bits last.bits first.timestamp last.timestamp
      ]
    ]

-- Check 3: the block links to the stored block below it.
unfoldable pub links : Env → Blockchain → Block → Option Bool
links env c b =
    if nat_beq b.index 0
    then some (b.prev_hash == genesis_prev_hash)
    else elim (get_block c (b.index - 1)) [
      | none ↦ some false
      | some prev ↦ do h ← compute_hash env.crypto prev; some (h == b.prev_hash)
    ]

-- Check 5, skipped for the genesis block.
unfoldable pub timely : Blockchain → ℕ → Block → Bool
unfolding median_time_past
timely c now b =
    if ltb 0 b.index then validate_timestamp b (median_time_past c b.index) now else true

unfoldable pub coinbases : List TxDict → List TxDict
coinbases [] = []
coinbases (tx ∷ txs) = let rest = coinbases txs in if tx.coinbase then tx ∷ rest else rest

unfoldable pub starts_with_coinbase : List TxDict → Bool
starts_with_coinbase [] = false
starts_with_coinbase (tx ∷ txs) = tx.coinbase

-- Check 9: the loop over the txids with the set `seen`.
unfoldable pub no_repeats : List Text → List Text → Bool
no_repeats seen [] = true
no_repeats seen (x ∷ xs) =
    let rest = no_repeats (x ∷ seen) xs in if any (λ y. y == x) seen then false else rest

-- Check 10, on the first coinbase.
unfoldable pub coinbase_ok : Dict OutPoint TxOutput → ℕ → List TxDict → Bool
coinbase_ok snap index txs = elim (coinbases txs) [
  | [] ↦ false
  | cb ∷ _ ↦
      if not (is_empty cb.inputs)
      then false
      else if is_empty cb.outputs
      then false
      else if any is_negative cb.outputs
      then false
      else if ltb_ℤ (pos (block_subsidy index) +ℤ total_fees snap txs) (output_sum cb.outputs)
      then false
      else true
]

-- Check 11.
unfoldable pub outputs_nonneg : List TxDict → Bool
outputs_nonneg [] = true
outputs_nonneg (tx ∷ txs) =
    let rest = outputs_nonneg txs in
    if tx.coinbase then rest else if any is_negative tx.outputs then false else rest

-- The keyword arguments of check 13.
unfoldable pub block_rules : Blockchain → ℕ → Rules
block_rules c index = record {
  min_fee = pos 0;
  chain_id = c.chain_id;
  coinbase_heights = none;
  current_height = pos index;
  coinbase_maturity = pos coinbase_maturity;
}

-- Checks 12 and 13: the loop over the snapshot.
unfoldable pub validate_txs : Crypto → Rules → UtxoSet → List TxDict → Bool
validate_txs crypto rules snap [] = true
validate_txs crypto rules snap (tx ∷ txs) =
    let same = validate_txs crypto rules snap txs in
    let next =
      validate_txs crypto rules (record snap { utxos = spend_and_create tx snap.utxos }) txs in
    if tx.coinbase then same else if validate_transaction crypto rules snap tx then next else false

-- `return False` unless the test holds.
abbrev pub require : Bool → Option Bool → Option Bool
require test rest = if test then rest else some false

-- The checks 6 to 13, which cannot raise.
unfoldable pub contents_ok : Env → Blockchain → UtxoSet → Block → Bool
contents_ok env c utxo b =
    if ltb max_block_size (env.json_size b)
    then false
    else if is_empty b.transactions
    then false
    else if ltb 1 (length (coinbases b.transactions))
    then false
    else if not (starts_with_coinbase b.transactions)
    then false
    else if not (no_repeats [] (map tx_id b.transactions))
    then false
    else if not (coinbase_ok utxo.utxos b.index b.transactions)
    then false
    else if not (outputs_nonneg b.transactions)
    then false
    else validate_txs env.crypto (block_rules c b.index) utxo b.transactions

-- `validate_block(block, expected_bits, utxo_override)`; `utxo` is the override, or the set of the
-- chain.
unfoldable pub validate_block : Env → Blockchain → ℕ → Block → Option ℕ → UtxoSet → Option Bool
validate_block env c now b expected utxo = do
  pow ← meets_target env.crypto b
  require pow (
      require (elim expected [ none ↦ true | some bits ↦ nat_beq b.bits bits ])
        do
          linked ← links env c b
          require linked do
            root ← merkle_root env.crypto (map tx_id b.transactions)
            require (root == b.tx_merkle_root)
                (require (timely c now b) (some (contents_ok env c utxo b))))
