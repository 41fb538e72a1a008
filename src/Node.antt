-- ===== src/Node.antt =====
-- The node (node/node.py): the memory pool of `_handle_tx`, the choice of transactions in `mine`
-- and the coinbase that it makes. Threads and sockets are not modelled: each handler runs under its
-- lock.
pub mod Blocks
pub mod Orphans
pub mod Mine
pub mod Api
mod OrphanExamples
mod Sorted
pub mod Dispatch
pub mod Mempool
pub mod Mining
mod Examples
use arche_blockchain.Prelude.{
  ℕ, suc, ◌+◌, Bool, true, false, not, Option, none, some, List, [], ◌∷◌, ◌++◌, map, Text, codes,
  length, any, ltb, leb, ◌==◌, text_eq, if◌then◌else◌,
}
use arche_blockchain.Int.{ℤ, pos, ◌+ℤ◌, ◌-ℤ◌, leb_ℤ, max_ℤ}
use arche_blockchain.Params.{max_mempool_size, block_subsidy}
use arche_blockchain.Encoding.{json_items}
use arche_blockchain.Dict.{Dict}
use arche_blockchain.Tx.{
  Crypto, sha256d_hex, TxOutput, TxDict, OutPoint, UtxoSet, put_outputs, pop_inputs, output_sum,
  output_json,
}
use arche_blockchain.Tx.Validate.{Rules, default_rules, is_empty, validate_transaction}
use arche_blockchain.Tx.Spends.{input_total}
use arche_blockchain.Chain.{Blockchain}

-- A transaction of the pool with its `_fee_cache`.
pub record Pooled : Type 0 where
  pub tx : TxDict
  pub fee_cache : ℤ

-- `any(m.get("txid") == txid for m in self._mempool)`
unfoldable pub in_pool : Text → List Pooled → Bool
in_pool txid pool = any (λ m. m.tx.txid == txid) pool

insert_by_fee : Pooled → List Pooled → List Pooled
insert_by_fee p [] = p ∷ []
insert_by_fee p (q ∷ qs) =
    let rest = insert_by_fee p qs in if leb_ℤ p.fee_cache q.fee_cache then p ∷ q ∷ qs else q ∷ rest

-- `self._mempool.sort(key=_fee)`, which is stable.
pub sort_by_fee : List Pooled → List Pooled
unfolding insert_by_fee
sort_by_fee [] = []
sort_by_fee (p ∷ ps) = insert_by_fee p (sort_by_fee ps)

pub drop_first : List Pooled → List Pooled
drop_first [] = []
drop_first (p ∷ ps) = ps

-- The eviction of the lowest fee from a full pool.
pub evict : List Pooled → List Pooled
unfolding drop_first
evict pool = if leb max_mempool_size (length pool) then drop_first (sort_by_fee pool) else pool

pub pool_rules : Blockchain → ℤ → Rules
pool_rules c fee_floor = record {
  min_fee = fee_floor;
  chain_id = c.chain_id;
  coinbase_heights = none;
  current_height = c.height;
  coinbase_maturity = pos 100;
}

-- The pool after a transaction that is not in it has been validated.
pub add_to_pool : UtxoSet → TxDict → List Pooled → List Pooled
unfolding in_pool
add_to_pool utxo tx pool =
    let fee = max_ℤ (pos 0) (input_total utxo.utxos tx.inputs -ℤ output_sum tx.outputs) in
    if in_pool tx.txid pool then pool else pool ++ (record { tx = tx; fee_cache = fee } ∷ [])

-- `_handle_tx`: the pool, and whether the transaction is sent on.
unfoldable pub handle_tx : Crypto → Blockchain → ℤ → TxDict → List Pooled → List Pooled × Bool
handle_tx crypto c fee_floor tx pool =
    if is_empty tx.txid
    then (pool, false)
    else if in_pool tx.txid pool
    then (pool, false)
    else if not (validate_transaction crypto (pool_rules c fee_floor) c.utxo tx)
    then (evict pool, false)
    else (add_to_pool c.utxo tx (evict pool), true)

-- The call of `validate_transaction` in `mine` leaves the other keyword arguments at their defaults.
abbrev pub mining_rules : ℤ → Rules
mining_rules fee_floor = record default_rules { min_fee = fee_floor }

-- The snapshot after a transaction that is taken: its inputs are spent whatever its coinbase flag.
unfoldable pub spend_taken : TxDict → Dict OutPoint TxOutput → Dict OutPoint TxOutput
spend_taken tx d = put_outputs tx.txid 0 tx.outputs (pop_inputs tx.inputs d)

-- The loop of `mine` over the pool: the transactions taken, and their fees.
unfoldable pub choose : Crypto → ℤ → UtxoSet → List TxDict → List TxDict × ℤ
choose crypto fee_floor snap [] = ([], pos 0)
choose crypto fee_floor snap (tx ∷ txs) =
    let skipped = choose crypto fee_floor snap txs in
    let rest = choose crypto fee_floor (record snap { utxos = spend_taken tx snap.utxos }) txs in
    let fee = input_total snap.utxos tx.inputs -ℤ output_sum tx.outputs in
    if validate_transaction crypto (mining_rules fee_floor) snap tx
    then (tx ∷ rest.0, fee +ℤ rest.1)
    else skipped

-- `_coinbase_txid`: the hash of the outputs alone.
unfoldable pub coinbase_txid : Crypto → List TxOutput → Text
coinbase_txid crypto outputs =
    sha256d_hex crypto
      (codes "{\"inputs\":[],\"outputs\":[" ++ (json_items (map output_json outputs) ++ codes "]}"))

-- The coinbase of `mine` at a height, for the fees that were collected.
unfoldable pub make_coinbase : Crypto → Text → Option ℤ → ℕ → ℤ → TxDict
make_coinbase crypto miner_address subsidy height fees =
    let base : ℤ = elim subsidy [ none ↦ pos (block_subsidy height) | some s ↦ s ] in
    let out : TxOutput = record { value = base +ℤ fees; address = miner_address } in
    record {
      txid = coinbase_txid crypto (out ∷ []);
      coinbase = true;
      inputs = [];
      outputs = out ∷ [];
    }
