-- ===== src/Chain.antt =====
-- The chain (node/chain.py): its store, the rebuilding of the unspent outputs, the commit of a
-- block, and the rollback. The store's keys are `block:h:`, `block:hash:`, `utxo:`, `txindex:`,
-- `cbheight:`, `chainwork:` and `meta`; the prefixes are disjoint, so the store is one dict for
-- each, and the JSON of a value is read back as it was written.
pub mod Validate
pub mod Reorg
pub mod Persist
pub mod Rebuild
pub mod Rebuilt
pub mod Reloadable
pub mod Restart
pub mod Ledger
pub mod Supply
pub mod Cap
pub mod Examples
use arche_blockchain.Prelude.{
  ℕ, zero, suc, ◌+◌, ◌-◌, ◌/◌, Bool, true, false, Option, none, some, List, [], ◌∷◌, ◌++◌, map,
  Text, nat_eq, text_eq, pair_eq, if◌then◌else◌,
}
use arche_blockchain.Int.{ℤ, pos, negsuc}
use arche_blockchain.Dict
use arche_blockchain.Dict.{Dict}
use arche_blockchain.Target.{block_work}
use arche_blockchain.Tx.{
  Crypto, TxInput, TxOutput, TxDict, OutPoint, out_point, put_outputs, pop_inputs, UtxoSet,
  empty_utxos,
}
use arche_blockchain.Block.{Block, ◌>>=◌, compute_hash}

pub record Meta : Type 0 where
  pub height : ℤ
  pub tip : Text
  pub cumulative_work : ℕ

pub record Store : Type 0 where
  pub info : Option Meta
  pub blocks : Dict ℕ Block
  pub hashes : Dict Text ℕ
  pub utxo : Dict OutPoint TxOutput
  pub tx_index : Dict Text ℕ
  pub cb_height : Dict Text ℕ
  pub chain_work : Dict ℕ ℕ

-- An operation of a `WriteBatch`.
pub data Op : Type 0 where
  put_block : ℕ → Block → Op
  put_hash : Text → ℕ → Op
  put_work : ℕ → ℕ → Op
  put_utxo : OutPoint → TxOutput → Op
  del_utxo : OutPoint → Op
  put_cb_height : Text → ℕ → Op
  del_cb_height : Text → Op
  put_tx_index : Text → ℕ → Op
  put_info : Meta → Op

unfoldable pub apply_op : Store → Op → Store
apply_op s (put_block h b) = record s { blocks = Dict.put h b s.blocks }
apply_op s (put_hash hash h) = record s { hashes = Dict.put hash h s.hashes }
apply_op s (put_work h work) = record s { chain_work = Dict.put h work s.chain_work }
apply_op s (put_utxo k out) = record s { utxo = Dict.put k out s.utxo }
apply_op s (del_utxo k) = record s { utxo = Dict.pop k s.utxo }
apply_op s (put_cb_height txid h) = record s { cb_height = Dict.put txid h s.cb_height }
apply_op s (del_cb_height txid) = record s { cb_height = Dict.pop txid s.cb_height }
apply_op s (put_tx_index txid h) = record s { tx_index = Dict.put txid h s.tx_index }
apply_op s (put_info m) = record s { info = some m }

-- `write_batch`: the operations in order, all at once.
unfoldable pub write_batch : List Op → Store → Store
write_batch [] s = s
write_batch (op ∷ ops) s = write_batch ops (apply_op s op)

pub record Blockchain : Type 0 where
  pub store : Store
  pub utxo : UtxoSet
  pub height : ℤ
  pub tip : Text
  pub cumulative_work : ℕ
  pub no_retarget : Bool
  pub chain_id : ℕ

abbrev pub get_block : Blockchain → ℕ → Option Block
get_block c h = Dict.get h c.store.blocks

abbrev pub get_block_by_hash : Blockchain → Text → Option Block
get_block_by_hash c hash = do h ← Dict.get hash c.store.hashes; get_block c h

-- `get_cumulative_work`, 0 where nothing is stored.
unfoldable pub get_cumulative_work : Blockchain → ℕ → ℕ
get_cumulative_work c h = elim (Dict.get h c.store.chain_work) [ none ↦ 0 | some work ↦ work ]

-- The effect of one transaction of a block on the dict of unspent outputs.
unfoldable pub spend_and_create : TxDict → Dict OutPoint TxOutput → Dict OutPoint TxOutput
spend_and_create tx d =
    put_outputs tx.txid 0 tx.outputs (if tx.coinbase then d else pop_inputs tx.inputs d)

-- The same with the height of a coinbase: the body of the loops in `_commit`,
-- `_build_utxo_at_height` and `_rebuild_utxo_from_chain`.
unfoldable pub apply_tx : ℕ → TxDict → UtxoSet → UtxoSet
unfolding spend_and_create
apply_tx height tx u = record {
  utxos = spend_and_create tx u.utxos;
  coinbase_heights =
      if tx.coinbase then Dict.put tx.txid height u.coinbase_heights else u.coinbase_heights;
}

unfoldable pub apply_txs : ℕ → List TxDict → UtxoSet → UtxoSet
apply_txs height [] u = u
apply_txs height (tx ∷ txs) u = apply_txs height txs (apply_tx height tx u)

abbrev delete_input : TxInput → Op
delete_input i = del_utxo (out_point i)

-- The `batch.put` calls of `for idx, out in enumerate(outputs)`.
unfoldable pub put_output_ops : Text → ℕ → List TxOutput → List Op
put_output_ops txid i [] = []
put_output_ops txid i (out ∷ outs) = put_utxo (txid, i) out ∷ put_output_ops txid (suc i) outs

-- The operations that `_commit` collects for one transaction.
unfoldable pub tx_ops : ℕ → TxDict → List Op
unfolding put_output_ops
tx_ops height tx =
    (if tx.coinbase then [] else map delete_input tx.inputs)
    ++ (put_output_ops tx.txid 0 tx.outputs
        ++ ((if tx.coinbase then put_cb_height tx.txid height ∷ [] else [])
            ++ (put_tx_index tx.txid height ∷ [])))

unfoldable pub txs_ops : ℕ → List TxDict → List Op
txs_ops height [] = []
txs_ops height (tx ∷ txs) = tx_ops height tx ++ txs_ops height txs

-- `_commit`, once the hash of the block is known.
unfoldable pub commit_hashed : Text → Block → Blockchain → Blockchain
commit_hashed block_hash b c =
    let work = c.cumulative_work + block_work b.bits in
    let ops =
      put_block b.index b
      ∷ put_hash block_hash b.index
      ∷ put_work b.index work
      ∷ (txs_ops b.index b.transactions
          ++ (put_info (record { height = pos b.index; tip = block_hash; cumulative_work = work })
              ∷ [])) in
    record c {
      store = write_batch ops c.store;
      utxo = apply_txs b.index b.transactions c.utxo;
      height = pos b.index;
      tip = block_hash;
      cumulative_work = work;
    }

-- `_commit`; it raises where the hash cannot be computed.
unfoldable pub commit : Crypto → Block → Blockchain → Option Blockchain
unfolding commit_hashed
commit crypto b c = do block_hash ← compute_hash crypto b; some (commit_hashed block_hash b c)
