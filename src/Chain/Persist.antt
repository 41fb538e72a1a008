-- ===== src/Chain/Persist.antt =====
-- What `_commit` of node/chain.py writes to the store agrees with what it keeps in memory.
use arche_blockchain.Prelude.{
  ℕ, suc, ◌≡◌, refl, ap, Bool-cases, inl, inr, List, [], ◌∷◌, ◌++◌, map, Text, some, text_eq,
  pair_eq,
}
use arche_blockchain.Dict
use arche_blockchain.Tx.{TxInput, TxOutput, TxDict, out_point, put_outputs, pop_inputs, UtxoSet}
use arche_blockchain.Block.{Block}
use arche_blockchain.Chain.{
  Store, Op, apply_op, write_batch, Blockchain, spend_and_create, apply_tx, apply_txs, delete_input,
  put_output_ops, tx_ops, txs_ops, commit_hashed, put_utxo,
}

-- The store and the memory hold the same outputs and the same coinbase heights.
abbrev pub Synced : Store → UtxoSet → Type 0
Synced s u = (s.utxo ≡ u.utxos) × (s.cb_height ≡ u.coinbase_heights)

pub write_batch-++ :
    (xs ys : List Op) (s : Store) → write_batch (xs ++ ys) s ≡ write_batch ys (write_batch xs s)
unfolding write_batch
write_batch-++ [] ys s = refl
write_batch-++ (x ∷ xs) ys s = write_batch-++ xs ys (apply_op s x)

deletes-Synced :
    (is : List TxInput) (s : Store) (u : UtxoSet)
    → Synced s u
    → Synced (write_batch (map delete_input is) s) record u { utxos = pop_inputs is u.utxos }
unfolding write_batch apply_op pop_inputs
deletes-Synced [] s u h = h
deletes-Synced (i ∷ is) s u h =
    deletes-Synced is (apply_op s (delete_input i))
      record u { utxos = Dict.pop (out_point i) u.utxos } (ap (Dict.pop (out_point i)) h.0, h.1)

puts-Synced :
    (txid : Text) (n : ℕ) (outs : List TxOutput) (s : Store) (u : UtxoSet)
    → Synced s u
    → Synced
        (write_batch (put_output_ops txid n outs) s)
        record u { utxos = put_outputs txid n outs u.utxos }
unfolding write_batch apply_op put_outputs put_output_ops
puts-Synced txid n [] s u h = h
puts-Synced txid n (out ∷ outs) s u h =
    puts-Synced txid (suc n) outs (apply_op s (put_utxo (txid, n) out))
      record u { utxos = Dict.put (txid, n) out u.utxos } (ap (Dict.put (txid, n) out) h.0, h.1)

append-Synced :
    (xs ys : List Op) (s : Store) (u : UtxoSet)
    → Synced (write_batch ys (write_batch xs s)) u
    → Synced (write_batch (xs ++ ys) s) u
append-Synced xs ys s u h = rw (write_batch-++ xs ys s) h

tx_ops-Synced :
    (height : ℕ) (tx : TxDict) (s : Store) (u : UtxoSet)
    → Synced s u
    → Synced (write_batch (tx_ops height tx) s) (apply_tx height tx u)
unfolding tx_ops apply_tx spend_and_create write_batch apply_op
tx_ops-Synced height tx s u h =
    let outs = put_output_ops tx.txid 0 tx.outputs in
    elim (Bool-cases tx.coinbase) [
      | inl coinbase ↦
          let made = puts-Synced tx.txid 0 tx.outputs s u h in
          rw coinbase (
            append-Synced outs _ s
              record u {
                utxos = put_outputs tx.txid 0 tx.outputs u.utxos;
                coinbase_heights = Dict.put tx.txid height u.coinbase_heights;
              }
              (made.0, ap (Dict.put tx.txid height) made.1))
      | inr plain ↦
          let spent = deletes-Synced tx.inputs s u h in
          let middle : UtxoSet = record u { utxos = pop_inputs tx.inputs u.utxos } in
          let made =
            puts-Synced tx.txid 0 tx.outputs (write_batch (map delete_input tx.inputs) s) middle
              spent in
          let final : UtxoSet = record u {
            utxos = put_outputs tx.txid 0 tx.outputs (pop_inputs tx.inputs u.utxos);
          } in
          rw plain (
            append-Synced (map delete_input tx.inputs) _ s final (
              append-Synced outs _ (write_batch (map delete_input tx.inputs) s) final
                (made.0, made.1)))
    ]

txs_ops-Synced :
    (height : ℕ) (txs : List TxDict) (s : Store) (u : UtxoSet)
    → Synced s u
    → Synced (write_batch (txs_ops height txs) s) (apply_txs height txs u)
unfolding txs_ops apply_txs write_batch
txs_ops-Synced height [] s u h = h
txs_ops-Synced height (tx ∷ txs) s u h =
    append-Synced (tx_ops height tx) (txs_ops height txs) s
      (apply_txs height txs (apply_tx height tx u))
      (txs_ops-Synced height txs (write_batch (tx_ops height tx) s) (apply_tx height tx u)
        (tx_ops-Synced height tx s u h))

-- What the batch of a block's operations leaves as the `meta` entry.
commit-info :
    (hash : Text) (b : Block) (c : Blockchain)
    → (commit_hashed hash b c).store.info
      ≡ some record {
        height = (commit_hashed hash b c).height;
        tip = (commit_hashed hash b c).tip;
        cumulative_work = (commit_hashed hash b c).cumulative_work;
      }
unfolding commit_hashed write_batch apply_op
commit-info hash b c = rw (write_batch-++ (txs_ops b.index b.transactions) _ _) refl

-- Committing a block keeps the store and the memory in step: if they hold the same outputs and the
-- same coinbase heights before the commit, they do after it, and the stored height, tip and work
-- are those in memory.
pub commit-Synced :
    (hash : Text) (b : Block) (c : Blockchain)
    → Synced c.store c.utxo
    → Synced (commit_hashed hash b c).store (commit_hashed hash b c).utxo
      × ((commit_hashed hash b c).store.info
          ≡ some record {
            height = (commit_hashed hash b c).height;
            tip = (commit_hashed hash b c).tip;
            cumulative_work = (commit_hashed hash b c).cumulative_work;
          })
unfolding commit_hashed write_batch apply_op
commit-Synced hash b c h = (
  append-Synced (txs_ops b.index b.transactions) _ _ (apply_txs b.index b.transactions c.utxo)
      (txs_ops-Synced b.index b.transactions _ c.utxo h),
  commit-info hash b c,
)
