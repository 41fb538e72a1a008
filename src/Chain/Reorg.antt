-- ===== src/Chain/Reorg.antt =====
-- `add_block` of node/chain.py: the linear case, the fork with more work, and the rollback.
use arche_blockchain.Prelude.{
  ℕ, zero, suc, ◌+◌, Bool, true, false, ◌&&◌, not, Option, none, some, List, [], ◌∷◌, ◌++◌, map,
  Text, leb, ◌==◌, nat_eq, text_eq, pair_eq, if◌then◌else◌,
}
use arche_blockchain.Int.{pos, ◌+ℤ◌, leb_ℤ, int_beq}
use arche_blockchain.Target.{block_work}
use arche_blockchain.Tx.{TxOutput, OutPoint, UtxoSet, empty_utxos}
use arche_blockchain.Block.{Block, ◌>>=◌, compute_hash}
use arche_blockchain.Chain.{
  Store, Op, put_utxo, del_utxo, put_cb_height, del_cb_height, put_info, write_batch, Blockchain,
  get_block, get_block_by_hash, get_cumulative_work, apply_txs, commit,
}
use arche_blockchain.Chain.Validate.{Env, expected_bits, validate_block}

-- The replay of the blocks at heights `from, ..., from + n - 1`, up to the first that is missing.
pub replay : Blockchain → ℕ → ℕ → UtxoSet → UtxoSet
replay c from zero u = u
replay c from (suc n) u = elim (get_block c from) [
  | none ↦ u
  | some b ↦ replay c (suc from) n (apply_txs from b.transactions u)
]

-- `_build_utxo_at_height`
unfoldable pub build_utxo_at_height : Blockchain → ℕ → UtxoSet
unfolding replay
build_utxo_at_height c target = replay c 0 (target + 1) empty_utxos

delete_out : OutPoint × TxOutput → Op
delete_out e = del_utxo e.0

put_out : OutPoint × TxOutput → Op
put_out e = put_utxo e.0 e.1

delete_height : Text × ℕ → Op
delete_height e = del_cb_height e.0

put_height : Text × ℕ → Op
put_height e = put_cb_height e.0 e.1

-- `_flush_utxo`: what is stored goes, what is in memory comes.
pub flush_ops : Store → UtxoSet → List Op
unfolding delete_out put_out delete_height put_height
flush_ops s u =
    map delete_out s.utxo
    ++ (map put_out u.utxos ++ (map delete_height s.cb_height ++ map put_height u.coinbase_heights))

-- The hash of the block at a height, "" where it is missing.
pub tip_at : Env → Blockchain → ℕ → Option Text
tip_at env c h = elim (get_block c h) [ none ↦ some [] | some b ↦ compute_hash env.crypto b ]

-- `_rollback_to`
unfoldable pub rollback_to : Env → ℕ → Blockchain → Option Blockchain
rollback_to env target c = do
  let u = build_utxo_at_height c target
  let work = get_cumulative_work c target
  tip ← tip_at env c target
  let info = put_info (record { height = pos target; tip = tip; cumulative_work = work })
  some (record c {
    store = write_batch (flush_ops c.store u ++ (info ∷ [])) c.store;
    utxo = u;
    height = pos target;
    tip = tip;
    cumulative_work = work;
  })

-- A step that returns False and leaves the chain alone, unless the test holds.
abbrev pub accept_if : Blockchain → Bool → Option (Blockchain × Bool) → Option (Blockchain × Bool)
accept_if c test next = if test then next else some (c, false)

-- `_try_reorg`, with the block that the new block's `prev_hash` names.
unfoldable pub reorg_at : Env → ℕ → Block → Block → Blockchain → Option (Blockchain × Bool)
reorg_at env now b fork c =
    accept_if c (not (leb (get_cumulative_work c fork.index + block_work b.bits) c.cumulative_work))
      do
        valid ←
            validate_block env c now b (some (expected_bits c b.index))
              (build_utxo_at_height c fork.index)
        accept_if c valid
            do back ← rollback_to env fork.index c; c' ← commit env.crypto b back; some (c', true)

unfoldable pub try_reorg : Env → ℕ → Block → Blockchain → Option (Blockchain × Bool)
unfolding reorg_at
try_reorg env now b c = elim (get_block_by_hash c b.prev_hash) [
  | none ↦ some (c, false)
  | some fork ↦ reorg_at env now b fork c
]

-- `block.index == self.height + 1 and block.prev_hash == self.tip`
unfoldable pub is_next : Block → Blockchain → Bool
is_next b c = int_beq (pos b.index) (c.height +ℤ pos 1) && b.prev_hash == c.tip

-- The common case: the block extends the chain.
unfoldable pub extend : Env → ℕ → Block → Blockchain → Option (Blockchain × Bool)
extend env now b c = do
  valid ← validate_block env c now b (some (expected_bits c b.index)) c.utxo
  accept_if c valid do c' ← commit env.crypto b c; some (c', true)

-- `add_block`: the new chain, and whether the block was accepted.
unfoldable pub add_block : Env → ℕ → Block → Blockchain → Option (Blockchain × Bool)
unfolding extend try_reorg
add_block env now b c =
    if is_next b c
    then extend env now b c
    else if leb_ℤ (pos b.index) c.height
    then try_reorg env now b c
    else some (c, false)
