-- ===== src/Node/Mine.antt =====
-- node/node.py: mine, one round of the miner. The rest of the node waits meanwhile, but for the event
-- that interrupts the search after a number of passes.
use arche_blockchain.Prelude.{
  ℕ, suc, Option, some, List, [], ◌∷◌, map, Text, if◌then◌else◌, true, false,
}
use arche_blockchain.Int.{ℤ, pos, negsuc}
use arche_blockchain.Tx.{TxDict}
use arche_blockchain.Tx.Validate.{is_empty}
use arche_blockchain.Block.{Block, ◌>>=◌, compute_hash, create}
use arche_blockchain.Block.Search.{interrupted, found, mine_block}
use arche_blockchain.Chain.{Blockchain}
use arche_blockchain.Chain.Validate.{Env, genesis_prev_hash}
use arche_blockchain.Chain.Reorg.{add_block}
use arche_blockchain.Node.{Pooled, choose, make_coinbase}
use arche_blockchain.Node.Blocks.{NodeState, Outgoing, announce_block, drop_included}

-- `self.chain.height + 1 if self.chain.height >= 0 else 0`
unfoldable pub next_height : ℤ → ℕ
next_height (pos h) = suc h
next_height (negsuc h) = 0

-- `self.chain.tip if self.chain.height >= 0 else "0" * 64`
unfoldable pub next_prev_hash : Blockchain → Text
next_prev_hash c = elim c.height [ pos h ↦ c.tip | negsuc h ↦ genesis_prev_hash ]

abbrev pooled_tx : Pooled → TxDict
pooled_tx p = p.tx

-- The candidate block: the coinbase, and the transactions that are taken from the pool.
unfoldable pub make_candidate : Env → ℕ → Text → Option ℤ → ℕ → NodeState → Option Block
make_candidate env now miner_address subsidy difficulty st =
    let (txs, fees) = choose env.crypto st.fee_floor st.chain.utxo (map pooled_tx st.mempool) in
    let height = next_height st.chain.height in
    create env.crypto height (next_prev_hash st.chain)
      (make_coinbase env.crypto miner_address subsidy height fees ∷ txs) difficulty 0 1 now

-- What the miner does with the block that it found.
unfoldable pub publish : Env → ℕ → Block → NodeState → Option (NodeState × List Outgoing)
publish env now mined st = do
  (chain, accepted) ← add_block env now mined st.chain
  elim accepted [
    | false ↦ some (record st { chain = chain }, [])
    | true ↦ do
      hash ← compute_hash env.crypto mined
      some (
        record st { chain = chain; mempool = drop_included mined.transactions st.mempool },
        announce_block mined ∷ [],
      )
  ]

-- `mine`: `created` and `now` are the times when the block is made and when it is checked.
unfoldable pub mine :
    Env → ℕ → ℕ → ℕ → Text → Option ℤ → ℕ → NodeState → Option (NodeState × List Outgoing)
mine env created now passes miner_address subsidy difficulty st =
    if is_empty miner_address then some (st, []) else do
      let cleared : NodeState = record st { interrupted = false }
      candidate ← make_candidate env created miner_address subsidy difficulty cleared
      result ← mine_block env.crypto passes candidate difficulty 0
      elim result [
        | interrupted ↦ some (record cleared { interrupted = true }, [])
        | found mined ↦ publish env now mined cleared
      ]
