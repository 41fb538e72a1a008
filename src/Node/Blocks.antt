-- ===== src/Node/Blocks.antt =====
-- node/node.py: what the node does with a message: _dispatch, _handle_block with the blocks that
-- wait for their parent, and _serve_blocks. A handler that raises is `none`.
use arche_blockchain.Prelude.{
  ℕ, zero, suc, Bool, true, false, not, ◌&&◌, Option, none, some, List, [], ◌∷◌, ◌++◌, any, length,
  ltb, min, Text, nat_eq, ◌==◌, text_eq, if◌then◌else◌,
}
use arche_blockchain.Int.{ℤ, pos, ◌+ℤ◌, ltb_ℤ}
use arche_blockchain.Dict
use arche_blockchain.Dict.{Dict}
use arche_blockchain.Tx.{TxDict}
use arche_blockchain.Block.{Block, compute_hash}
use arche_blockchain.Chain.{Blockchain, get_block}
use arche_blockchain.Chain.Validate.{Env}
use arche_blockchain.Chain.Reorg.{add_block}
use arche_blockchain.Node.{Pooled, handle_tx}

unfoldable pub max_blocks_per_resp : ℕ
max_blocks_per_resp = 500

unfoldable pub max_orphans : ℕ
max_orphans = 200

-- The state that the handlers share. `interrupted` is the event that stops the miner.
pub record NodeState : Type 0 where
  pub chain : Blockchain
  pub mempool : List Pooled
  pub orphans : Dict Text Block
  pub interrupted : Bool
  pub fee_floor : ℤ

-- What is broadcast.
pub data Outgoing : Type 0 where
  announce_tx : TxDict → Outgoing
  announce_block : Block → Outgoing
  send_blocks : List Block → Outgoing

pub data Incoming : Type 0 where
  new_tx : TxDict → Incoming
  new_block : Block → Incoming
  -- from_height, max
  get_blocks : ℕ → ℕ → Incoming
  blocks : List Block → Incoming
  -- HELLO, PING, PONG and unknown types
  other : Incoming

-- The blocks from a height on, at most `n`, up to the first that is missing.
unfoldable pub blocks_from : Blockchain → ℕ → ℕ → List Block
blocks_from c h zero = []
blocks_from c h (suc n) =
    let rest = blocks_from c (suc h) n in elim (get_block c h) [ none ↦ [] | some b ↦ b ∷ rest ]

unfoldable pub serve_blocks : Blockchain → ℕ → ℕ → List Block
serve_blocks c from_height max_n = blocks_from c from_height (min max_n max_blocks_per_resp)

-- The pool without the transactions of a block.
unfoldable pub drop_included : List TxDict → List Pooled → List Pooled
drop_included included [] = []
drop_included included (p ∷ ps) =
    let rest = drop_included included ps in
    if any (λ (t : TxDict). t.txid == p.tx.txid) included then rest else p ∷ rest

-- `_process_orphans`. The first argument is fuel: each call removes a waiting block, so one more
-- than there are is enough.
unfoldable pub process_orphans : Env → ℕ → ℕ → Text → NodeState → Option (NodeState × List Outgoing)
process_orphans env now zero new_tip st = some (st, [])
process_orphans env now (suc fuel) new_tip st = elim (Dict.get new_tip st.orphans) [
  | none ↦ some (st, [])
  | some block ↦ elim (add_block env now block st.chain) [
    | none ↦ none
    | some (chain, accepted) ↦
        let attached : NodeState = record st {
          chain = chain;
          orphans = Dict.pop new_tip st.orphans;
        } in
        if not accepted then some (attached, []) else elim (compute_hash env.crypto block) [
          | none ↦ none
          | some hash ↦ elim (process_orphans env now fuel hash attached) [
            | none ↦ none
            | some (end, sent) ↦ some (end, announce_block block ∷ sent)
          ]
        ]
  ]
]

-- A block that was not accepted waits if it is ahead of the chain and there is room.
unfoldable pub store_orphan : Block → NodeState → NodeState
store_orphan block st =
    if ltb_ℤ (st.chain.height +ℤ pos 1) (pos block.index) && ltb (length st.orphans) max_orphans
    then record st { orphans = Dict.put block.prev_hash block st.orphans }
    else st

-- The rest of `_handle_block` for an accepted block.
unfoldable pub accept_block :
    Env → ℕ → Bool → Block → NodeState → Option (NodeState × List Outgoing)
accept_block env now rebroadcast block st = elim (compute_hash env.crypto block) [
  | none ↦ none
  | some hash ↦
      let cleared : NodeState = record st {
        mempool = drop_included block.transactions st.mempool;
        interrupted = true;
      } in
      elim (process_orphans env now (suc (length st.orphans)) hash cleared) [
        | none ↦ none
        | some (end, sent) ↦ some (end, if rebroadcast then announce_block block ∷ sent else sent)
      ]
]

unfoldable pub handle_block :
    Env → ℕ → Bool → Block → NodeState → Option (NodeState × List Outgoing)
handle_block env now rebroadcast block st = elim (add_block env now block st.chain) [
  | none ↦ none
  | some (chain, accepted) ↦
      if accepted
      then accept_block env now rebroadcast block record st { chain = chain }
      else some (store_orphan block record st { chain = chain }, [])
]

-- The loop over the blocks of a BLOCKS message.
unfoldable pub handle_blocks : Env → ℕ → List Block → NodeState → Option (NodeState × List Outgoing)
handle_blocks env now [] st = some (st, [])
handle_blocks env now (b ∷ bs) st = elim (handle_block env now false b st) [
  | none ↦ none
  | some (next, sent) ↦ elim (handle_blocks env now bs next) [
    | none ↦ none
    | some (end, more) ↦ some (end, sent ++ more)
  ]
]

unfoldable pub dispatch : Env → ℕ → Incoming → NodeState → Option (NodeState × List Outgoing)
dispatch env now (new_tx tx) st =
    let (pool, relay) = handle_tx env.crypto st.chain st.fee_floor tx st.mempool in
    some (record st { mempool = pool }, if relay then announce_tx tx ∷ [] else [])
dispatch env now (new_block block) st = handle_block env now true block st
dispatch env now (get_blocks from_height max_n) st =
    let found = serve_blocks st.chain from_height max_n in
    some (st, if length found == 0 then [] else send_blocks found ∷ [])
dispatch env now (blocks bs) st = handle_blocks env now bs st
dispatch env now other st = some (st, [])
