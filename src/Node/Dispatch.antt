-- ===== src/Node/Dispatch.antt =====
-- The size of the memory pool over all messages of peers (`_dispatch` of node/node.py).
use arche_blockchain.Prelude.{
  ℕ, zero, suc, ◌≤◌, ◌≡◌, subst, Bool, true, false, Option, none, some, List, [], ◌∷◌, ◌++◌, length,
  Text, arith, Option-cases, inl, inr, text_eq, if◌then◌else◌,
}
use arche_blockchain.Dict
use arche_blockchain.Params.{max_mempool_size}
use arche_blockchain.Tx.{TxDict}
use arche_blockchain.Block.{Block, compute_hash}
use arche_blockchain.Chain.Validate.{Env}
use arche_blockchain.Chain.Reorg.{add_block}
use arche_blockchain.Node.{Pooled}
use arche_blockchain.Node.Mempool.{handle_tx-bounded}
use arche_blockchain.Node.Blocks.{
  NodeState, Outgoing, announce_block, Incoming, new_tx, new_block, get_blocks, blocks, other,
  drop_included, process_orphans, store_orphan, accept_block, handle_block, handle_blocks, dispatch,
}

-- A handler that does not raise leaves at most this many transactions.
abbrev Fits : ℕ → Option (NodeState × List Outgoing) → Type 0
Fits n none = Unit
Fits n (some o) = length o.0.mempool ≤ n

length-drop_included :
    (included : List TxDict) (ps : List Pooled) → length (drop_included included ps) ≤ length ps
unfolding drop_included
length-drop_included included [] = omega arith
length-drop_included included (p ∷ ps) = ground (arith, length-drop_included included ps)

-- The same with other messages sent.
Fits-sent :
    (n : ℕ) (r : Option (NodeState × List Outgoing)) (f : List Outgoing → List Outgoing)
    → Fits n r
    → Fits n (elim r [ none ↦ none | some (end, sent) ↦ some (end, f sent) ])
Fits-sent n none f h = tt
Fits-sent n (some o) f h = h

process_orphans-Fits :
    (env : Env) (now fuel n : ℕ) (tip : Text) (st : NodeState)
    → length st.mempool ≤ n
    → Fits n (process_orphans env now fuel tip st)
unfolding process_orphans
process_orphans-Fits env now zero n tip st h = h
process_orphans-Fits env now (suc fuel) n tip st h = elim (Option-cases (Dict.get tip st.orphans)) [
  | inl alone ↦ rw (alone, process_orphans) h
  | inr (b, found) ↦ elim (Option-cases (add_block env now b st.chain)) [
    | inl raised ↦ rw (found, process_orphans) (rw raised tt)
    | inr ((chain, false), added) ↦ rw (found, process_orphans) (rw added h)
    | inr ((chain, true), added) ↦ elim (Option-cases (compute_hash env.crypto b)) [
      | inl raised ↦ rw (found, process_orphans) (rw added (rw raised tt))
      | inr (hash, hashed) ↦
          rw (found, process_orphans)
            (rw added (
              rw hashed (
                Fits-sent n _ (λ sent. announce_block b ∷ sent)
                  (process_orphans-Fits env now fuel n hash _ h))))
    ]
  ]
]

accept_block-Fits :
    (env : Env) (now n : ℕ) (rebroadcast : Bool) (block : Block) (st : NodeState)
    → length st.mempool ≤ n
    → Fits n (accept_block env now rebroadcast block st)
unfolding accept_block
accept_block-Fits env now n rebroadcast block st h =
    elim (Option-cases (compute_hash env.crypto block)) [
      | inl raised ↦ rw (raised, accept_block) tt
      | inr (hash, hashed) ↦
          rw (hashed, accept_block)
            (Fits-sent n _ (λ sent. if rebroadcast then announce_block block ∷ sent else sent)
              (process_orphans-Fits env now (suc (length st.orphans)) n hash _
                (omega (arith, length-drop_included block.transactions st.mempool))))
    ]

store_orphan-mempool :
    (block : Block) (st : NodeState) → (store_orphan block st).mempool ≡ st.mempool
unfolding store_orphan
store_orphan-mempool block st = ground arith

handle_block-Fits :
    (env : Env) (now n : ℕ) (rebroadcast : Bool) (block : Block) (st : NodeState)
    → length st.mempool ≤ n
    → Fits n (handle_block env now rebroadcast block st)
unfolding handle_block
handle_block-Fits env now n rebroadcast block st h =
    elim (Option-cases (add_block env now block st.chain)) [
      | inl raised ↦ rw (raised, handle_block) tt
      | inr ((chain, false), added) ↦ rw (added, handle_block) (rw store_orphan-mempool h)
      | inr ((chain, true), added) ↦
          rw (added, handle_block)
            (accept_block-Fits env now n rebroadcast block record st { chain = chain } h)
    ]

handle_blocks-Fits :
    (env : Env) (now n : ℕ) (bs : List Block) (st : NodeState)
    → length st.mempool ≤ n
    → Fits n (handle_blocks env now bs st)
unfolding handle_blocks
handle_blocks-Fits env now n [] st h = h
handle_blocks-Fits env now n (b ∷ bs) st h =
    let first = handle_block-Fits env now n false b st h in
    elim (Option-cases (handle_block env now false b st)) [
      | inl raised ↦ rw (raised, handle_blocks) tt
      | inr ((next, sent), done) ↦
          let fits : Fits n (some (next, sent)) = rw done at first in
          rw (done, handle_blocks)
            (Fits-sent n _ (λ more. sent ++ more) (handle_blocks-Fits env now n bs next fits))
    ]

dispatch-Fits :
    (env : Env) (now : ℕ) (msg : Incoming) (st : NodeState)
    → length st.mempool ≤ max_mempool_size
    → Fits max_mempool_size (dispatch env now msg st)
unfolding dispatch
dispatch-Fits env now (new_tx tx) st h =
    handle_tx-bounded env.crypto st.chain st.fee_floor tx st.mempool h
dispatch-Fits env now (new_block block) st h =
    handle_block-Fits env now max_mempool_size true block st h
dispatch-Fits env now (get_blocks from_height max_n) st h = h
dispatch-Fits env now (blocks bs) st h = handle_blocks-Fits env now max_mempool_size bs st h
dispatch-Fits env now other st h = h

-- A pool within its limit stays within it when a message of a peer is handled, of whatever type and
-- with whatever content, blocks that attach waiting ones included, unless the handler raises.
pub dispatch-bounded :
    (env : Env) (now : ℕ) (msg : Incoming) (st : NodeState) (o : NodeState × List Outgoing)
    → length st.mempool ≤ max_mempool_size
    → dispatch env now msg st ≡ some o
    → length o.0.mempool ≤ max_mempool_size
dispatch-bounded env now msg st o h run =
    subst (Fits max_mempool_size) run (dispatch-Fits env now msg st h)
