-- ===== src/Node/Orphans.antt =====
-- The blocks that wait for their parent (node/node.py): what _handle_block and _process_orphans do
-- with them when the parent arrives.
use arche_blockchain.Prelude.{
  ℕ, zero, suc, ◌<◌, ◌≤◌, ◌≡◌, refl, Bool, true, false, none, some, List, [], ◌∷◌, map, length,
  Text, arith, text_eq, HasEq, if◌then◌else◌,
}
use arche_blockchain.Dict
use arche_blockchain.Dict.{Dict}
use arche_blockchain.Block.{Block, compute_hash}
use arche_blockchain.Chain.{Blockchain}
use arche_blockchain.Chain.Validate.{Env}
use arche_blockchain.Chain.Reorg.{add_block}
use arche_blockchain.Node.{Pooled}
use arche_blockchain.Node.Blocks.{
  NodeState, Outgoing, announce_block, process_orphans, accept_block, handle_block, drop_included,
}

-- The chain accepts the block and becomes `after`.
pub record IsAccepted (env : Env) (now : ℕ) (block : Block) (before : Blockchain) : Type 0 where
  pub after : Blockchain
  pub hash : Text
  pub accepted : add_block env now block before ≡ some (after, true)
  pub hashed : compute_hash env.crypto block ≡ some hash

-- The blocks wait one behind the other, the first behind the hash; each is accepted by the chain
-- that the ones before it give, and nothing waits behind the last.
abbrev pub Waits : Env → ℕ → Dict Text Block → Text → Blockchain → List Block → Blockchain → Type 0
Waits env now orphans tip c [] end = (Dict.get tip orphans ≡ none) × (c ≡ end)
Waits env now orphans tip c (b ∷ bs) end =
    (Dict.get tip orphans ≡ some b)
    × (step : IsAccepted env now b c) × Waits env now (Dict.pop tip orphans) step.hash step.after bs
        end

module _ {ℓ κ} {K : Type ℓ} {V : Type κ} ⦃e : HasEq K⦄ where
  length-pop : (k : K) (d : Dict K V) → length (Dict.pop k d) ≤ length d
  unfolding Dict.pop
  length-pop k [] = ground arith
  length-pop k ((j, w) ∷ d) = ground (arith, length-pop k d)

  length-pop_present :
      (k : K) (v : V) (d : Dict K V) → Dict.get k d ≡ some v → length (Dict.pop k d) < length d
  unfolding Dict.pop Dict.get
  length-pop_present k v [] p = ground (arith, p)
  length-pop_present k v ((j, w) ∷ d) p =
      ground (arith, p, length-pop k d, length-pop_present k v d)

abbrev pub EndsWith : NodeState × List Outgoing → Blockchain → List Pooled → List Outgoing → Type 0
EndsWith o end pool sent = (o.0.chain ≡ end) × (o.0.mempool ≡ pool) × (o.1 ≡ sent)

process_orphans-attaches :
    (env : Env) (now fuel : ℕ) (tip : Text) (st : NodeState) (bs : List Block) (end : Blockchain)
    → length st.orphans < fuel
    → Waits env now st.orphans tip st.chain bs end
    → (o : NodeState × List Outgoing) × (process_orphans env now fuel tip st ≡ some o)
      × EndsWith o end st.mempool (map announce_block bs)
unfolding process_orphans
process_orphans-attaches env now zero tip st bs end room waits = ground (arith, room)
process_orphans-attaches env now (suc fuel) tip st [] end room (alone, same) =
    rw (alone, process_orphans) ((st, []), refl, (same, refl, refl))
process_orphans-attaches env now (suc fuel) tip st (b ∷ bs) end room (found, step, waits) =
    let shorter = length-pop_present tip b st.orphans found in
    let (o, run, (chain, pool, sent)) =
      process_orphans-attaches env now fuel step.hash
        record st { chain = step.after; orphans = Dict.pop tip st.orphans } bs end (omega arith)
        waits in
    rw (found, process_orphans)
      (rw step.accepted
        (rw step.hashed (rw run ((o.0, announce_block b ∷ o.1), refl, (chain, pool, (cc sent))))))

announced :
    (rebroadcast : Bool) (block : Block) (bs : List Block) (sent : List Outgoing)
    → sent ≡ map announce_block bs
    → (if rebroadcast then announce_block block ∷ sent else sent)
      ≡ map announce_block (if rebroadcast then block ∷ bs else bs)
announced true block bs sent same = cc same
announced false block bs sent same = same

-- A block that the chain accepts attaches the blocks that wait behind it, however many, where the
-- chain accepts each of them in its turn: the node ends with the chain that accepts them in order,
-- and announces each of them in that order, after the block itself when it is to be announced. The
-- pool loses the transactions of the accepted block, and keeps those of the blocks that waited.
pub handle_block-attaches :
    (env : Env) (now : ℕ) (rebroadcast : Bool) (block : Block) (st : NodeState) (bs : List Block)
    (end : Blockchain) (step : IsAccepted env now block st.chain)
    → Waits env now st.orphans step.hash step.after bs end
    → (o : NodeState × List Outgoing) × (handle_block env now rebroadcast block st ≡ some o)
      × EndsWith o end
          (drop_included block.transactions st.mempool)
          (map announce_block (if rebroadcast then block ∷ bs else bs))
unfolding handle_block accept_block
handle_block-attaches env now rebroadcast block st bs end step waits =
    let cleared : NodeState = record st {
      chain = step.after;
      mempool = drop_included block.transactions st.mempool;
      interrupted = true;
    } in
    let (o, run, (chain, pool, sent)) =
      process_orphans-attaches env now (suc (length st.orphans)) step.hash cleared bs end
        (omega arith) waits in
    rw (step.accepted, handle_block)
      (rw (step.hashed, accept_block)
        (rw run (
          (o.0, if rebroadcast then announce_block block ∷ o.1 else o.1),
          refl,
          (chain, pool, announced rebroadcast block bs o.1 sent),
        )))
