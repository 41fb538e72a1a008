-- ===== src/Chain/Restart.antt =====
-- Startup of node/chain.py: `_load_state`, and what it makes of a store that `_commit` has written.
use arche_blockchain.Prelude.{
  ℕ, suc, All, ◌≡◌, ◌∙◌, refl, sym, subst, ap, Bool, true, Bool-cases, inl, inr, List, [], ◌∷◌, map,
  Text, Option, some, none, arith, ◌==◌, ==_iff, if◌then◌else◌, nat_eq, text_eq, pair_eq,
}
use arche_blockchain.Int.{pos, negsuc}
use arche_blockchain.Dict
use arche_blockchain.Dict.Entries.{get-put_same}
use arche_blockchain.Tx.{Crypto, TxInput, TxOutput, TxDict, UtxoSet}
use arche_blockchain.Tx.Validate.{is_empty}
use arche_blockchain.Block.{Block, compute_hash, ◌>>=◌, >>=-eq-some}
use arche_blockchain.Chain.{
  Meta, Store, apply_op, write_batch, Blockchain, get_block, delete_input, put_output_ops, tx_ops,
  txs_ops, commit_hashed, commit,
}
use arche_blockchain.Chain.Rebuild.{rebuild_utxo}
use arche_blockchain.Chain.Rebuilt.{IsReloadable, rebuilt}
use arche_blockchain.Chain.Reloadable.{IsStorable, apply_txs-IsReloadable}
use arche_blockchain.Chain.Reorg.{build_utxo_at_height}
use arche_blockchain.Chain.Persist.{write_batch-++, Synced, commit-Synced}

-- The integrity check of the tip at a height: the outputs are replayed from the blocks where the
-- stored tip is not the hash of the stored block.
unfoldable pub check_block : Crypto → ℕ → Blockchain → Option Block → Option Blockchain
check_block crypto height c none = some c
check_block crypto height c (some b) = do
  hash ← compute_hash crypto b
  some (if hash == c.tip then c else record c { utxo = build_utxo_at_height c height })

unfoldable pub check_tip : Crypto → ℕ → Blockchain → Option Blockchain
check_tip crypto height c = check_block crypto height c (get_block c height)

-- The chain that is read from a store with a `meta` entry, before the check.
unfoldable pub load_meta : Crypto → Bool → ℕ → Store → UtxoSet → Option Meta → Option Blockchain
load_meta crypto no_retarget chain_id s utxo none = some record {
  store = s;
  utxo = utxo;
  height = negsuc 0;
  tip = [];
  cumulative_work = 0;
  no_retarget = no_retarget;
  chain_id = chain_id;
}
load_meta crypto no_retarget chain_id s utxo (some m) =
    let c : Blockchain = record {
      store = s;
      utxo = utxo;
      height = m.height;
      tip = m.tip;
      cumulative_work = m.cumulative_work;
      no_retarget = no_retarget;
      chain_id = chain_id;
    } in
    elim m.height [
      | negsuc n ↦ some c
      | pos n ↦ if is_empty m.tip then some c else check_tip crypto n c
    ]

-- `_load_state`; it raises where the outputs cannot be read back.
unfoldable pub load_state :
    (TxOutput → Option TxOutput) → Crypto → Bool → ℕ → Store → Option Blockchain
load_state reread crypto no_retarget chain_id s = do
  utxo ← rebuild_utxo reread s
  load_meta crypto no_retarget chain_id s utxo s.info

deletes-blocks :
    (is : List TxInput) (s : Store) → (write_batch (map delete_input is) s).blocks ≡ s.blocks
unfolding write_batch apply_op
deletes-blocks [] s = refl
deletes-blocks (i ∷ is) s = deletes-blocks is (apply_op s (delete_input i))

puts-blocks :
    (txid : Text) (n : ℕ) (outs : List TxOutput) (s : Store)
    → (write_batch (put_output_ops txid n outs) s).blocks ≡ s.blocks
unfolding write_batch apply_op put_output_ops
puts-blocks txid n [] s = refl
puts-blocks txid n (out ∷ outs) s = puts-blocks txid (suc n) outs _

tx_ops-blocks :
    (height : ℕ) (tx : TxDict) (s : Store) → (write_batch (tx_ops height tx) s).blocks ≡ s.blocks
unfolding tx_ops write_batch apply_op
tx_ops-blocks height tx s =
    let outs = put_output_ops tx.txid 0 tx.outputs in
    elim (Bool-cases tx.coinbase) [
      | inl coinbase ↦ rw (coinbase, write_batch-++ outs) (puts-blocks tx.txid 0 tx.outputs s)
      | inr plain ↦
          rw (plain, write_batch-++ (map delete_input tx.inputs), write_batch-++ outs)
            (puts-blocks tx.txid 0 tx.outputs _ ∙ deletes-blocks tx.inputs s)
    ]

txs_ops-blocks :
    (height : ℕ) (txs : List TxDict) (s : Store)
    → (write_batch (txs_ops height txs) s).blocks ≡ s.blocks
unfolding txs_ops write_batch
txs_ops-blocks height [] s = refl
txs_ops-blocks height (tx ∷ txs) s =
    rw (write_batch-++ (tx_ops height tx)) (txs_ops-blocks height txs _ ∙ tx_ops-blocks height tx s)

-- The block is stored at its height.
commit-blocks :
    (hash : Text) (b : Block) (c : Blockchain)
    → (commit_hashed hash b c).store.blocks ≡ Dict.put b.index b c.store.blocks
unfolding commit_hashed write_batch apply_op
commit-blocks hash b c =
    rw (write_batch-++ (txs_ops b.index b.transactions)) (txs_ops-blocks b.index b.transactions _)

-- The block at the tip is found, and its hash is the tip, so the check changes nothing.
check_tip-commit :
    (crypto : Crypto) (hash : Text) (b : Block) (c : Blockchain) (d : Blockchain)
    → compute_hash crypto b ≡ some hash
    → d.store.blocks ≡ Dict.put b.index b c.store.blocks
    → d.tip ≡ hash
    → check_tip crypto b.index d ≡ some d
unfolding check_tip check_block
check_tip-commit crypto hash b c d hashed stored tip =
    let found : get_block d b.index ≡ some b =
      ap (Dict.get b.index) stored ∙ get-put_same b.index b.index b c.store.blocks refl in
    let hit : (hash == d.tip) ≡ true = (==_iff hash d.tip).1 (sym tip) in
    ap (check_block crypto b.index d) found ∙ rw (hashed, hit) refl

-- The chain that is read from a store.
abbrev loaded : Bool → ℕ → Store → UtxoSet → ℕ → Text → ℕ → Blockchain
loaded no_retarget chain_id s utxo n tip work = record {
  store = s;
  utxo = utxo;
  height = pos n;
  tip = tip;
  cumulative_work = work;
  no_retarget = no_retarget;
  chain_id = chain_id;
}

load_at :
    (reread : TxOutput → Option TxOutput) (crypto : Crypto) (no_retarget : Bool) (chain_id : ℕ)
    (s : Store) (utxo : UtxoSet) (n : ℕ) (tip : Text) (work : ℕ)
    → rebuild_utxo reread s ≡ some utxo
    → s.info ≡ some record { height = pos n; tip = tip; cumulative_work = work }
    → check_tip crypto n (loaded no_retarget chain_id s utxo n tip work)
      ≡ some (loaded no_retarget chain_id s utxo n tip work)
    → load_state reread crypto no_retarget chain_id s
      ≡ some (loaded no_retarget chain_id s utxo n tip work)
unfolding load_state load_meta
load_at reread crypto no_retarget chain_id s utxo n tip work read info checked = rw read (
    ap (load_meta crypto no_retarget chain_id s utxo) info ∙ elim (Bool-cases (is_empty tip)) [
      | inl none_yet ↦ rw none_yet refl
      | inr some_tip ↦ rw some_tip checked
    ])

commit_loads :
    (reread : TxOutput → Option TxOutput) (crypto : Crypto) (hash : Text) (b : Block)
    (c : Blockchain)
    → compute_hash crypto b ≡ some hash
    → Synced c.store c.utxo
    → IsReloadable reread (commit_hashed hash b c).utxo
    → load_state reread crypto c.no_retarget c.chain_id (commit_hashed hash b c).store
      ≡ some (commit_hashed hash b c)
unfolding commit_hashed
commit_loads reread crypto hash b c hashed synced reloadable =
    let d : Blockchain = commit_hashed hash b c in
    let ((outs, heights), info) = commit-Synced hash b c synced in
    load_at reread crypto c.no_retarget c.chain_id d.store d.utxo b.index hash d.cumulative_work
      (rebuilt reread d.store d.utxo reloadable outs heights) info
      (check_tip-commit crypto hash b c
        (loaded c.no_retarget c.chain_id d.store d.utxo b.index hash d.cumulative_work) hashed
        (commit-blocks hash b c) refl)

-- A chain that starts up from the store of an accepted commit is the chain that made it, provided
-- that the chain's store and memory held the same outputs and coinbase heights before the commit,
-- that these could be read back, and that the block's transactions have txids without a colon and
-- outputs that json reads back as they were written.
pub restart_lem :
    (reread : TxOutput → Option TxOutput) (crypto : Crypto) (b : Block) (c c' : Blockchain)
    → commit crypto b c ≡ some c'
    → Synced c.store c.utxo
    → IsReloadable reread c.utxo
    → All (IsStorable reread) b.transactions
    → load_state reread crypto c'.no_retarget c'.chain_id c'.store ≡ some c'
unfolding commit commit_hashed
restart_lem reread crypto b c c' h synced reloadable storable =
    let (hash, hashed, e) = >>=-eq-some (compute_hash crypto b) _ h in
    let d : commit_hashed hash b c ≡ c' = ground arith in
    subst (λ (x : Blockchain). load_state reread crypto x.no_retarget x.chain_id x.store ≡ some x) d
      (commit_loads reread crypto hash b c hashed synced
        (apply_txs-IsReloadable reread b.index b.transactions c.utxo storable reloadable))
