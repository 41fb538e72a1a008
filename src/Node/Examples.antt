-- ===== src/Node/Examples.antt =====
-- The memory pool and the miner at concrete inputs.
use arche_blockchain.Prelude.{
  ℕ, suc, zero, ◌≡◌, refl, Bool, if◌then◌else◌, ◌-◌, ◌≤◌, List, [], ◌∷◌, true, false, some, none,
  codes, length, All, arith, any, text_beq, ap,
}
use arche_blockchain.Int.{pos}
use arche_blockchain.Params.{max_mempool_size, block_subsidy}
use arche_blockchain.Tx.{Crypto, TxDict, UtxoSet}
use arche_blockchain.Tx.Validate.{validate_transaction}
use arche_blockchain.Chain.{Blockchain, spend_and_create}
use arche_blockchain.Node.{Pooled, in_pool, handle_tx, pool_rules, choose, make_coinbase}
use arche_blockchain.Node.Blocks.{NodeState, new_tx, announce_tx, dispatch}
use arche_blockchain.Node.Dispatch.{dispatch-bounded}
use arche_blockchain.Node.Sorted.{LostCheapest}
use arche_blockchain.Node.Mempool.{invalid_tx_evicts}
use arche_blockchain.Node.Mining.{Untracked, choose-Untracked, second_coinbase_lost}

abbrev trusting : Crypto
trusting = record {
  sha256 = λ message. 1 ∷ [];
  ripemd160 = λ message. 2 ∷ [];
  verify = λ pubkey signature message. some true;
}

-- One coinbase output, mined at height 0.
abbrev mined : UtxoSet
mined = record {
  utxos = ((codes "aa", 0), record { value = pos 10; address = codes "02" }) ∷ [];
  coinbase_heights = (codes "aa", 0) ∷ [];
}

abbrev mined_chain : Blockchain
mined_chain = record {
  store = record {
    info = none;
    blocks = [];
    hashes = [];
    utxo = [];
    tx_index = [];
    cb_height = [];
    chain_work = [];
  };
  utxo = mined;
  height = pos 200;
  tip = codes "00";
  cumulative_work = 0;
  no_retarget = false;
  chain_id = 1;
}

abbrev spend_reward : TxDict
spend_reward = record {
  txid = codes "bb";
  coinbase = false;
  inputs =
      record { txid = codes "aa"; index = 0; signature = codes "01"; pubkey = codes "02" } ∷ [];
  outputs = record { value = pos 7; address = codes "03" } ∷ [];
}

-- A message with no inputs.
abbrev junk : TxDict
junk = record { txid = codes "ee"; coinbase = false; inputs = []; outputs = [] }

abbrev waiting : NodeState
waiting = record {
  chain = mined_chain;
  mempool = [];
  orphans = [];
  interrupted = false;
  fee_floor = pos 1;
}

abbrev handled : List Pooled × Bool
handled = handle_tx trusting mined_chain (pos 1) spend_reward []

dispatch-bounded_example : length handled.0 ≤ max_mempool_size
unfolding dispatch
dispatch-bounded_example =
    dispatch-bounded (record { crypto = trusting; json_size = λ b. 500 }) 1700000000
      (new_tx spend_reward) waiting
      (
        record waiting { mempool = handled.0 },
        if handled.1 then announce_tx spend_reward ∷ [] else [],
      )
      (omega arith) refl

pooled : ℕ → List Pooled
pooled zero = []
pooled (suc n) = record { tx = spend_reward; fee_cache = pos 3 } ∷ pooled n

length-pooled : (n : ℕ) → length (pooled n) ≡ n
unfolding pooled
length-pooled zero = refl
length-pooled (suc n) = ap suc (length-pooled n)

junk_not_pooled : (n : ℕ) → in_pool junk.txid (pooled n) ≡ false
unfolding in_pool any pooled text_beq
junk_not_pooled zero = refl
junk_not_pooled (suc n) = junk_not_pooled n

junk-invalid :
    validate_transaction trusting (pool_rules mined_chain (pos 1)) mined_chain.utxo junk ≡ false
unfolding validate_transaction
junk-invalid = refl

invalid_tx_evicts_example :
    LostCheapest
      (pooled max_mempool_size)
      (handle_tx trusting mined_chain (pos 1) junk (pooled max_mempool_size)).0
    × (length (handle_tx trusting mined_chain (pos 1) junk (pooled max_mempool_size)).0
        ≡ max_mempool_size - 1)
    × ((handle_tx trusting mined_chain (pos 1) junk (pooled max_mempool_size)).1 ≡ false)
invalid_tx_evicts_example =
    invalid_tx_evicts trusting mined_chain (pos 1) junk (pooled max_mempool_size)
      (length-pooled max_mempool_size) refl (junk_not_pooled max_mempool_size) junk-invalid

choose-Untracked_example :
    All
      (λ tx. All (Untracked mined) tx.inputs)
      (choose trusting (pos 1) mined (spend_reward ∷ junk ∷ [])).0
choose-Untracked_example = choose-Untracked trusting (pos 1) mined (spend_reward ∷ junk ∷ [])

same_rewards :
    (make_coinbase trusting (codes "04") none 1 (pos 0)).outputs
    ≡ (make_coinbase trusting (codes "04") none 2 (pos 0)).outputs
unfolding make_coinbase block_subsidy
same_rewards = refl

second_coinbase_lost_example :
    spend_and_create
      (make_coinbase trusting (codes "04") none 2 (pos 0))
      (spend_and_create (make_coinbase trusting (codes "04") none 1 (pos 0)) mined.utxos)
    ≡ spend_and_create (make_coinbase trusting (codes "04") none 1 (pos 0)) mined.utxos
second_coinbase_lost_example =
    second_coinbase_lost trusting (codes "04") none 1 2 (pos 0) (pos 0) mined.utxos same_rewards
