-- ===== src/Chain/Examples.antt =====
-- A first block with one payment, committed to a chain that holds one output, with toy primitives.
use arche_blockchain.Prelude.{
  ◌≡◌, refl, ◌∷◌, [], true, false, some, none, codes, any, text_beq, arith, All,
}
use arche_blockchain.Int.{pos, negsuc, ◌+ℤ◌, ◌-ℤ◌, ◌≤ℤ◌}
use arche_blockchain.Dict.{get, put, contains}
use arche_blockchain.Params.{block_subsidy}
use arche_blockchain.Target.{
  difficulty_to_bits, bits_to_target, target_to_bits, scan, to_bytes, compact, from_bytes,
}
use arche_blockchain.Encoding.{from_hex, hex_byte, hex_value, is_space, add_byte, to_hex, hex_digit}
use arche_blockchain.Tx.{
  TxOutput, TxDict, UtxoSet, pubkey_to_address, output_sum, sha256d, sha256d_hex,
}
use arche_blockchain.Tx.Validate.{
  default_rules, validate_transaction, check_inputs, input_ok, immature, owns, signed, sums_ok,
  effective_maturity, effective_heights,
}
use arche_blockchain.Tx.Spends.{input_total}
use arche_blockchain.Tx.Sums.{total_value, NonNeg}
use arche_blockchain.Block.{
  Block, header_bytes, pack_u32, pack_32s, compute_hash, meets_target, validate_timestamp, leaves,
  reduce_layers, next_layer, merkle_root,
}
use arche_blockchain.Chain.{Blockchain, Store, commit_hashed, commit, spend_and_create}
use arche_blockchain.Chain.Validate.{
  Env, validate_block, contents_ok, links, timely, coinbases, starts_with_coinbase, no_repeats,
  coinbase_ok, outputs_nonneg, validate_txs, block_rules, total_fees, tx_fee, expected_bits,
  genesis_prev_hash,
}
use arche_blockchain.Chain.Reorg.{extend}
use arche_blockchain.Chain.Ledger.{apply_valid}
use arche_blockchain.Chain.Cap.{extend_supply}
use arche_blockchain.Chain.Persist.{Synced, commit-Synced}
use arche_blockchain.Chain.Rebuilt.{IsReloadable}
use arche_blockchain.Chain.Reloadable.{IsStorable}
use arche_blockchain.Chain.Restart.{load_state, restart_lem}

abbrev pub toy_env : Env
toy_env = record {
  crypto = record {
    sha256 = λ message. [];
    ripemd160 = λ message. 2 ∷ [];
    verify = λ pubkey signature message. some true;
  };
  json_size = λ b. 500;
}

abbrev old_output : TxOutput
old_output = record { value = pos 10; address = codes "02" }

abbrev old_utxo : UtxoSet
old_utxo = record { utxos = ((codes "aa", 0), old_output) ∷ []; coinbase_heights = [] }

abbrev pub empty_store : Store
empty_store = record {
  info = none;
  blocks = [];
  hashes = [];
  utxo = [];
  tx_index = [];
  cb_height = [];
  chain_work = [];
}

abbrev pub old_chain : Blockchain
old_chain = record {
  store = empty_store;
  utxo = old_utxo;
  height = negsuc 0;
  tip = genesis_prev_hash;
  cumulative_work = 0;
  no_retarget = false;
  chain_id = 1;
}

-- It pays 7 and leaves a fee of 3.
abbrev pay_seven : TxDict
pay_seven = record {
  txid = codes "bb";
  coinbase = false;
  inputs =
      record { txid = codes "aa"; index = 0; signature = codes "01"; pubkey = codes "02" } ∷ [];
  outputs = record { value = pos 7; address = codes "03" } ∷ [];
}

abbrev reward : TxDict
reward = record {
  txid = codes "cc";
  coinbase = true;
  inputs = [];
  outputs = record { value = pos 5000000003; address = codes "04" } ∷ [];
}

abbrev pub first_block : Block
first_block = record {
  version = 1;
  index = 0;
  prev_hash = genesis_prev_hash;
  timestamp = 1700000000;
  bits = difficulty_to_bits 0;
  nonce = 0;
  tx_merkle_root = codes "";
  transactions = reward ∷ pay_seven ∷ [];
}

abbrev pub new_chain : Blockchain
new_chain = commit_hashed (codes "") first_block old_chain

pub first_block-accepted : extend toy_env 1700000100 first_block old_chain ≡ some (new_chain, true)
unfolding extend commit validate_block contents_ok links timely coinbases starts_with_coinbase
    no_repeats coinbase_ok outputs_nonneg validate_txs block_rules total_fees tx_fee expected_bits
    header_bytes pack_u32 pack_32s compute_hash meets_target validate_timestamp leaves reduce_layers
    next_layer merkle_root validate_transaction check_inputs input_ok immature owns signed sums_ok
    effective_maturity effective_heights any text_beq get put from_hex hex_byte hex_value is_space
    add_byte to_hex hex_digit pubkey_to_address output_sum ◌+ℤ◌ ◌-ℤ◌ difficulty_to_bits
    bits_to_target target_to_bits scan to_bytes compact from_bytes block_subsidy sha256d sha256d_hex
first_block-accepted = refl

extend_supply_example :
    NonNeg new_chain.utxo.utxos
    × (total_value new_chain.utxo.utxos
        ≤ℤ total_value old_chain.utxo.utxos +ℤ pos (block_subsidy first_block.index))
unfolding get text_beq
extend_supply_example =
    extend_supply toy_env 1700000100 first_block old_chain new_chain first_block-accepted
      (omega arith, tt) (λ i. refl, (λ i. refl, tt))

pay_seven-valid : validate_transaction toy_env.crypto default_rules old_utxo pay_seven ≡ true
unfolding validate_transaction check_inputs input_ok immature owns signed sums_ok effective_maturity
    effective_heights any text_beq get from_hex hex_byte hex_value is_space add_byte to_hex
    hex_digit pubkey_to_address output_sum ◌+ℤ◌ ◌-ℤ◌
pay_seven-valid = refl

apply_valid_example :
    NonNeg (spend_and_create pay_seven old_utxo.utxos)
    × (total_value (spend_and_create pay_seven old_utxo.utxos)
          +ℤ input_total old_utxo.utxos pay_seven.inputs
        ≤ℤ total_value old_utxo.utxos +ℤ output_sum pay_seven.outputs)
    × (output_sum pay_seven.outputs ≤ℤ input_total old_utxo.utxos pay_seven.inputs)
apply_valid_example =
    apply_valid toy_env.crypto default_rules old_utxo old_utxo.utxos pay_seven (omega arith, tt)
      (λ k out e. e) refl pay_seven-valid

-- The same chain with its output in the store too.
abbrev kept_chain : Blockchain
kept_chain = record old_chain { store = record empty_store { utxo = old_utxo.utxos } }

commit-Synced_example :
    Synced
      (commit_hashed (codes "00") first_block kept_chain).store
      (commit_hashed (codes "00") first_block kept_chain).utxo
    × ((commit_hashed (codes "00") first_block kept_chain).store.info
        ≡ some record {
          height = (commit_hashed (codes "00") first_block kept_chain).height;
          tip = (commit_hashed (codes "00") first_block kept_chain).tip;
          cumulative_work = (commit_hashed (codes "00") first_block kept_chain).cumulative_work;
        })
commit-Synced_example = commit-Synced (codes "00") first_block kept_chain (refl, refl)

kept_chain-committed :
    commit toy_env.crypto first_block kept_chain
    ≡ some (commit_hashed (codes "") first_block kept_chain)
unfolding commit compute_hash header_bytes pack_u32 pack_32s from_hex hex_byte hex_value is_space
    add_byte to_hex sha256d sha256d_hex difficulty_to_bits target_to_bits scan to_bytes compact
    from_bytes
kept_chain-committed = refl

kept_chain-IsReloadable : IsReloadable some kept_chain.utxo
unfolding contains any text_beq
kept_chain-IsReloadable = record {
  one_output = (refl, tt);
  one_height = tt;
  readable = ((refl, refl), tt);
}

first_block-IsStorable : All (IsStorable some) first_block.transactions
unfolding any
first_block-IsStorable = ((refl, (refl, tt)), ((refl, (refl, tt)), tt))

restart_lem_example :
    load_state some toy_env.crypto
      (commit_hashed (codes "") first_block kept_chain).no_retarget
      (commit_hashed (codes "") first_block kept_chain).chain_id
      (commit_hashed (codes "") first_block kept_chain).store
    ≡ some (commit_hashed (codes "") first_block kept_chain)
restart_lem_example =
    restart_lem some toy_env.crypto first_block kept_chain
      (commit_hashed (codes "") first_block kept_chain) kept_chain-committed (refl, refl)
      kept_chain-IsReloadable first_block-IsStorable
