-- ===== src/Node/OrphanExamples.antt =====
-- A block that waits for its parent, and the parent's arrival.
use arche_blockchain.Prelude.{◌≡◌, refl, true, some, [], ◌∷◌, List, codes, any, text_beq, map}
use arche_blockchain.Int.{pos, ◌+ℤ◌, ◌-ℤ◌}
use arche_blockchain.Dict.{get, put, pop}
use arche_blockchain.Params.{block_subsidy}
use arche_blockchain.Target.{
  difficulty_to_bits, bits_to_target, target_to_bits, scan, compact, to_bytes, from_bytes,
}
use arche_blockchain.Encoding.{from_hex, hex_byte, hex_value, is_space, add_byte, to_hex, hex_digit}
use arche_blockchain.Tx.{TxDict, sha256d, sha256d_hex, output_sum, put_outputs, pop_inputs}
use arche_blockchain.Block.{
  Block, compute_hash, header_bytes, pack_u32, pack_32s, meets_target, validate_timestamp, leaves,
  reduce_layers, next_layer, merkle_root,
}
use arche_blockchain.Chain.{
  Blockchain, commit_hashed, commit, write_batch, apply_op, txs_ops, tx_ops, put_output_ops,
  apply_txs, apply_tx, spend_and_create,
}
use arche_blockchain.Chain.Reorg.{add_block, extend, is_next}
use arche_blockchain.Chain.Examples.{
  toy_env, old_chain, first_block, new_chain, first_block-accepted,
}
use arche_blockchain.Chain.Validate.{
  validate_block, contents_ok, links, timely, median_time_past, timestamps, sort, insert, element,
  coinbases, starts_with_coinbase, no_repeats, coinbase_ok, outputs_nonneg, validate_txs,
  block_rules, total_fees, tx_fee, expected_bits, previous_bits,
}
use arche_blockchain.Node.Blocks.{NodeState, Outgoing, handle_block, announce_block, drop_included}
use arche_blockchain.Node.Orphans.{IsAccepted, EndsWith, handle_block-attaches}

abbrev second_reward : TxDict
second_reward = record {
  txid = codes "dd";
  coinbase = true;
  inputs = [];
  outputs = record { value = pos 5000000000; address = codes "04" } ∷ [];
}

abbrev second_block : Block
second_block = record {
  version = 1;
  index = 1;
  prev_hash = codes "";
  timestamp = 1700000050;
  bits = difficulty_to_bits 0;
  nonce = 0;
  tx_merkle_root = codes "dd";
  transactions = second_reward ∷ [];
}

abbrev second_chain : Blockchain
second_chain = commit_hashed (codes "") second_block new_chain

-- The second block came first and waits.
abbrev waiting : NodeState
waiting = record {
  chain = old_chain;
  mempool = [];
  orphans = (codes "", second_block) ∷ [];
  interrupted = true;
  fee_floor = pos 0;
}

second_block-accepted :
    add_block toy_env 1700000100 second_block new_chain ≡ some (second_chain, true)
unfolding add_block is_next extend commit commit_hashed write_batch apply_op txs_ops tx_ops
    put_output_ops apply_txs apply_tx spend_and_create put_outputs pop_inputs validate_block
    contents_ok links timely median_time_past timestamps sort insert element coinbases
    starts_with_coinbase no_repeats coinbase_ok outputs_nonneg validate_txs block_rules total_fees
    tx_fee expected_bits previous_bits header_bytes pack_u32 pack_32s compute_hash meets_target
    validate_timestamp leaves reduce_layers next_layer merkle_root any text_beq get put pop from_hex
    hex_byte hex_value is_space add_byte to_hex hex_digit output_sum ◌+ℤ◌ ◌-ℤ◌ difficulty_to_bits
    bits_to_target target_to_bits scan to_bytes compact from_bytes block_subsidy sha256d sha256d_hex
second_block-accepted = refl

first_block-added : add_block toy_env 1700000100 first_block old_chain ≡ some (new_chain, true)
unfolding add_block is_next text_beq ◌+ℤ◌
first_block-added = first_block-accepted

hash_is_empty :
    (compute_hash toy_env.crypto first_block ≡ some (codes ""))
    × (compute_hash toy_env.crypto second_block ≡ some (codes ""))
unfolding compute_hash header_bytes pack_u32 pack_32s from_hex hex_byte hex_value is_space add_byte
    to_hex sha256d sha256d_hex difficulty_to_bits target_to_bits scan to_bytes compact from_bytes
hash_is_empty = (refl, refl)

abbrev first_step : IsAccepted toy_env 1700000100 first_block old_chain
first_step = record {
  after = new_chain;
  hash = codes "";
  accepted = first_block-added;
  hashed = hash_is_empty.0;
}

abbrev second_step : IsAccepted toy_env 1700000100 second_block new_chain
second_step = record {
  after = second_chain;
  hash = codes "";
  accepted = second_block-accepted;
  hashed = hash_is_empty.1;
}

handle_block-attaches_example :
    (o : NodeState × List Outgoing) × (handle_block toy_env 1700000100 true first_block waiting
      ≡ some o)
    × EndsWith o second_chain [] (map announce_block (first_block ∷ second_block ∷ []))
unfolding get pop text_beq drop_included
handle_block-attaches_example =
    handle_block-attaches toy_env 1700000100 true first_block waiting (second_block ∷ [])
      second_chain first_step (refl, second_step, (refl, refl))
