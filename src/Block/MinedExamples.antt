-- ===== src/Block/MinedExamples.antt =====
-- The search for a nonce with a hash that every target admits, from the nonce 7.
use arche_blockchain.Prelude.{◌≡◌, refl, true, some, [], codes}
use arche_blockchain.Encoding.{from_hex, hex_byte, hex_value, is_space, add_byte}
use arche_blockchain.Target.{
  from_bytes, bits_to_target, difficulty_to_bits, target_to_bits, scan, compact, to_bytes,
}
use arche_blockchain.Tx.{Crypto, sha256d}
use arche_blockchain.Block.{Block, pack_u32, pack_32s, header_bytes}
use arche_blockchain.Block.Search.{found, patch_nonce, search_nonce, mine_block}
use arche_blockchain.Block.Mined.{IsMined, mine_block-IsMined}

abbrev easy_crypto : Crypto
easy_crypto = record {
  sha256 = λ message. [];
  ripemd160 = λ message. message;
  verify = λ pubkey signature message. some true;
}

abbrev candidate : Block
candidate = record {
  version = 1;
  index = 3;
  prev_hash = codes "0a";
  timestamp = 1700000000;
  bits = 0;
  nonce = 0;
  tx_merkle_root = codes "0b";
  transactions = [];
}

abbrev seventh : Block
seventh = record candidate { bits = difficulty_to_bits 1; nonce = 7 }

candidate-found : mine_block easy_crypto 5 candidate 1 7 ≡ some (found seventh)
unfolding mine_block search_nonce patch_nonce header_bytes pack_u32 pack_32s from_hex hex_byte
    hex_value is_space add_byte sha256d from_bytes bits_to_target difficulty_to_bits target_to_bits
    scan compact to_bytes
candidate-found = refl

mine_block-IsMined_example :
    IsMined easy_crypto record candidate { bits = difficulty_to_bits 1 } seventh
mine_block-IsMined_example = mine_block-IsMined easy_crypto 5 candidate seventh 1 7 candidate-found
