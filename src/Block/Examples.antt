-- ===== src/Block/Examples.antt =====
-- The Merkle root of three txids, with a hash that changes nothing.
use arche_blockchain.Prelude.{◌≡◌, refl, true, some, List, [], ◌∷◌, Text, codes}
use arche_blockchain.Encoding.{from_hex, hex_byte, hex_value, is_space, add_byte}
use arche_blockchain.Tx.{Crypto}
use arche_blockchain.Block.{leaves, merkle_root}
use arche_blockchain.Block.Merkle.{merkle_root_total}

abbrev plain_crypto : Crypto
plain_crypto = record {
  sha256 = λ message. message;
  ripemd160 = λ message. message;
  verify = λ pubkey signature message. some true;
}

abbrev three_txids : List Text
three_txids = codes "0a" ∷ codes "0b" ∷ codes "0c" ∷ []

three-leaves : leaves three_txids ≡ some ((10 ∷ []) ∷ (11 ∷ []) ∷ (12 ∷ []) ∷ [])
unfolding leaves from_hex hex_byte hex_value is_space add_byte
three-leaves = refl

merkle_root_total_example : (root : Text) × (merkle_root plain_crypto three_txids ≡ some root)
merkle_root_total_example = merkle_root_total plain_crypto three_txids _ three-leaves
