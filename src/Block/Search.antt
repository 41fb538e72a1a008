-- ===== src/Block/Search.antt =====
-- mine_block (node/pow.py): the search for a nonce on the header's bytes, of which only the last four
-- are written in a pass. The event that interrupts it is set after a number of passes, the fuel.
use arche_blockchain.Prelude.{
  ℕ, zero, suc, ◌+◌, ◌%◌, ◌^◌, true, false, Option, some, ◌++◌, take, leb, ◌==◌, nat_eq,
}
use arche_blockchain.Encoding.{Bytes}
use arche_blockchain.Target.{from_bytes, bits_to_target, difficulty_to_bits}
use arche_blockchain.Tx.{Crypto, sha256d}
use arche_blockchain.Block.{Block, ◌>>=◌, pack_u32, header_bytes}

pub data Search : Type 0 where
  -- RuntimeError
  interrupted : Search
  found : Block → Search

-- `struct.pack_into("<I", header_ba, 76, nonce)`
unfoldable pub patch_nonce : ℕ → Bytes → Option Bytes
patch_nonce nonce header = do tail ← pack_u32 nonce; some (take 76 header ++ tail)

-- The `while` loop.
unfoldable pub search_nonce : Crypto → ℕ → ℕ → Block → Bytes → ℕ → Option Search
search_nonce crypto zero target b header nonce = some interrupted
search_nonce crypto (suc passes) target b header nonce = do
  patched ← patch_nonce nonce header
  elim (leb (from_bytes 0 (sha256d crypto patched)) target) [
    | true ↦ some (found record b { nonce = nonce })
    | false ↦ elim ((nonce + 1) % 2 ^ 32 == 0) [
      | true ↦ do
        rebuilt ← header_bytes record b { timestamp = b.timestamp + 1 }
        search_nonce crypto passes target record b { timestamp = b.timestamp + 1 } rebuilt 0
      | false ↦ search_nonce crypto passes target b patched ((nonce + 1) % 2 ^ 32)
    ]
  ]

unfoldable pub mine_block : Crypto → ℕ → Block → ℕ → ℕ → Option Search
mine_block crypto passes block difficulty start_nonce = do
  header ← header_bytes record block { bits = difficulty_to_bits difficulty }
  search_nonce crypto passes (bits_to_target (difficulty_to_bits difficulty))
      record block { bits = difficulty_to_bits difficulty } header (start_nonce % 2 ^ 32)
