-- ===== src/Block.antt =====
-- Blocks (node/block.py): the 80-byte header and its hash, the proof-of-work test, the timestamp
-- rule and the Merkle root. `none` stands for a raised exception: a hash that is no hexadecimal
-- text, or a header field that does not fit in 32 bits.
pub mod Merkle
pub mod Search
pub mod Mined
mod Examples
mod MinedExamples
use arche_blockchain.Prelude.{
  ℕ, zero, suc, ◌+◌, ◌/◌, ◌%◌, ◌^◌, ◌≡◌, refl, Bool, true, false, ◌&&◌, Option, none, some, List,
  [], ◌∷◌, ◌++◌, map, Text, codes, length, take, ltb, leb, if◌then◌else◌,
}
use arche_blockchain.Params.{max_future_seconds}
use arche_blockchain.Encoding.{Bytes, from_hex, to_hex}
use arche_blockchain.Target.{from_bytes, bits_to_target, difficulty_to_bits}
use arche_blockchain.Tx.{Crypto, sha256d, sha256d_hex, TxDict}

pub record Block : Type 0 where
  pub version : ℕ
  pub index : ℕ
  pub prev_hash : Text
  pub timestamp : ℕ
  pub bits : ℕ
  pub nonce : ℕ
  pub tx_merkle_root : Text
  pub transactions : List TxDict

infixl 5 ◌>>=◌
abbrev pub ◌>>=◌ {ℓ κ} : {A : Type ℓ} {B : Type κ} → Option A → (A → Option B) → Option B
none >>= f = none
some a >>= f = f a

-- A chain of steps that does not raise has steps that do not.
pub >>=-eq-some {ℓ κ} :
    {A : Type ℓ} {B : Type κ} (m : Option A) (f : A → Option B) {b : B}
    → (m >>= f) ≡ some b
    → (a : A) × (m ≡ some a) × (f a ≡ some b)
>>=-eq-some none f h = cc
>>=-eq-some (some a) f h = (a, refl, h)

-- `struct.pack("<I", n)`
unfoldable pub pack_u32 : ℕ → Option Bytes
pack_u32 n =
    if ltb n (2 ^ 32)
    then some (n % 256 ∷ n / 2 ^ 8 % 256 ∷ n / 2 ^ 16 % 256 ∷ n / 2 ^ 24 % 256 ∷ [])
    else none

-- `struct.pack("32s", bs)`: cut off, or filled with zero bytes.
unfoldable pub pack_32s : ℕ → Bytes → Bytes
pack_32s zero bs = []
pack_32s (suc n) [] = 0 ∷ pack_32s n []
pack_32s (suc n) (b ∷ bs) = b ∷ pack_32s n bs

unfoldable pub header_bytes : Block → Option Bytes
header_bytes b = do
  version ← pack_u32 b.version
  prev ← from_hex b.prev_hash
  root ← from_hex b.tx_merkle_root
  timestamp ← pack_u32 b.timestamp
  bits ← pack_u32 b.bits
  nonce ← pack_u32 b.nonce
  some (version ++ (pack_32s 32 prev ++ (pack_32s 32 root ++ (timestamp ++ (bits ++ nonce)))))

unfoldable pub compute_hash : Crypto → Block → Option Text
compute_hash crypto b = do header ← header_bytes b; some (sha256d_hex crypto header)

unfoldable pub meets_target : Crypto → Block → Option Bool
meets_target crypto b = do
  header ← header_bytes b
  some (leb (from_bytes 0 (sha256d crypto header)) (bits_to_target b.bits))

unfoldable pub validate_timestamp : Block → ℕ → ℕ → Bool
validate_timestamp b median_time_past now =
    if ltb 0 median_time_past && ltb b.timestamp median_time_past
    then false
    else if ltb (now + max_future_seconds) b.timestamp
    then false
    else true

-- One level of the tree: a last node with no partner is paired with itself.
unfoldable pub next_layer : Crypto → List Bytes → List Bytes
next_layer crypto [] = []
next_layer crypto (a ∷ []) = sha256d crypto (a ++ a) ∷ []
next_layer crypto (a ∷ b ∷ rest) = sha256d crypto (a ++ b) ∷ next_layer crypto rest

-- `while len(layer) > 1`, on fuel; the number of leaves is enough.
unfoldable pub reduce_layers : Crypto → ℕ → List Bytes → Option Bytes
reduce_layers crypto fuel [] = none
reduce_layers crypto fuel (root ∷ []) = some root
reduce_layers crypto zero (a ∷ b ∷ rest) = none
reduce_layers crypto (suc fuel) (a ∷ b ∷ rest) =
    reduce_layers crypto fuel (next_layer crypto (a ∷ b ∷ rest))

-- `[bytes.fromhex(x) for x in txids]`
unfoldable pub leaves : List Text → Option (List Bytes)
leaves [] = some []
leaves (x ∷ xs) = do b ← from_hex x; bs ← leaves xs; some (b ∷ bs)

unfoldable pub merkle_root : Crypto → List Text → Option Text
merkle_root crypto [] = some (sha256d_hex crypto [])
merkle_root crypto (x ∷ xs) = do
  layer ← leaves (x ∷ xs)
  root ← reduce_layers crypto (length layer) layer
  some (to_hex root)

abbrev pub tx_id : TxDict → Text
tx_id t = t.txid

-- `Block.create`, at the time `now`.
pub create : Crypto → ℕ → Text → List TxDict → ℕ → ℕ → ℕ → ℕ → Option Block
create crypto index prev_hash transactions difficulty nonce version now = do
  root ← merkle_root crypto (map tx_id transactions)
  some (record {
    version = version;
    index = index;
    prev_hash = prev_hash;
    timestamp = now;
    bits = difficulty_to_bits difficulty;
    nonce = nonce;
    tx_merkle_root = root;
    transactions = transactions;
  })
