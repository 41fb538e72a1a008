-- ===== src/Wallet.antt =====
-- wallet/wallet.py: BIP39 mnemonics, the derivation of child keys, and Base58Check. The list of
-- words, the entropy, and the functions of hashlib and hmac are arguments.
pub mod Mnemonic
pub mod Base58
mod Digits
mod Words
mod RoundTrip
mod Examples
use arche_blockchain.Prelude.{
  ℕ, zero, suc, ◌+◌, ◌*◌, ◌/◌, ◌%◌, ◌^◌, Option, none, some, List, [], ◌∷◌, ◌++◌, take, drop, leb,
  codes, if◌then◌else◌,
}
use arche_blockchain.Encoding.{Bytes}
use arche_blockchain.Target.{to_bytes, from_bytes}

-- hmac.new(key, data, hashlib.sha512).digest(), as a function of the key and the data.
abbrev pub HmacSha512 : Type 0
HmacSha512 = Bytes → Bytes → Bytes

unfoldable pub bitcoin_seed : Bytes
bitcoin_seed = codes "Bitcoin seed"

unfoldable pub derive_master : HmacSha512 → Bytes → Bytes × Bytes
derive_master hmac seed = let raw = hmac bitcoin_seed seed in (take 32 raw, drop 32 raw)

-- The order of the group of secp256k1.
unfoldable pub curve_order : ℕ
curve_order = 115792089237316195423570985008687907852837564279074904382605163141518161494337

-- An index past 32 bits raises.
unfoldable pub derive_child : HmacSha512 → Bytes → Bytes → ℕ → Option (Bytes × Bytes)
derive_child hmac parent_key parent_chain index =
    let raw = hmac parent_chain (0 ∷ parent_key ++ to_bytes 4 index) in
    let child_key = (from_bytes 0 (take 32 raw) + from_bytes 0 parent_key) % curve_order in
    if leb (2 ^ 32) index then none else some (to_bytes 32 child_key, drop 32 raw)

unfoldable pub derive_path : HmacSha512 → List ℕ → Bytes × Bytes → Option (Bytes × Bytes)
derive_path hmac [] node = some node
derive_path hmac (index ∷ path) (key, chain) = elim (derive_child hmac key chain index) [
  | none ↦ none
  | some child ↦ derive_path hmac path child
]

-- The private key of `derive_keypair_from_seed`.
unfoldable pub derive_private_key : HmacSha512 → Bytes → ℕ → ℕ → Option Bytes
derive_private_key hmac seed account index =
    elim (derive_path hmac (44 ∷ 0 ∷ account ∷ 0 ∷ index ∷ []) (derive_master hmac seed)) [
      | none ↦ none
      | some node ↦ some node.0
    ]
