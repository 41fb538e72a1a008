-- ===== src/Wallet/Base58.antt =====
-- wallet/wallet.py: Base58Check, for the two hashes of SHA-256.
use arche_blockchain.Prelude.{
  ℕ, zero, suc, ◌+◌, ◌-◌, ◌*◌, ◌/◌, ◌%◌, Option, none, some, List, [], ◌∷◌, ◌++◌, codes, length,
  take, drop, ltb, Text, ◌==◌, if◌then◌else◌, nat_eq, text_eq, max,
}
use arche_blockchain.Encoding.{Bytes}
use arche_blockchain.Target.{to_bytes, from_bytes}

unfoldable pub alphabet : Text
alphabet = codes "123456789ABCDEFGHJKLMNPQRSTUVWXYZabcdefghijkmnopqrstuvwxyz"

unfoldable pub char_at : ℕ → Text → ℕ
char_at i [] = 0
char_at zero (c ∷ cs) = c
char_at (suc i) (c ∷ cs) = char_at i cs

unfoldable pub char_index : ℕ → Text → Option ℕ
char_index x [] = none
char_index x (c ∷ cs) =
    let rest = char_index x cs in
    if c == x then some 0 else elim rest [ none ↦ none | some i ↦ some (suc i) ]

-- The base 58 digits of a number, the highest first, before `out`. The first argument is fuel; a
-- number above `n` is enough.
unfoldable pub digits58 : ℕ → ℕ → Text → Text
digits58 zero n out = out
digits58 (suc fuel) n out =
    let rest = digits58 fuel (n / 58) (char_at (n % 58) alphabet ∷ out) in
    if n == 0 then out else rest

-- `sum(1 for c in s if c == x)`: all of them, not the leading ones only.
unfoldable pub count : ℕ → List ℕ → ℕ
count x [] = 0
count x (c ∷ cs) = let rest = count x cs in if c == x then suc rest else rest

unfoldable pub repeat : ℕ → ℕ → List ℕ
repeat x zero = []
repeat x (suc n) = x ∷ repeat x n

unfoldable pub b58enc : Bytes → Text
b58enc b =
    let n = from_bytes 0 b in
    let out = digits58 (suc n) n [] in repeat (char_at 0 alphabet) (count 0 b) ++ out

-- The value of a text; a character outside the alphabet raises.
unfoldable pub value58 : ℕ → Text → Option ℕ
value58 n [] = some n
value58 n (c ∷ cs) = elim (char_index c alphabet) [ none ↦ none | some i ↦ value58 (n * 58 + i) cs ]

-- The bytes that a number needs; the first argument is fuel.
unfoldable pub byte_length : ℕ → ℕ → ℕ
byte_length zero n = 0
byte_length (suc fuel) n = let rest = byte_length fuel (n / 256) in if n == 0 then 0 else suc rest

unfoldable pub b58dec : Text → Option Bytes
b58dec s = elim (value58 0 s) [
  | none ↦ none
  | some n ↦
      let result = to_bytes (max 1 (byte_length (suc n) n)) n in
      some (repeat 0 (count b'1' s) ++ result)
]

module _ (sha256 : Bytes → Bytes) where
  unfoldable pub base58check_encode : Bytes → Bytes → Text
  base58check_encode version payload =
      let body = version ++ payload in b58enc (body ++ take 4 (sha256 (sha256 body)))

  -- `raw[:-4]` and `raw[-4:]` are split off; a short text or a wrong checksum raises.
  unfoldable pub base58check_decode : Text → Option (Bytes × Bytes)
  base58check_decode s = elim (b58dec s) [
    | none ↦ none
    | some raw ↦
        if ltb (length raw) 5
        then none
        else (let body = take (length raw - 4) raw in
            let cs = drop (length raw - 4) raw in
            if take 4 (sha256 (sha256 body)) == cs then some (take 1 body, drop 1 body) else none)
  ]
