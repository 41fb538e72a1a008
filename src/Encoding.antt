-- ===== src/Encoding.antt =====
-- The text forms that node/tx.py uses of Python's standard library: hexadecimal bytes
-- (`bytes.fromhex`, `bytes.hex`), decimal numbers and the strings of `json.dumps`.
pub mod Decimal
pub mod Hex
use arche_blockchain.Prelude.{
  ℕ, zero, suc, ◌+◌, ◌-◌, ◌*◌, ◌/◌, ◌%◌, Bool, ◌&&◌, ◌||◌, Option, none, some, List, [], ◌∷◌, ◌++◌,
  Text, codes, ltb, leb, nat_beq, if◌then◌else◌,
}
use arche_blockchain.Int.{ℤ, pos, negsuc}

abbrev pub Bytes : Type 0
Bytes = List ℕ

-- The value of a hexadecimal digit, in either case.
unfoldable pub hex_value : ℕ → Option ℕ
hex_value c =
    if leb b'0' c && leb c b'9'
    then some (c - b'0')
    else if leb b'a' c && leb c b'f'
    then some (c - b'a' + 10)
    else if leb b'A' c && leb c b'F'
    then some (c - b'A' + 10)
    else none

-- The ASCII white space that `bytes.fromhex` skips between bytes.
unfoldable pub is_space : ℕ → Bool
is_space c = nat_beq c 32 || (leb 9 c && leb c 13)

unfoldable pub hex_byte : ℕ → ℕ → Option ℕ
hex_byte a b = elim (hex_value a) [
  | none ↦ none
  | some h ↦ elim (hex_value b) [ none ↦ none | some l ↦ some (h * 16 + l) ]
]

unfoldable pub add_byte : Option ℕ → Option Bytes → Option Bytes
add_byte (some b) (some bs) = some (b ∷ bs)
add_byte _ _ = none

-- `bytes.fromhex`; `none` where it raises.
unfoldable pub from_hex : Text → Option Bytes
unfolding is_space hex_byte hex_value add_byte
from_hex [] = some []
from_hex (a ∷ []) = if is_space a then some [] else none
from_hex (a ∷ b ∷ rest) =
    let skipped = from_hex (b ∷ rest) in
    let more = from_hex rest in if is_space a then skipped else add_byte (hex_byte a b) more

unfoldable pub hex_digit : ℕ → ℕ
hex_digit n = if ltb n 10 then b'0' + n else b'a' + (n - 10)

-- `bytes.hex`
unfoldable pub to_hex : Bytes → Text
unfolding hex_digit
to_hex [] = []
to_hex (b ∷ bs) = hex_digit (b / 16 % 16) ∷ hex_digit (b % 16) ∷ to_hex bs

-- The decimal digits of a number; the first argument is fuel, and a number above `n` is enough.
unfoldable pub decimal : ℕ → ℕ → Text
decimal zero n = []
decimal (suc fuel) n =
    let higher = decimal fuel (n / 10) in
    if ltb n 10 then (b'0' + n) ∷ [] else higher ++ ((b'0' + n % 10) ∷ [])

-- `str(n)` of a natural number and of an integer.
unfoldable pub str : ℕ → Text
unfolding decimal
str n = decimal (suc n) n

unfoldable pub str_ℤ : ℤ → Text
unfolding str
str_ℤ (pos n) = str n
str_ℤ (negsuc n) = b'-' ∷ str (suc n)

-- `\uXXXX`
unfoldable pub unicode_escape : ℕ → Text
unfolding hex_digit
unicode_escape c =
    b'\\'
    ∷ b'u'
    ∷ hex_digit (c / 4096 % 16)
    ∷ hex_digit (c / 256 % 16)
    ∷ hex_digit (c / 16 % 16)
    ∷ hex_digit (c % 16)
    ∷ []

-- One character of a `json.dumps` string, which is ASCII.
unfoldable pub json_char : ℕ → Text
unfolding unicode_escape
json_char c =
    if nat_beq c b'"' || nat_beq c b'\\'
    then b'\\' ∷ c ∷ []
    else if leb 32 c && leb c 126
    then c ∷ []
    else if nat_beq c 10
    then b'\\' ∷ b'n' ∷ []
    else if nat_beq c 13
    then b'\\' ∷ b'r' ∷ []
    else if nat_beq c 9
    then b'\\' ∷ b't' ∷ []
    else if nat_beq c 8
    then b'\\' ∷ b'b' ∷ []
    else if nat_beq c 12
    then b'\\' ∷ b'f' ∷ []
    else if ltb c 0x10000
    then unicode_escape c
    else unicode_escape (0xD800 + (c - 0x10000) / 1024 % 1024)
      ++ unicode_escape (0xDC00 + (c - 0x10000) % 1024)

unfoldable pub json_chars : Text → Text
json_chars [] = []
json_chars (c ∷ cs) = json_char c ++ json_chars cs

unfoldable pub json_string : Text → Text
unfolding json_chars json_char
json_string s = b'"' ∷ (json_chars s ++ (b'"' ∷ []))

-- The items of a JSON list, with the compact separator.
unfoldable pub json_items : List Text → Text
json_items [] = []
json_items (x ∷ []) = x
json_items (x ∷ y ∷ xs) = x ++ (b',' ∷ json_items (y ∷ xs))
