-- ===== src/Encoding/Hex.antt =====
-- Hexadecimal bytes: what `bytes.hex` writes, `bytes.fromhex` reads.
use arche_blockchain.Prelude.{
  ℕ, ◌+◌, ◌*◌, ◌/◌, ◌%◌, ◌<◌, ◌≡◌, refl, ap, false, some, [], ◌∷◌, All, arith, ◌∙◌, sym, ◌==◌,
  text_eq, ==_iff, ==_refl, Bool-cases, inl, inr,
}
use arche_blockchain.Encoding.{
  Bytes, hex_value, hex_digit, hex_byte, is_space, add_byte, from_hex, to_hex,
}

-- Every byte is below 256.
abbrev pub IsBytes : Bytes → Type 0
IsBytes bs = All (λ b. b < 256) bs

hex_value-hex_digit : (n : ℕ) → n < 16 → hex_value (hex_digit n) ≡ some n
unfolding hex_value hex_digit
hex_value-hex_digit n h = ground (arith, h)

is_space-hex_digit : (n : ℕ) → n < 16 → is_space (hex_digit n) ≡ false
unfolding is_space hex_digit
is_space-hex_digit n h = ground (arith, h)

-- The two digits of a byte.
hex_byte_digits :
    (b : ℕ) → b < 256 → hex_byte (hex_digit (b / 16 % 16)) (hex_digit (b % 16)) ≡ some b
unfolding hex_byte
hex_byte_digits b small =
    let whole : b / 16 % 16 * 16 + b % 16 ≡ b = omega (arith, small) in
    rw
      (
        hex_byte,
        hex_value-hex_digit (b / 16 % 16) (omega arith),
        hex_value-hex_digit (b % 16) (omega arith),
        whole,
      )
      refl

pub from_hex-to_hex : (bs : Bytes) → IsBytes bs → from_hex (to_hex bs) ≡ some bs
unfolding to_hex from_hex add_byte
from_hex-to_hex [] h = refl
from_hex-to_hex (b ∷ bs) (small, h) =
    rw
      (
        is_space-hex_digit (b / 16 % 16) (omega arith),
        hex_byte_digits b small,
        from_hex-to_hex bs h,
      )
      refl

to_hex_injective : (j k : Bytes) → IsBytes j → IsBytes k → to_hex j ≡ to_hex k → j ≡ k
to_hex_injective j k hj hk p =
    let q : some j ≡ some k = sym (from_hex-to_hex j hj) ∙ ap from_hex p ∙ from_hex-to_hex k hk in
    ground (arith, q)

-- Two byte strings with one hexadecimal text are equal.
pub to_hex-== : (j k : Bytes) → IsBytes j → IsBytes k → (to_hex j == to_hex k) ≡ (j == k)
to_hex-== j k hj hk = elim (Bool-cases (to_hex j == to_hex k)) [
  | inl same ↦
      let p = to_hex_injective j k hj hk ((==_iff (to_hex j) (to_hex k)).0 same) in
      rw (same, p, ==_refl k) refl
  | inr other ↦ elim (Bool-cases (j == k)) [
    | inr apart ↦ rw (other, apart) refl
    | inl same ↦
        let p = (==_iff (to_hex j) (to_hex k)).1 (ap to_hex ((==_iff j k).0 same)) in
        ground (arith, p, other)
  ]
]
