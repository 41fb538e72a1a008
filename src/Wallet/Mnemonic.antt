-- ===== src/Wallet/Mnemonic.antt =====
-- wallet/wallet.py: generate_mnemonic and validate_mnemonic, for a word list and SHA-256.
use arche_blockchain.Prelude.{
  ℕ, zero, suc, ◌+◌, ◌-◌, ◌*◌, ◌/◌, ◌%◌, ◌^◌, Bool, false, ◌&&◌, ◌||◌, Option, none, some, List, [],
  ◌∷◌, ◌++◌, any, length, leb, ltb, nat_beq, Text, ◌==◌, if◌then◌else◌, nat_eq, text_eq,
}
use arche_blockchain.Encoding.{Bytes}
use arche_blockchain.Target.{to_bytes, from_bytes}

-- `words[i]`; an index past the end raises, which no index of a list of 2048 words does here.
unfoldable pub word_at : ℕ → List Text → Text
word_at i [] = []
word_at zero (w ∷ ws) = w
word_at (suc i) (w ∷ ws) = word_at i ws

-- `words.index(t)`, and `none` if it is not in them.
unfoldable pub index_of : Text → List Text → Option ℕ
index_of t [] = none
index_of t (w ∷ ws) =
    let rest = index_of t ws in
    if w == t then some 0 else elim rest [ none ↦ none | some i ↦ some (suc i) ]

-- `" ".join(words)`
unfoldable pub join : List Text → Text
join [] = []
join (w ∷ []) = w
join (w ∷ v ∷ ws) = w ++ (32 ∷ join (v ∷ ws))

-- The characters that str.split takes for white space.
unfoldable pub is_white : ℕ → Bool
is_white c =
    (leb 9 c && leb c 13)
    || (leb 28 c && leb c 32)
    || any (λ w. nat_beq w c) (133 ∷ 160 ∷ 5760 ∷ 8232 ∷ 8233 ∷ 8239 ∷ 8287 ∷ 12288 ∷ [])
    || (leb 8192 c && leb c 8202)

-- `text.split()`: `word` is the word being read, `none` between words.
unfoldable pub split_from : Option Text → Text → List Text
split_from none [] = []
split_from (some word) [] = word ∷ []
split_from none (c ∷ text) =
    let next = split_from none text in
    let started = split_from (some (c ∷ [])) text in if is_white c then next else started
split_from (some word) (c ∷ text) =
    let next = split_from none text in
    let longer = split_from (some (word ++ (c ∷ []))) text in
    if is_white c then word ∷ next else longer

unfoldable pub split : Text → List Text
split text = split_from none text

-- The 11-bit groups of a number, the highest of `n` first.
unfoldable pub word_indexes : ℕ → ℕ → List ℕ
word_indexes zero combined = []
word_indexes (suc n) combined = combined / 2048 ^ n % 2048 ∷ word_indexes n combined

unfoldable pub words_at : List ℕ → List Text → List Text
words_at [] words = []
words_at (i ∷ is) words = word_at i words ∷ words_at is words

-- `h >> (256 - bits)` of a 32-byte digest
unfoldable pub first_bits : ℕ → Bytes → ℕ
first_bits bits digest = from_bytes 0 digest / 2 ^ (256 - bits)

unfoldable pub is_strength : ℕ → Bool
is_strength strength = any (λ s. nat_beq s strength) (128 ∷ 160 ∷ 192 ∷ 224 ∷ 256 ∷ [])

-- The loop over the tokens, which ends with the combined number or at an unknown word.
unfoldable pub combine : List Text → ℕ → List Text → Option ℕ
combine words combined [] = some combined
combine words combined (t ∷ ts) = elim (index_of t words) [
  | none ↦ none
  | some idx ↦ combine words (combined * 2048 + idx) ts
]

module _ (sha256 : Bytes → Bytes) (words : List Text) where
  -- The words of `generate_mnemonic` for an entropy of `strength` bits. The checksum fills the low
  -- bits that the shift leaves free.
  unfoldable pub mnemonic_words : ℕ → Bytes → List Text
  mnemonic_words strength entropy =
      let checksum_bits = strength / 32 in
      let combined =
        from_bytes 0 entropy * 2 ^ checksum_bits + first_bits checksum_bits (sha256 entropy) in
      words_at (word_indexes ((strength + checksum_bits) / 11) combined) words

  -- Another strength raises.
  unfoldable pub generate_mnemonic : ℕ → Bytes → Option Text
  generate_mnemonic strength entropy =
      if is_strength strength then some (join (mnemonic_words strength entropy)) else none

  -- The checksum test for `num_words` words. An entropy that does not fit its bytes raises, which
  -- gives False.
  unfoldable pub checksum_ok : ℕ → ℕ → Bool
  checksum_ok num_words combined =
      let cs_bits = num_words * 11 - num_words * 11 * 32 / 33 in
      let ent_bits = num_words * 11 - cs_bits in
      let cs = combined % 2 ^ cs_bits in
      let ent = combined / 2 ^ cs_bits in
      let ent_bytes = to_bytes (ent_bits / 8) ent in
      ltb ent (256 ^ (ent_bits / 8)) && nat_beq cs (first_bits cs_bits (sha256 ent_bytes))

  unfoldable pub validate_mnemonic : Text → Bool
  validate_mnemonic mnemonic =
      let tokens = split mnemonic in
      if any (λ n. nat_beq n (length tokens)) (12 ∷ 15 ∷ 18 ∷ 21 ∷ 24 ∷ [])
      then (elim (combine words 0 tokens) [
        | none ↦ false
        | some combined ↦ checksum_ok (length tokens) combined
      ])
      else false
