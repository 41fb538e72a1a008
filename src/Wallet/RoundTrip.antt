-- ===== src/Wallet/RoundTrip.antt =====
-- Every mnemonic that generate_mnemonic (wallet/wallet.py) makes, validate_mnemonic accepts.
use native.Mathlib.Nat.{mod-eq_of_lt, add-mul, div-lt_iff_lt-mul, one-le-pow, mul-le-mul_right}
use arche_blockchain.Prelude.{
  ℕ, ◌+◌, ◌-◌, ◌*◌, ◌/◌, ◌^◌, ◌<◌, ◌≤◌, ◌≡◌, ◌⊎◌, inl, inr, refl, sym, ap, subst, ◌∙◌, true, some,
  List, [], ◌∷◌, length, any, nat_beq, arith, All, Text,
}
use arche_blockchain.Encoding.{Bytes}
use arche_blockchain.Encoding.Hex.{IsBytes}
use arche_blockchain.Target.{from_bytes, to_bytes}
use arche_blockchain.Wallet.Mnemonic.{
  join, word_indexes, words_at, first_bits, mnemonic_words, is_strength, generate_mnemonic,
  checksum_ok, validate_mnemonic,
}
use arche_blockchain.Wallet.Digits.{
  div_shift, mod_shift, from_bytes_below, to_bytes-from_bytes, number_of, number_of-word_indexes,
}
use arche_blockchain.Wallet.Words.{
  IsWord, AllDiffer, split-join, combine-words_at, words_at-IsWord, word_indexes_small,
  length-words_at,
}

-- SHA-256 returns 32 bytes.
pub record IsDigest (sha256 : Bytes → Bytes) : Type 0 where
  pub size : (m : Bytes) → length (sha256 m) ≡ 32
  pub bytes : (m : Bytes) → IsBytes (sha256 m)

-- 2048 different words without white space.
pub record IsWordList (words : List Text) : Type 0 where
  pub full : length words ≡ 2048
  pub differ : AllDiffer words
  pub solid : All IsWord words

module _ (sha256 : Bytes → Bytes) (words : List Text) (entropy : Bytes) where
  -- The checksum test on the number that was made.
  checksum_ok_lem :
      (len cs n : ℕ)
      → IsBytes entropy
      → length entropy ≡ len
      → n * 11 - n * 11 * 32 / 33 ≡ cs
      → (n * 11 - cs) / 8 ≡ len
      → first_bits cs (sha256 entropy) < 2 ^ cs
      → checksum_ok sha256 words n (from_bytes 0 entropy * 2 ^ cs + first_bits cs (sha256 entropy))
        ≡ true
  unfolding checksum_ok
  checksum_ok_lem len cs n bytes size bits whole low =
      let high = div_shift (from_bytes 0 entropy) (2 ^ cs) (first_bits cs (sha256 entropy)) low in
      let rest = mod_shift (from_bytes 0 entropy) (2 ^ cs) (first_bits cs (sha256 entropy)) low in
      let same : to_bytes len (from_bytes 0 entropy) ≡ entropy =
        subst (λ k. to_bytes k (from_bytes 0 entropy) ≡ entropy) size
          (to_bytes-from_bytes 0 entropy bytes) in
      let fits : from_bytes 0 entropy < 256 ^ len =
        subst (λ k. from_bytes 0 entropy < 256 ^ k) size (from_bytes_below entropy bytes) in
      rw (bits, whole, high, rest, same) (ground (arith, fits))

  module _ (list : IsWordList words) (bytes : IsBytes entropy) where
    validates :
        (len cs n : ℕ)
        → length entropy ≡ len
        → n * 11 - n * 11 * 32 / 33 ≡ cs
        → (n * 11 - cs) / 8 ≡ len
        → 256 ^ len * 2 ^ cs ≡ 2048 ^ n
        → any (λ k. nat_beq k n) (12 ∷ 15 ∷ 18 ∷ 21 ∷ 24 ∷ []) ≡ true
        → first_bits cs (sha256 entropy) < 2 ^ cs
        → validate_mnemonic sha256 words (
            join (
              words_at
                (word_indexes n (from_bytes 0 entropy * 2 ^ cs + first_bits cs (sha256 entropy)))
                words))
          ≡ true
    unfolding validate_mnemonic
    validates len cs n size bits whole fit counted low =
        let made = from_bytes 0 entropy * 2 ^ cs + first_bits cs (sha256 entropy) in
        let is = word_indexes n made in
        let small : All (λ i. i < length words) is =
          subst (λ k. All (λ i. i < k) is) (sym list.full) (word_indexes_small n made) in
        let read = split-join (words_at is words) (words_at-IsWord is words list.solid small) in
        let fits : from_bytes 0 entropy < 256 ^ len =
          subst (λ k. from_bytes 0 entropy < 256 ^ k) size (from_bytes_below entropy bytes) in
        let top : (from_bytes 0 entropy + 1) * 2 ^ cs ≤ 256 ^ len * 2 ^ cs =
          mul-le-mul_right (2 ^ cs) (omega (arith, fits)) in
        let below : made < 2048 ^ n =
          omega (arith, low, top, fit, add-mul (from_bytes 0 entropy) 1 (2 ^ cs)) in
        let number : number_of 0 is ≡ made =
          number_of-word_indexes n 0 made ∙ omega (arith, mod-eq_of_lt below) in
        rw
          (
            read,
            length-words_at n made words,
            counted,
            combine-words_at 0 is words list.differ small,
            number,
            read,
            length-words_at n made words,
          )
          (checksum_ok_lem len cs n bytes size bits whole low)

  -- The first bits of a digest are a number of that many bits.
  first_bits_low :
      (cs : ℕ)
      → IsDigest sha256
      → 2 ^ cs * 2 ^ (256 - cs) ≡ 256 ^ 32
      → first_bits cs (sha256 entropy) < 2 ^ cs
  unfolding first_bits
  first_bits_low cs digest whole =
      let small : from_bytes 0 (sha256 entropy) < 256 ^ 32 =
        subst (λ k. from_bytes 0 (sha256 entropy) < 256 ^ k) (digest.size entropy)
          (from_bytes_below (sha256 entropy) (digest.bytes entropy)) in
      (div-lt_iff_lt-mul (one-le-pow (256 - cs) 2 (omega arith))).1
        (subst (λ k. from_bytes 0 (sha256 entropy) < k) (sym whole) small)

  -- One strength, with its numbers of bytes, checksum bits and words.
  at_strength :
      (strength len cs n : ℕ)
      → IsDigest sha256
      → IsWordList words
      → IsBytes entropy
      → length entropy ≡ len
      → strength / 32 ≡ cs
      → (strength + cs) / 11 ≡ n
      → n * 11 - n * 11 * 32 / 33 ≡ cs
      → (n * 11 - cs) / 8 ≡ len
      → 256 ^ len * 2 ^ cs ≡ 2048 ^ n
      → any (λ k. nat_beq k n) (12 ∷ 15 ∷ 18 ∷ 21 ∷ 24 ∷ []) ≡ true
      → 2 ^ cs * 2 ^ (256 - cs) ≡ 256 ^ 32
      → validate_mnemonic sha256 words (join (mnemonic_words sha256 words strength entropy)) ≡ true
  unfolding mnemonic_words
  at_strength strength len cs n digest list bytes size bits words_for back whole fit counted power =
      rw (mnemonic_words, bits, words_for)
        (validates list bytes len cs n size back whole fit counted (first_bits_low cs digest power))

is_strength_cases :
    (s : ℕ) → is_strength s ≡ true → (s ≡ 128) ⊎ ((s ≡ 160) ⊎ ((s ≡ 192) ⊎ ((s ≡ 224) ⊎ (s ≡ 256))))
unfolding is_strength any
is_strength_cases s h = ground (arith, h)

module _ (sha256 : Bytes → Bytes) (words : List Text) (strength : ℕ) (entropy : Bytes) where
  -- For every strength that is allowed and every entropy of that many bits, generate_mnemonic
  -- returns a text, and validate_mnemonic accepts it. The hash returns 32 bytes, and the list has
  -- 2048 different words without white space.
  pub generate_validates :
      IsDigest sha256
      → IsWordList words
      → IsBytes entropy
      → is_strength strength ≡ true
      → length entropy ≡ strength / 8
      → (text : Text) × (generate_mnemonic sha256 words strength entropy ≡ some text)
        × (validate_mnemonic sha256 words text ≡ true)
  unfolding generate_mnemonic any
  generate_validates digest list bytes allowed size = (
    join (mnemonic_words sha256 words strength entropy),
    (rw allowed refl),
    (elim (is_strength_cases strength allowed) [
      | inl p ↦ by_strength 128 16 4 12 p refl refl refl refl refl refl refl refl
      | inr (inl p) ↦ by_strength 160 20 5 15 p refl refl refl refl refl refl refl refl
      | inr (inr (inl p)) ↦ by_strength 192 24 6 18 p refl refl refl refl refl refl refl refl
      | inr (inr (inr (inl p))) ↦ by_strength 224 28 7 21 p refl refl refl refl refl refl refl refl
      | inr (inr (inr (inr p))) ↦ by_strength 256 32 8 24 p refl refl refl refl refl refl refl refl
    ]),
  )
    where
      by_strength :
          (s len cs n : ℕ)
          → strength ≡ s
          → s / 8 ≡ len
          → s / 32 ≡ cs
          → (s + cs) / 11 ≡ n
          → n * 11 - n * 11 * 32 / 33 ≡ cs
          → (n * 11 - cs) / 8 ≡ len
          → 256 ^ len * 2 ^ cs ≡ 2048 ^ n
          → any (λ k. nat_beq k n) (12 ∷ 15 ∷ 18 ∷ 21 ∷ 24 ∷ []) ≡ true
          → 2 ^ cs * 2 ^ (256 - cs) ≡ 256 ^ 32
          → validate_mnemonic sha256 words (join (mnemonic_words sha256 words strength entropy))
            ≡ true
      by_strength s len cs n p eighth bits words_for back whole fit counted power =
          at_strength sha256 words entropy strength len cs n digest list bytes
            (size ∙ ap (λ (k : ℕ). k / 8) p ∙ eighth) (ap (λ (k : ℕ). k / 32) p ∙ bits)
            (ap (λ (k : ℕ). (k + cs) / 11) p ∙ words_for) back whole fit counted power
