-- ===== src/Wallet/Examples.antt =====
-- A mnemonic of 128 bits, for a list of 2048 words of one character and a hash of zeros.
use arche_blockchain.Prelude.{
  ℕ, zero, suc, ◌<◌, ◌≤◌, ◌≡◌, refl, ap, true, false, List, [], ◌∷◌, length, any, arith, All, Text,
  text_beq, text_eq, ◌==◌, some,
}
use arche_blockchain.Encoding.{Bytes}
use arche_blockchain.Encoding.Hex.{IsBytes}
use arche_blockchain.Wallet.Mnemonic.{is_white, is_strength, generate_mnemonic, validate_mnemonic}
use arche_blockchain.Wallet.Words.{IsWord, AllDiffer}
use arche_blockchain.Wallet.RoundTrip.{IsWordList, generate_validates}

-- The words of one character from a code point on.
words_from : ℕ → ℕ → List Text
words_from start zero = []
words_from start (suc n) = (start ∷ []) ∷ words_from (suc start) n

length-words_from : (start n : ℕ) → length (words_from start n) ≡ n
unfolding words_from
length-words_from start zero = refl
length-words_from start (suc n) = ap suc (length-words_from (suc start) n)

earlier_absent : (c start n : ℕ) → c < start → any (λ v. v == c ∷ []) (words_from start n) ≡ false
unfolding words_from any text_beq
earlier_absent c start zero h = refl
earlier_absent c start (suc n) h =
    ground (arith, h, earlier_absent c (suc start) n (omega (arith, h)))

words_from-AllDiffer : (start n : ℕ) → AllDiffer (words_from start n)
unfolding words_from
words_from-AllDiffer start zero = tt
words_from-AllDiffer start (suc n) =
    (earlier_absent start (suc start) n (omega arith), words_from-AllDiffer (suc start) n)

words_from-IsWord : (start n : ℕ) → 12289 ≤ start → All IsWord (words_from start n)
unfolding words_from any is_white
words_from-IsWord start zero h = tt
words_from-IsWord start (suc n) h = (
  record { nonempty = refl; solid = ground (arith, h) },
  words_from-IsWord (suc start) n (omega (arith, h)),
)

abbrev zeros : ℕ → Bytes
zeros zero = []
zeros (suc n) = 0 ∷ zeros n

zeros-IsBytes : (n : ℕ) → IsBytes (zeros n)
zeros-IsBytes zero = tt
zeros-IsBytes (suc n) = (omega arith, zeros-IsBytes n)

abbrev words : List Text
words = words_from 12289 2048

words-IsWordList : IsWordList words
words-IsWordList = record {
  full = length-words_from 12289 2048;
  differ = words_from-AllDiffer 12289 2048;
  solid = words_from-IsWord 12289 2048 (omega arith);
}

generate_validates_example :
    (text : Text) × (generate_mnemonic (λ m. zeros 32) words 128 (zeros 16) ≡ some text)
    × (validate_mnemonic (λ m. zeros 32) words text ≡ true)
unfolding is_strength any
generate_validates_example =
    generate_validates (λ m. zeros 32) words 128 (zeros 16)
      (record { size = λ m. refl; bytes = λ m. zeros-IsBytes 32 }) words-IsWordList
      (zeros-IsBytes 16) refl refl
