-- ===== src/Wallet/Words.antt =====
-- Mnemonics as texts (wallet/wallet.py): what join writes, split reads, and a word of the list is
-- found at its index.
use arche_blockchain.Prelude.{
  ℕ, zero, suc, ◌+◌, ◌*◌, ◌<◌, ◌≡◌, refl, ap, Bool, true, false, none, some, List, [], ◌∷◌, ◌++◌,
  length, leb, arith, All, Text, any, ++_nil, ++_cons, ◌==◌, ==_iff, ==_refl, text_eq,
}
use arche_blockchain.Wallet.Digits.{number_of}
use arche_blockchain.Wallet.Mnemonic.{
  word_at, index_of, join, is_white, split_from, split, words_at, combine, word_indexes,
}

-- A word of a list: it is not empty and has no white space.
pub record IsWord (w : Text) : Type 0 where
  pub nonempty : leb 1 (length w) ≡ true
  pub solid : any is_white w ≡ false

-- The words of a list differ.
abbrev pub AllDiffer : List Text → Type 0
AllDiffer [] = Unit
AllDiffer (w ∷ ws) = (any (λ v. v == w) ws ≡ false) × AllDiffer ws

-- The rest of a word that is being read, up to the white space after it.
read_word :
    (start w rest : Text)
    → any is_white w ≡ false
    → split_from (some start) (w ++ (32 ∷ rest)) ≡ (start ++ w) ∷ split_from none rest
unfolding split_from any is_white
read_word start [] rest solid = rw (++_nil start) refl
read_word start (c ∷ w) rest solid =
    let here : is_white c ≡ false = ground (arith, solid) in
    rw (here, ++_cons start c w) (read_word (start ++ (c ∷ [])) w rest (ground (arith, solid)))

read_last :
    (start w : Text) → any is_white w ≡ false → split_from (some start) w ≡ (start ++ w) ∷ []
unfolding split_from any
read_last start [] solid = rw (++_nil start) refl
read_last start (c ∷ w) solid =
    let here : is_white c ≡ false = ground (arith, solid) in
    rw (here, ++_cons start c w) (read_last (start ++ (c ∷ [])) w (ground (arith, solid)))

pub split-join : (ws : List Text) → All IsWord ws → split (join ws) ≡ ws
unfolding split split_from join any
split-join [] h = refl
split-join ([] ∷ ws) (word, h) = ground (arith, word.nonempty)
split-join ((c ∷ w) ∷ []) (word, h) =
    let here : is_white c ≡ false = ground (arith, word.solid) in
    rw here (read_last (c ∷ []) w (ground (arith, word.solid)))
split-join ((c ∷ w) ∷ v ∷ ws) (word, h) =
    let here : is_white c ≡ false = ground (arith, word.solid) in
    rw
      (
        here,
        read_word (c ∷ []) w (join (v ∷ ws)) (ground (arith, word.solid)),
        split-join (v ∷ ws) h,
      )
      refl

any-word_at :
    (test : Text → Bool) (i : ℕ) (ws : List Text)
    → any test ws ≡ false
    → i < length ws
    → test (word_at i ws) ≡ false
unfolding any word_at
any-word_at test i [] none_passes h = ground (arith, h)
any-word_at test zero (w ∷ ws) none_passes h = ground (arith, none_passes)
any-word_at test (suc i) (w ∷ ws) none_passes h =
    any-word_at test i ws (ground (arith, none_passes)) (ground (arith, h))

index_of-word_at :
    (i : ℕ) (ws : List Text) → AllDiffer ws → i < length ws → index_of (word_at i ws) ws ≡ some i
unfolding index_of word_at
index_of-word_at i [] differ h = ground (arith, h)
index_of-word_at zero (w ∷ ws) differ h = rw (==_refl w) refl
index_of-word_at (suc i) (w ∷ ws) (new, differ) h =
    let other = any-word_at (λ v. v == w) i ws new (ground (arith, h)) in
    let apart : (w == word_at i ws) ≡ false =
      ground (arith, other, ==_iff w (word_at i ws), ==_iff (word_at i ws) w) in
    rw (apart, index_of-word_at i ws differ (ground (arith, h))) refl

pub combine-words_at :
    (acc : ℕ) (is : List ℕ) (ws : List Text)
    → AllDiffer ws
    → All (λ i. i < length ws) is
    → combine ws acc (words_at is ws) ≡ some (number_of acc is)
unfolding combine words_at number_of
combine-words_at acc [] ws differ h = refl
combine-words_at acc (i ∷ is) ws differ (small, h) =
    rw (combine, index_of-word_at i ws differ small)
      (combine-words_at (acc * 2048 + i) is ws differ h)

word_at-IsWord : (i : ℕ) (ws : List Text) → All IsWord ws → i < length ws → IsWord (word_at i ws)
unfolding word_at
word_at-IsWord i [] h small = absurd (omega (arith, small))
word_at-IsWord zero (w ∷ ws) (word, h) small = word
word_at-IsWord (suc i) (w ∷ ws) (word, h) small = word_at-IsWord i ws h (ground (arith, small))

pub words_at-IsWord :
    (is : List ℕ) (ws : List Text)
    → All IsWord ws
    → All (λ i. i < length ws) is
    → All IsWord (words_at is ws)
unfolding words_at
words_at-IsWord [] ws words h = tt
words_at-IsWord (i ∷ is) ws words (small, h) =
    (word_at-IsWord i ws words small, words_at-IsWord is ws words h)

pub word_indexes_small : (n c : ℕ) → All (λ i. i < 2048) (word_indexes n c)
unfolding word_indexes
word_indexes_small zero c = tt
word_indexes_small (suc n) c = ((omega arith), word_indexes_small n c)

pub length-words_at : (n c : ℕ) (ws : List Text) → length (words_at (word_indexes n c) ws) ≡ n
unfolding words_at word_indexes
length-words_at zero c ws = refl
length-words_at (suc n) c ws = ap suc (length-words_at n c ws)
