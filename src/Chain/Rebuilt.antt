-- ===== src/Chain/Rebuilt.antt =====
-- Reading back the outputs and the coinbase heights of a store (_rebuild_utxo of node/chain.py) gives
-- what was written.
use mathlib.Core.List.{append_assoc, append-nil}
use arche_blockchain.Prelude.{
  ℕ, zero, suc, ◌+◌, ◌%◌, ◌/◌, ◌<◌, ◌≡◌, ◌∙◌, refl, sym, ap, subst, Bool, true, false, Option, some,
  [], ◌∷◌, ◌++◌, Text, codes, any, all, All, ltb, nat_beq, HasEq, ◌==◌, ==_iff, arith, Bool-cases,
  inl, inr, text_eq, pair_eq,
}
use arche_blockchain.Dict.{Dict, put, contains}
use arche_blockchain.Dict.Keys.{IsDict}
use arche_blockchain.Encoding.{str, decimal}
use arche_blockchain.Encoding.Decimal.{read_digits, read-decimal}
use arche_blockchain.Tx.{TxOutput, OutPoint, UtxoSet}
use arche_blockchain.Tx.Validate.{is_empty}
use arche_blockchain.Chain.{Store}
use arche_blockchain.Chain.Rebuild.{
  break_colon, is_digit, parse_int, utxo_key, parts, split_key, load_utxos, load_heights,
  rebuild_utxo,
}

abbrev pub has_colon : Text → Bool
has_colon = any (λ c. nat_beq c b':')

break_colon_at :
    (t rest : Text) → has_colon t ≡ false → break_colon (t ++ (b':' ∷ rest)) ≡ (t, some rest)
unfolding break_colon any
break_colon_at [] rest plain = refl
break_colon_at (c ∷ t) rest plain = elim (Bool-cases (nat_beq c b':')) [
  | inl colon ↦ ground (arith, plain, colon)
  | inr other ↦
      let same = break_colon_at t rest (ground (arith, plain, other)) in
      rw other (ap (λ (r : Text × Option Text). (c ∷ r.0, r.1)) same)
]

all_digits-append :
    (s t : Text) → all is_digit s ≡ true → all is_digit t ≡ true → all is_digit (s ++ t) ≡ true
unfolding all
all_digits-append [] t h k = k
all_digits-append (c ∷ s) t h k =
    let rest = all_digits-append s t (ground (arith, h)) k in ground (arith, h, rest)

digit : (n : ℕ) → n < 10 → is_digit (b'0' + n) ≡ true
unfolding is_digit
digit n h = ground (arith, h)

decimal-digits : (fuel n : ℕ) → all is_digit (decimal fuel n) ≡ true
unfolding decimal all
decimal-digits zero n = refl
decimal-digits (suc fuel) n = elim (Bool-cases (ltb n 10)) [
  | inl small ↦ rw small (let d = digit n (ground (arith, small)) in ground (arith, d))
  | inr large ↦ rw large (
      all_digits-append (decimal fuel (n / 10)) ((b'0' + n % 10) ∷ [])
        (decimal-digits fuel (n / 10)) (let d = digit (n % 10) (omega arith) in ground (arith, d)))
]

append-not_empty : (s : Text) (c : ℕ) → is_empty (s ++ (c ∷ [])) ≡ false
append-not_empty [] c = refl
append-not_empty (d ∷ s) c = refl

str-not_empty : (n : ℕ) → is_empty (str n) ≡ false
unfolding str decimal
str-not_empty n = elim (Bool-cases (ltb n 10)) [
  | inl small ↦ rw small refl
  | inr large ↦ rw large (append-not_empty (decimal n (n / 10)) (b'0' + n % 10))
]

read-str : (n : ℕ) → read_digits 0 (str n) ≡ n
unfolding str read_digits
read-str n =
    ap (read_digits 0) (sym (append-nil (decimal (suc n) n)))
    ∙ read-decimal (suc n) n [] (omega arith)

parse_int-str : (n : ℕ) → parse_int (str n) ≡ some n
unfolding parse_int
parse_int-str n =
    let digits : all is_digit (str n) ≡ true = unfold str in decimal-digits (suc n) n in
    rw (str-not_empty n, digits) (ap some (read-str n))

split_key-utxo_key :
    (txid : Text) (i : ℕ)
    → has_colon txid ≡ false
    → split_key (utxo_key (txid, i)) ≡ parts (txid, i)
unfolding split_key utxo_key any
split_key-utxo_key txid i plain =
    let tail : Text = txid ++ (b':' ∷ str i) in
    let first : break_colon (utxo_key (txid, i)) ≡ (codes "utxo", some tail) =
      break_colon_at (codes "utxo") tail refl in
    rw (first, split_key)
      (rw (break_colon_at txid (str i) plain) (
        rw (parse_int-str i)
          (ap (λ (r : Text × Option Text). parts (r.0, i)) (break_colon_at txid (str i) plain))))

module _ {ℓ κ} {K : Type ℓ} {V : Type κ} ⦃e : HasEq K⦄ where
  contains-mid :
      (j k : K) (v : V) (xs ys : Dict K V)
      → contains j (xs ++ ((k, v) ∷ ys)) ≡ false
      → (k == j) ≡ false
  unfolding contains
  contains-mid j k v [] ys new = ground (arith, new)
  contains-mid j k v ((i, w) ∷ xs) ys new = contains-mid j k v xs ys (ground (arith, new))

  -- A key behind others that is not one of them goes to the end.
  put_next :
      (k : K) (v : V) (xs ys : Dict K V)
      → IsDict (xs ++ ((k, v) ∷ ys))
      → put k v xs ≡ xs ++ ((k, v) ∷ [])
  unfolding put
  put_next k v [] ys h = refl
  put_next k v ((j, w) ∷ xs) ys (new, h) =
      let other : (j == k) ≡ false =
        (let apart = contains-mid j k v xs ys new in
          ground (arith, apart, ==_iff j k, ==_iff k j)) in
      rw other (ap (λ (d : Dict K V). (j, w) ∷ d) (put_next k v xs ys h))

-- The output is read back as it was written, and its txid can be read off its key.
abbrev pub IsReadable : (TxOutput → Option TxOutput) → OutPoint × TxOutput → Type 0
IsReadable reread p = (has_colon p.0.0 ≡ false) × (reread p.1 ≡ some p.1)

load_utxos-All :
    (reread : TxOutput → Option TxOutput) (d before : Dict OutPoint TxOutput)
    → IsDict (before ++ d)
    → All (IsReadable reread) d
    → load_utxos reread d before ≡ some (before ++ d)
unfolding load_utxos
load_utxos-All reread [] before h a = ap some (sym (append-nil before))
load_utxos-All reread (((txid, i), out) ∷ d) before h ((plain, same), a) =
    let next = put_next (txid, i) out before d h in
    let split = append_assoc before (((txid, i), out) ∷ []) d in
    rw (split_key-utxo_key txid i plain, load_utxos)
      (rw same (
        rw next (
          load_utxos-All reread d (before ++ (((txid, i), out) ∷ [])) (subst IsDict (sym split) h) a
          ∙ ap some split)))

load_heights-IsDict :
    (d before : Dict Text ℕ) → IsDict (before ++ d) → load_heights d before ≡ some (before ++ d)
unfolding load_heights
load_heights-IsDict [] before h = ap some (sym (append-nil before))
load_heights-IsDict ((txid, n) ∷ d) before h =
    let next = put_next txid n before d h in
    let split = append_assoc before ((txid, n) ∷ []) d in
    rw (parse_int-str n) (
      rw next (
        load_heights-IsDict d (before ++ ((txid, n) ∷ [])) (subst IsDict (sym split) h)
        ∙ ap some split))

-- Python's dicts have no key twice, and the outputs can be read back.
pub record IsReloadable (reread : TxOutput → Option TxOutput) (u : UtxoSet) : Type 0 where
  pub one_output : IsDict u.utxos
  pub one_height : IsDict u.coinbase_heights
  pub readable : All (IsReadable reread) u.utxos

pub rebuilt :
    (reread : TxOutput → Option TxOutput) (s : Store) (u : UtxoSet)
    → IsReloadable reread u
    → s.utxo ≡ u.utxos
    → s.cb_height ≡ u.coinbase_heights
    → rebuild_utxo reread s ≡ some u
unfolding rebuild_utxo
rebuilt reread s u h outs heights =
    rw (outs, heights)
      (rw (load_utxos-All reread u.utxos [] h.one_output h.readable)
        (rw (load_heights-IsDict u.coinbase_heights [] h.one_height) refl))
