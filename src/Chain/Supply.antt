-- ===== src/Chain/Supply.antt =====
-- What the transactions of a valid block of node/chain.py does to the coins in circulation.
use arche_blockchain.Prelude.{
  ℕ, suc, ◌≡◌, ap, true, false, none, some, List, [], ◌∷◌, arith, All, ◌==◌, ==_iff, pair_eq,
  text_eq, Bool-cases, Option-cases, inl, inr,
}
use arche_blockchain.Int.{ℤ, pos, ◌+ℤ◌, ◌-ℤ◌, ◌≤ℤ◌, leb_ℤ, max_ℤ, int_laws}
use arche_blockchain.Dict
use arche_blockchain.Dict.{Dict, get-put, get-pop}
use arche_blockchain.Tx.{
  Crypto, TxInput, TxOutput, TxDict, OutPoint, out_point, put_outputs, pop_inputs, UtxoSet,
  output_sum,
}
use arche_blockchain.Tx.Validate.{Rules, validate_transaction}
use arche_blockchain.Tx.Spends.{spent_value, input_total, IsValidSpend, validate_sound}
use arche_blockchain.Tx.Sums.{total_value, NonNeg, get-nonneg, Found}
use arche_blockchain.Chain.Ledger.{Found-of_ok, Sub, Sub-spend_and_create, apply_valid}
use arche_blockchain.Chain.{spend_and_create, apply_tx, apply_txs}
use arche_blockchain.Chain.Validate.{tx_fee, total_fees, validate_txs}

-- An output of `w` that was there before has the value that it had.
unfoldable pub Agrees : Dict OutPoint TxOutput → Dict OutPoint TxOutput → Type 0
Agrees pre w =
    (k : OutPoint) (old new : TxOutput)
    → Dict.get k pre ≡ some old
    → Dict.get k w ≡ some new
    → old ≡ new

-- No output of this txid was there before.
abbrev pub FreshId : Dict OutPoint TxOutput → TxDict → Type 0
FreshId pre tx = (i : ℕ) → Dict.get (tx.txid, i) pre ≡ none

Agrees-pop_inputs :
    (is : List TxInput) (pre w : Dict OutPoint TxOutput)
    → Agrees pre w
    → Agrees pre (pop_inputs is w)
unfolding pop_inputs Agrees
Agrees-pop_inputs [] pre w a = a
Agrees-pop_inputs (i ∷ is) pre w a =
    Agrees-pop_inputs is pre (Dict.pop (out_point i) w)
      λ k old new h e. ground (arith, get-pop k (out_point i) w, a k old new)

Agrees-put_outputs :
    (tx : TxDict) (n : ℕ) (outs : List TxOutput) (pre w : Dict OutPoint TxOutput)
    → FreshId pre tx
    → Agrees pre w
    → Agrees pre (put_outputs tx.txid n outs w)
unfolding put_outputs Agrees
Agrees-put_outputs tx n [] pre w f a = a
Agrees-put_outputs tx n (out ∷ outs) pre w f a =
    Agrees-put_outputs tx (suc n) outs pre (Dict.put (tx.txid, n) out w) f λ k old new h e.
      elim (Bool-cases ((tx.txid, n) == k)) [
        | inl same ↦
            let q : (tx.txid, n) ≡ k = (==_iff (tx.txid, n) k).0 same in
            cc (ap (λ (j : OutPoint). Dict.get j pre) q, h, f n)
        | inr other ↦ ground (arith, get-put k (tx.txid, n) out w, a k old new)
      ]

Agrees-spend_and_create :
    (tx : TxDict) (pre w : Dict OutPoint TxOutput)
    → tx.coinbase ≡ false
    → FreshId pre tx
    → Agrees pre w
    → Agrees pre (spend_and_create tx w)
unfolding spend_and_create
Agrees-spend_and_create tx pre w normal f a = rw normal (
    Agrees-put_outputs tx 0 tx.outputs pre (pop_inputs tx.inputs w) f
      (Agrees-pop_inputs tx.inputs pre w a))

-- What `_total_fees` counts as spent is no more than what is spent.
input_total_le :
    (is : List TxInput) (pre w : Dict OutPoint TxOutput)
    → Agrees pre w
    → NonNeg w
    → All (Found w) is
    → input_total pre is ≤ℤ input_total w is
unfolding Agrees
input_total_le [] pre w a h f = omega arith
input_total_le (i ∷ is) pre w a h ((out, e), f) =
    let rest : input_total pre is ≤ℤ input_total w is = input_total_le is pre w a h f in
    let new : spent_value w i ≡ out.value = ground arith in
    let first : spent_value pre i ≤ℤ out.value = elim (Option-cases (Dict.get (out_point i) pre)) [
      | inl missing ↦ ground (arith, get-nonneg (out_point i) out w h e)
      | inr (old, was) ↦ ground (arith, a (out_point i) old out was e)
    ] in
    rw new (omega (int_laws, first, rest))

max_add_le : (x o t : ℤ) → o ≤ℤ t → x +ℤ o ≤ℤ t → max_ℤ (pos 0) x +ℤ o ≤ℤ t
max_add_le x o t h k = elim (Bool-cases (leb_ℤ x (pos 0))) [
  | inl low ↦ rw low (omega int_laws)
  | inr high ↦ rw high k
]

-- So the fee that `_total_fees` finds is at most the real one.
fee_le :
    (pre w : Dict OutPoint TxOutput) (tx : TxDict)
    → tx.coinbase ≡ false
    → input_total pre tx.inputs ≤ℤ input_total w tx.inputs
    → output_sum tx.outputs ≤ℤ input_total w tx.inputs
    → tx_fee pre tx +ℤ output_sum tx.outputs ≤ℤ input_total w tx.inputs
unfolding tx_fee
fee_le pre w tx normal less covered = rw normal (
    max_add_le (input_total pre tx.inputs -ℤ output_sum tx.outputs) (output_sum tx.outputs)
      (input_total w tx.inputs) covered (omega int_laws))

-- A transaction that is no coinbase.
abbrev pub IsNormal : TxDict → Type 0
IsNormal tx = tx.coinbase ≡ false

-- The transactions of a block, checked against `snap` and applied to `u`, take the fees that
-- `_total_fees` finds out of circulation, at least.
pub apply_txs_total :
    (crypto : Crypto) (rules : Rules) (height : ℕ) (pre : Dict OutPoint TxOutput)
    (txs : List TxDict) (snap u : UtxoSet)
    → All IsNormal txs
    → All (FreshId pre) txs
    → validate_txs crypto rules snap txs ≡ true
    → NonNeg snap.utxos
    → NonNeg u.utxos
    → Agrees pre snap.utxos
    → Sub snap.utxos u.utxos
    → NonNeg (apply_txs height txs u).utxos
      × (total_value (apply_txs height txs u).utxos +ℤ total_fees pre txs ≤ℤ total_value u.utxos)
unfolding apply_txs total_fees validate_txs apply_tx
apply_txs_total crypto rules height pre [] snap u n f v h k a s = (k, omega int_laws)
apply_txs_total crypto rules height pre (tx ∷ txs) snap u (normal, n) (fresh, f) v h k a s =
    let valid : validate_transaction crypto rules snap tx ≡ true = ground arith in
    let snap' : UtxoSet = record snap { utxos = spend_and_create tx snap.utxos } in
    let more : validate_txs crypto rules snap' txs ≡ true = ground arith in
    let w : Dict OutPoint TxOutput = snap.utxos in
    let (h', _, covered) = apply_valid crypto rules snap w tx h (λ k o e. e) normal valid in
    let (k', paid, _) = apply_valid crypto rules snap u.utxos tx k s normal valid in
    let good : IsValidSpend crypto rules snap tx = validate_sound crypto rules snap tx valid in
    let less : input_total pre tx.inputs ≤ℤ input_total w tx.inputs =
      input_total_le tx.inputs pre w a h
        (Found-of_ok crypto rules snap _ tx.inputs good.inputs_ok) in
    let (last, total) =
      apply_txs_total crypto rules height pre txs snap' (apply_tx height tx u) n f more h' k'
        (Agrees-spend_and_create tx pre w normal fresh a)
        (Sub-spend_and_create tx w u.utxos normal s) in
    (last, omega (int_laws, paid, total, fee_le pre w tx normal less covered))
