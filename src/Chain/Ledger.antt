-- ===== src/Chain/Ledger.antt =====
-- What a valid transaction does to the coins in circulation, in the loop of `_commit`
-- (node/chain.py).
use arche_blockchain.Prelude.{
  ℕ, suc, ◌≡◌, refl, true, false, some, List, [], ◌∷◌, arith, Text, any, All, ◌==◌, pair_eq,
  text_eq, Bool-cases, inl, inr,
}
use arche_blockchain.Int.{◌+ℤ◌, ◌≤ℤ◌, int_laws}
use arche_blockchain.Dict
use arche_blockchain.Dict.{Dict, get-put, get-pop}
use arche_blockchain.Encoding.{Bytes}
use arche_blockchain.Tx.{
  Crypto, TxInput, TxOutput, TxDict, OutPoint, out_point, put_outputs, pop_inputs, UtxoSet,
  output_sum,
}
use arche_blockchain.Tx.Validate.{Rules, is_negative, validate_transaction}
use arche_blockchain.Tx.Inputs.{InputOk}
use arche_blockchain.Tx.Spends.{input_total, IsValidSpend, validate_sound}
use arche_blockchain.Tx.Sums.{
  total_value, NonNeg, NonNegOutputs, NonNeg-put_outputs, total-put_outputs, NonNeg-pop_inputs,
  Found, total-pop_inputs,
}
use arche_blockchain.Chain.{spend_and_create}

pub nonneg_of_test : (outs : List TxOutput) → any is_negative outs ≡ false → NonNegOutputs outs
unfolding any
nonneg_of_test [] h = tt
nonneg_of_test (out ∷ outs) h = (ground arith, nonneg_of_test outs (ground arith))

pub Found-of_ok :
    (crypto : Crypto) (rules : Rules) (u : UtxoSet) (sig_hash : Bytes) (is : List TxInput)
    → All (InputOk crypto rules u sig_hash) is
    → All (Found u.utxos) is
Found-of_ok crypto rules u sig_hash [] h = tt
Found-of_ok crypto rules u sig_hash (i ∷ is) ((out, found, old, owned), h) =
    ((out, found), Found-of_ok crypto rules u sig_hash is h)

-- Every output of `w` is one of `c`.
abbrev pub Sub : Dict OutPoint TxOutput → Dict OutPoint TxOutput → Type 0
Sub w c = (k : OutPoint) (out : TxOutput) → Dict.get k w ≡ some out → Dict.get k c ≡ some out

Sub-pop :
    (j : OutPoint) (w c : Dict OutPoint TxOutput) → Sub w c → Sub (Dict.pop j w) (Dict.pop j c)
Sub-pop j w c s k out h = elim (Bool-cases (j == k)) [
  | inl same ↦ ground (arith, get-pop k j w)
  | inr other ↦ ground (arith, get-pop k j w, get-pop k j c, s k out)
]

Sub-put :
    (j : OutPoint) (o : TxOutput) (w c : Dict OutPoint TxOutput)
    → Sub w c
    → Sub (Dict.put j o w) (Dict.put j o c)
Sub-put j o w c s k out h = elim (Bool-cases (j == k)) [
  | inl same ↦ ground (arith, get-put k j o w, get-put k j o c)
  | inr other ↦ ground (arith, get-put k j o w, get-put k j o c, s k out)
]

Sub-pop_inputs :
    (is : List TxInput) (w c : Dict OutPoint TxOutput)
    → Sub w c
    → Sub (pop_inputs is w) (pop_inputs is c)
unfolding pop_inputs
Sub-pop_inputs [] w c s = s
Sub-pop_inputs (i ∷ is) w c s =
    Sub-pop_inputs is (Dict.pop (out_point i) w) (Dict.pop (out_point i) c)
      (Sub-pop (out_point i) w c s)

pub Sub-put_outputs :
    (txid : Text) (n : ℕ) (outs : List TxOutput) (w c : Dict OutPoint TxOutput)
    → Sub w c
    → Sub (put_outputs txid n outs w) (put_outputs txid n outs c)
unfolding put_outputs
Sub-put_outputs txid n [] w c s = s
Sub-put_outputs txid n (out ∷ outs) w c s =
    Sub-put_outputs txid (suc n) outs (Dict.put (txid, n) out w) (Dict.put (txid, n) out c)
      (Sub-put (txid, n) out w c s)

pub Sub-spend_and_create :
    (tx : TxDict) (w c : Dict OutPoint TxOutput)
    → tx.coinbase ≡ false
    → Sub w c
    → Sub (spend_and_create tx w) (spend_and_create tx c)
unfolding spend_and_create
Sub-spend_and_create tx w c normal s = rw normal (
    Sub-put_outputs tx.txid 0 tx.outputs (pop_inputs tx.inputs w) (pop_inputs tx.inputs c)
      (Sub-pop_inputs tx.inputs w c s))

Found-Sub :
    (is : List TxInput) (w c : Dict OutPoint TxOutput)
    → Sub w c
    → All (Found w) is
    → All (Found c) is × (input_total c is ≡ input_total w is)
Found-Sub [] w c s f = (tt, refl)
Found-Sub (i ∷ is) w c s ((out, e), f) =
    let (f', t) = Found-Sub is w c s f in
    let e' : Dict.get (out_point i) c ≡ some out = s (out_point i) out e in
    (((out, e'), f'), ground (arith, e, e', t))

-- A valid transaction that is no coinbase, applied to any outputs that include those that it
-- was checked against and hold no negative one, leaves no negative output, takes the worth of
-- its inputs and adds at most the worth of its outputs, which is no more.
pub apply_valid :
    (crypto : Crypto) (rules : Rules) (u : UtxoSet) (c : Dict OutPoint TxOutput) (tx : TxDict)
    → NonNeg c
    → Sub u.utxos c
    → tx.coinbase ≡ false
    → validate_transaction crypto rules u tx ≡ true
    → NonNeg (spend_and_create tx c)
      × (total_value (spend_and_create tx c) +ℤ input_total u.utxos tx.inputs
          ≤ℤ total_value c +ℤ output_sum tx.outputs)
      × (output_sum tx.outputs ≤ℤ input_total u.utxos tx.inputs)
unfolding spend_and_create
apply_valid crypto rules u c tx h s normal valid =
    let v : IsValidSpend crypto rules u tx = validate_sound crypto rules u tx valid in
    let p : NonNegOutputs tx.outputs = nonneg_of_test tx.outputs v.nonneg in
    let d : Dict OutPoint TxOutput = pop_inputs tx.inputs c in
    let n : NonNeg d = NonNeg-pop_inputs tx.inputs c h in
    let (found, same) =
      Found-Sub tx.inputs u.utxos c s (Found-of_ok crypto rules u _ tx.inputs v.inputs_ok) in
    rw (normal, ← same)
      (
        NonNeg-put_outputs tx.txid 0 tx.outputs d n p,
        omega (
          int_laws,
          total-put_outputs tx.txid 0 tx.outputs d n p,
          total-pop_inputs [] tx.inputs c h v.distinct found,
        ),
        rw same v.no_inflation,
      )
