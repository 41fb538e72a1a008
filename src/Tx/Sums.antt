-- ===== src/Tx/Sums.antt =====
-- The sum of all unspent outputs, and what the updates of node/tx.py's `UTXOSet` do to it.
use arche_blockchain.Prelude.{
  ℕ, suc, ◌≡◌, refl, ◌∙◌, ap₂, true, false, some, List, [], ◌∷◌, arith, Text, any, All, ◌==◌,
  ==_iff, ==_refl, pair_eq, Bool-cases, inl, inr,
}
use arche_blockchain.Int.{ℤ, pos, ◌+ℤ◌, ◌≤ℤ◌, int_laws}
use arche_blockchain.Dict
use arche_blockchain.Dict.{Dict, get-pop}
use arche_blockchain.Tx.Validate.{is_seen}
use arche_blockchain.Tx.Spends.{Distinct, input_total, spent_value}
use arche_blockchain.Tx.{
  TxInput, TxOutput, OutPoint, out_point, put_outputs, pop_inputs, output_sum,
}

-- The coins in circulation.
abbrev pub total_value : Dict OutPoint TxOutput → ℤ
total_value [] = pos 0
total_value ((k, out) ∷ d) = out.value +ℤ total_value d

abbrev pub NonNeg : Dict OutPoint TxOutput → Type 0
NonNeg [] = Unit
NonNeg ((k, out) ∷ d) = (pos 0 ≤ℤ out.value) × NonNeg d

pub total-nonneg : (d : Dict OutPoint TxOutput) → NonNeg d → pos 0 ≤ℤ total_value d
total-nonneg [] h = omega arith
total-nonneg ((k, out) ∷ d) h = omega (int_laws, total-nonneg d h.1)

pub get-nonneg :
    (k : OutPoint) (out : TxOutput) (d : Dict OutPoint TxOutput)
    → NonNeg d
    → Dict.get k d ≡ some out
    → pos 0 ≤ℤ out.value
unfolding Dict.get
get-nonneg k out [] h e = ground arith
get-nonneg k out ((j, o) ∷ d) h e = ground (arith, get-nonneg k out d h.1)

pub NonNeg-pop : (k : OutPoint) (d : Dict OutPoint TxOutput) → NonNeg d → NonNeg (Dict.pop k d)
unfolding Dict.pop
NonNeg-pop k [] h = tt
NonNeg-pop k ((j, o) ∷ d) h = ground (arith, NonNeg-pop k d h.1)

pub NonNeg-put :
    (k : OutPoint) (out : TxOutput) (d : Dict OutPoint TxOutput)
    → NonNeg d
    → pos 0 ≤ℤ out.value
    → NonNeg (Dict.put k out d)
unfolding Dict.put
NonNeg-put k out [] h p = (p, tt)
NonNeg-put k out ((j, o) ∷ d) h p = ground (arith, NonNeg-put k out d h.1 p)

total-pop-le :
    (k : OutPoint) (d : Dict OutPoint TxOutput)
    → NonNeg d
    → total_value (Dict.pop k d) ≤ℤ total_value d
unfolding Dict.pop
total-pop-le k [] h = omega arith
total-pop-le k ((j, o) ∷ d) h = elim (Bool-cases (j == k)) [
  | inl same ↦ rw same (omega (int_laws, total-pop-le k d h.1))
  | inr other ↦ rw other (omega (int_laws, total-pop-le k d h.1))
]

-- A removed output takes its value with it.
pub total-pop :
    (k : OutPoint) (out : TxOutput) (d : Dict OutPoint TxOutput)
    → NonNeg d
    → Dict.get k d ≡ some out
    → total_value (Dict.pop k d) +ℤ out.value ≤ℤ total_value d
unfolding Dict.pop Dict.get
total-pop k out [] h e = ground arith
total-pop k out ((j, o) ∷ d) h e = elim (Bool-cases (j == k)) [
  | inl same ↦
      let v : out.value ≡ o.value = ground arith in
      rw (same, v) (omega (int_laws, total-pop-le k d h.1))
  | inr other ↦ rw other (omega (int_laws, total-pop k out d h.1 (ground arith)))
]

-- A written output adds its value, at most: it may replace an older one.
pub total-put :
    (k : OutPoint) (out : TxOutput) (d : Dict OutPoint TxOutput)
    → NonNeg d
    → total_value (Dict.put k out d) ≤ℤ total_value d +ℤ out.value
unfolding Dict.put
total-put k out [] h = omega int_laws
total-put k out ((j, o) ∷ d) h = elim (Bool-cases (j == k)) [
  | inl same ↦ rw same (omega int_laws)
  | inr other ↦ rw other (omega (int_laws, total-put k out d h.1))
]

abbrev pub NonNegOutputs : List TxOutput → Type 0
NonNegOutputs = All (λ out. pos 0 ≤ℤ out.value)

module _ (txid : Text) where
  pub NonNeg-put_outputs :
      (i : ℕ) (outs : List TxOutput) (d : Dict OutPoint TxOutput)
      → NonNeg d
      → NonNegOutputs outs
      → NonNeg (put_outputs txid i outs d)
  unfolding put_outputs
  NonNeg-put_outputs i [] d h p = h
  NonNeg-put_outputs i (out ∷ outs) d h p =
      NonNeg-put_outputs (suc i) outs (Dict.put (txid, i) out d) (NonNeg-put (txid, i) out d h p.0)
        p.1

  -- A transaction adds the sum of its outputs, at most.
  pub total-put_outputs :
      (i : ℕ) (outs : List TxOutput) (d : Dict OutPoint TxOutput)
      → NonNeg d
      → NonNegOutputs outs
      → total_value (put_outputs txid i outs d) ≤ℤ total_value d +ℤ output_sum outs
  unfolding put_outputs output_sum
  total-put_outputs i [] d h p = omega int_laws
  total-put_outputs i (out ∷ outs) d h p =
      let d' : Dict OutPoint TxOutput = Dict.put (txid, i) out d in
      omega (
        int_laws,
        total-put (txid, i) out d h,
        total-put_outputs (suc i) outs d' (NonNeg-put (txid, i) out d h p.0) p.1,
      )

pub NonNeg-pop_inputs :
    (is : List TxInput) (d : Dict OutPoint TxOutput) → NonNeg d → NonNeg (pop_inputs is d)
unfolding pop_inputs
NonNeg-pop_inputs [] d h = h
NonNeg-pop_inputs (i ∷ is) d h =
    NonNeg-pop_inputs is (Dict.pop (out_point i) d) (NonNeg-pop (out_point i) d h)

-- An input names an unspent output.
abbrev pub Found : Dict OutPoint TxOutput → TxInput → Type 0
Found d i = (out : TxOutput) × (Dict.get (out_point i) d ≡ some out)

-- Inputs other than the one that names `k`.
abbrev Away : OutPoint → List TxInput → Type 0
Away k = All (λ i. (k == out_point i) ≡ false)

Distinct-Away :
    (k : OutPoint) (seen : List OutPoint) (is : List TxInput)
    → is_seen k seen ≡ true
    → Distinct seen is
    → Away k is
Distinct-Away k seen [] h d = tt
Distinct-Away k seen (i ∷ is) h d = (
  elim (Bool-cases (k == out_point i)) [
    | inl same ↦ cc (rw ((==_iff k (out_point i)).0 same) at h, d.0)
    | inr other ↦ other
  ],
  Distinct-Away k (out_point i ∷ seen) is (unfold any in ground arith) d.1,
)

get-pop_away :
    (k j : OutPoint) (d : Dict OutPoint TxOutput)
    → (k == j) ≡ false
    → Dict.get j (Dict.pop k d) ≡ Dict.get j d
get-pop_away k j d h = get-pop j k d ∙ rw h

spent_value-pop :
    (k : OutPoint) (i : TxInput) (d : Dict OutPoint TxOutput)
    → (k == out_point i) ≡ false
    → spent_value (Dict.pop k d) i ≡ spent_value d i
spent_value-pop k i d h = ground (arith, get-pop_away k (out_point i) d h)

input_total-pop :
    (k : OutPoint) (is : List TxInput) (d : Dict OutPoint TxOutput)
    → Away k is
    → input_total (Dict.pop k d) is ≡ input_total d is
input_total-pop k [] d h = refl
input_total-pop k (i ∷ is) d h = ap₂ ◌+ℤ◌ (spent_value-pop k i d h.0) (input_total-pop k is d h.1)

Found-pop :
    (k : OutPoint) (is : List TxInput) (d : Dict OutPoint TxOutput)
    → Away k is
    → All (Found d) is
    → All (Found (Dict.pop k d)) is
Found-pop k [] d h f = tt
Found-pop k (i ∷ is) d h f =
    ((f.0.0, get-pop_away k (out_point i) d h.0 ∙ f.0.1), Found-pop k is d h.1 f.1)

-- Spending distinct unspent outputs takes the sum of their values away.
pub total-pop_inputs :
    (seen : List OutPoint) (is : List TxInput) (d : Dict OutPoint TxOutput)
    → NonNeg d
    → Distinct seen is
    → All (Found d) is
    → total_value (pop_inputs is d) +ℤ input_total d is ≤ℤ total_value d
unfolding pop_inputs
total-pop_inputs seen [] d h x f = omega int_laws
total-pop_inputs seen (i ∷ is) d h (new, x) ((out, e), f) =
    let k : OutPoint = out_point i in
    let away : Away k is = Distinct-Away k (k ∷ seen) is (unfold any in rw (==_refl k)) x in
    let d' : Dict OutPoint TxOutput = Dict.pop k d in
    let v : spent_value d i ≡ out.value = ground arith in
    rw (v, ← input_total-pop k is d away)
      (omega (
        int_laws,
        total-pop k out d h e,
        total-pop_inputs (k ∷ seen) is d' (NonNeg-pop k d h) x (Found-pop k is d away f),
      ))
