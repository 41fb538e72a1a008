-- ===== src/Node/Mining.antt =====
-- What `mine` of node/node.py takes from the pool, and what its coinbase adds.
use arche_blockchain.Prelude.{
  ℕ, ◌≡◌, refl, ap, Option, none, some, List, [], ◌∷◌, Text, All, ◌==◌, ==_refl, Bool-cases, inl,
  inr, text_eq, pair_eq,
}
use arche_blockchain.Int.{ℤ, int_laws}
use arche_blockchain.Dict
use arche_blockchain.Dict.{Dict}
use arche_blockchain.Tx.{Crypto, TxInput, TxOutput, TxDict, OutPoint, UtxoSet, put_outputs}
use arche_blockchain.Tx.Validate.{effective_maturity, effective_heights, validate_transaction}
use arche_blockchain.Tx.Inputs.{OldEnough, IsMature}
use arche_blockchain.Tx.Maturity.{validate-IsMature}
use arche_blockchain.Chain.{spend_and_create}
use arche_blockchain.Node.{mining_rules, spend_taken, choose, coinbase_txid, make_coinbase}

-- The input spends no output of a coinbase whose height is tracked.
abbrev pub Untracked : UtxoSet → TxInput → Type 0
Untracked u i = Dict.get i.txid u.coinbase_heights ≡ none

never_old :
    (fee_floor : ℤ) (mined : Option ℕ) → OldEnough (mining_rules fee_floor) mined → mined ≡ none
unfolding effective_maturity
never_old fee_floor none h = refl
never_old fee_floor (some n) h = absurd (omega (int_laws, h))

module _ (fee_floor : ℤ) (u : UtxoSet) where
  Untracked-inputs :
      (is : List TxInput) → All (IsMature (mining_rules fee_floor) u) is → All (Untracked u) is
  unfolding effective_heights
  Untracked-inputs [] h = tt
  Untracked-inputs (i ∷ is) h =
      (never_old fee_floor (Dict.get i.txid u.coinbase_heights) h.0, Untracked-inputs is h.1)

-- Whatever is in the pool, `mine` takes no transaction that spends an output of a coinbase
-- whose height is tracked: it validates at height 0, where none has matured.
pub choose-Untracked :
    (crypto : Crypto) (fee_floor : ℤ) (u : UtxoSet) (pool : List TxDict)
    → All (λ tx. All (Untracked u) tx.inputs) (choose crypto fee_floor u pool).0
unfolding choose
choose-Untracked crypto fee_floor u [] = tt
choose-Untracked crypto fee_floor u (tx ∷ txs) =
    let u' : UtxoSet = record u { utxos = spend_taken tx u.utxos } in
    elim (Bool-cases (validate_transaction crypto (mining_rules fee_floor) u tx)) [
      | inl taken ↦ rw taken (
        Untracked-inputs fee_floor u tx.inputs
            (validate-IsMature crypto (mining_rules fee_floor) u tx taken),
        choose-Untracked crypto fee_floor u' txs,
      )
      | inr skipped ↦ rw skipped (choose-Untracked crypto fee_floor u txs)
    ]

put_again :
    (k : OutPoint) (out : TxOutput) (d : Dict OutPoint TxOutput)
    → Dict.put k out (Dict.put k out d) ≡ Dict.put k out d
unfolding Dict.put
put_again k out [] = rw (==_refl k)
put_again k out ((j, o) ∷ d) = elim (Bool-cases (j == k)) [
  | inl same ↦ rw (same, same)
  | inr other ↦
      rw (other, other) (ap (λ (e : Dict OutPoint TxOutput). (j, o) ∷ e) (put_again k out d))
]

same_reward :
    (crypto : Crypto) (o o' : TxOutput) (d : Dict OutPoint TxOutput)
    → o' ≡ o
    → Dict.put
        (coinbase_txid crypto (o' ∷ []), 0)
        o'
        (Dict.put (coinbase_txid crypto (o ∷ []), 0) o d)
      ≡ Dict.put (coinbase_txid crypto (o ∷ []), 0) o d
same_reward crypto o o' d e = rw e (put_again (coinbase_txid crypto (o ∷ []), 0) o d)

-- A second coinbase with the same reward for the same address has the same txid, so committing
-- it leaves the unspent outputs as they were after the first one, at any two heights.
pub second_coinbase_lost :
    (crypto : Crypto) (miner : Text) (subsidy : Option ℤ) (h h' : ℕ) (fees fees' : ℤ)
    (d : Dict OutPoint TxOutput)
    → (make_coinbase crypto miner subsidy h fees).outputs
      ≡ (make_coinbase crypto miner subsidy h' fees').outputs
    → spend_and_create
        (make_coinbase crypto miner subsidy h' fees')
        (spend_and_create (make_coinbase crypto miner subsidy h fees) d)
      ≡ spend_and_create (make_coinbase crypto miner subsidy h fees) d
unfolding make_coinbase spend_and_create put_outputs
second_coinbase_lost crypto miner subsidy h h' fees fees' d e = same_reward crypto _ _ d (cc e)
