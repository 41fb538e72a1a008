-- ===== src/Chain/Cap.antt =====
-- The cap on the coins in circulation that a valid block of node/chain.py keeps to.
use arche_blockchain.Prelude.{
  ℕ, suc, ◌≡◌, ap, true, false, Option, some, List, [], ◌∷◌, map, arith, ltb, length, any, All,
  ◌==◌, ==_iff, pair_eq, text_eq, Bool-cases, Option-cases, inl, inr,
}
use arche_blockchain.Int.{ℤ, pos, ◌+ℤ◌, ◌≤ℤ◌, ltb_ℤ, int_laws}
use arche_blockchain.Dict
use arche_blockchain.Dict.{Dict, get-put, get-pop}
use arche_blockchain.Params.{block_subsidy}
use arche_blockchain.Tx.{Crypto, TxOutput, TxDict, OutPoint, put_outputs, UtxoSet, output_sum}
use arche_blockchain.Tx.Validate.{Rules, is_negative}
use arche_blockchain.Tx.Sums.{
  total_value, NonNeg, NonNegOutputs, NonNeg-put_outputs, total-put_outputs,
}
use arche_blockchain.Chain.Supply.{Agrees, FreshId, IsNormal, apply_txs_total}
use arche_blockchain.Block.{Block, compute_hash, >>=-eq-some, meets_target, merkle_root, tx_id}
use arche_blockchain.Chain.Ledger.{nonneg_of_test, Sub}
use arche_blockchain.Chain.{
  Blockchain, commit, commit_hashed, spend_and_create, apply_tx, apply_txs,
}
use arche_blockchain.Chain.Validate.{
  tx_fee, total_fees, validate_txs, coinbases, coinbase_ok, starts_with_coinbase, Env, block_rules,
  contents_ok, validate_block, links, expected_bits,
}
use arche_blockchain.Chain.Reorg.{extend}

IsNormal-of_none : (txs : List TxDict) → coinbases txs ≡ [] → All IsNormal txs
unfolding coinbases
IsNormal-of_none [] h = tt
IsNormal-of_none (tx ∷ txs) h = (ground arith, IsNormal-of_none txs (ground arith))

Sub-put_fresh :
    (tx : TxDict) (n : ℕ) (outs : List TxOutput) (w c : Dict OutPoint TxOutput)
    → FreshId w tx
    → Sub w c
    → Sub w (put_outputs tx.txid n outs c)
unfolding put_outputs
Sub-put_fresh tx n [] w c f s = s
Sub-put_fresh tx n (out ∷ outs) w c f s =
    Sub-put_fresh tx (suc n) outs w (Dict.put (tx.txid, n) out c) f λ k o h.
      elim (Bool-cases ((tx.txid, n) == k)) [
        | inl same ↦
            let q : (tx.txid, n) ≡ k = (==_iff (tx.txid, n) k).0 same in
            cc (ap (λ (j : OutPoint). Dict.get j w) q, h, f n)
        | inr other ↦ ground (arith, get-put k (tx.txid, n) out c, s k o h)
      ]

-- What the coinbase of a valid block may pay out.
coinbase_bound :
    (pre : Dict OutPoint TxOutput) (index : ℕ) (cb : TxDict) (txs : List TxDict)
    → cb.coinbase ≡ true
    → coinbase_ok pre index (cb ∷ txs) ≡ true
    → NonNegOutputs cb.outputs
      × (output_sum cb.outputs ≤ℤ pos (block_subsidy index) +ℤ total_fees pre txs)
unfolding coinbase_ok coinbases total_fees tx_fee
coinbase_bound pre index cb txs is_cb h =
    let limit : ℤ = pos (block_subsidy index) +ℤ (pos 0 +ℤ total_fees pre txs) in
    let nonneg : any is_negative cb.outputs ≡ false = ground arith in
    let cap : ltb_ℤ limit (output_sum cb.outputs) ≡ false = ground arith in
    let le : output_sum cb.outputs ≤ℤ limit = ground arith in
    (nonneg_of_test cb.outputs nonneg, omega (int_laws, le))

coinbases_rest :
    (cb : TxDict) (txs : List TxDict)
    → cb.coinbase ≡ true
    → ltb 1 (length (coinbases (cb ∷ txs))) ≡ false
    → coinbases txs ≡ []
unfolding coinbases
coinbases_rest cb txs is_cb h = ground arith

-- A list of transactions that passes the checks 7, 8, 10 and 13, applied to the outputs.
block_total :
    (crypto : Crypto) (rules : Rules) (index : ℕ) (u : UtxoSet) (txs : List TxDict)
    → starts_with_coinbase txs ≡ true
    → ltb 1 (length (coinbases txs)) ≡ false
    → coinbase_ok u.utxos index txs ≡ true
    → validate_txs crypto rules u txs ≡ true
    → NonNeg u.utxos
    → All (FreshId u.utxos) txs
    → NonNeg (apply_txs index txs u).utxos
      × (total_value (apply_txs index txs u).utxos
          ≤ℤ total_value u.utxos +ℤ pos (block_subsidy index))
unfolding starts_with_coinbase validate_txs apply_txs apply_tx Agrees
block_total crypto rules index u [] starts one cb valid h f = cc
block_total crypto rules index u (cb ∷ txs) starts one paid valid h (fresh, f) =
    let (p, limit) = coinbase_bound u.utxos index cb txs starts paid in
    let d : Dict OutPoint TxOutput = put_outputs cb.txid 0 cb.outputs u.utxos in
    let same : (apply_tx index cb u).utxos ≡ d =
      unfold spend_and_create in ap (λ e. put_outputs cb.txid 0 cb.outputs e) (rw starts) in
    let k : NonNeg d = NonNeg-put_outputs cb.txid 0 cb.outputs u.utxos h p in
    let s : Sub u.utxos d = Sub-put_fresh cb 0 cb.outputs u.utxos u.utxos fresh (λ j o e. e) in
    let rest : validate_txs crypto rules u txs ≡ true = ground arith in
    let (last, total) =
      apply_txs_total crypto rules index u.utxos txs u (apply_tx index cb u)
        (IsNormal-of_none txs (coinbases_rest cb txs starts one)) f rest h (rw same k)
        (λ j old new a b. ground arith) (rw same s) in
    let bound : total_value (apply_tx index cb u).utxos
        ≤ℤ total_value u.utxos +ℤ output_sum cb.outputs =
      rw same (total-put_outputs cb.txid 0 cb.outputs u.utxos h p) in
    (last, omega (int_laws, limit, total, bound))

-- A block whose contents pass validation adds at most its subsidy to the coins in circulation, and
-- leaves no negative output, provided that no output is negative before and that the txids of the
-- block name no output yet.
pub contents_supply :
    (env : Env) (c : Blockchain) (u : UtxoSet) (b : Block)
    → contents_ok env c u b ≡ true
    → NonNeg u.utxos
    → All (FreshId u.utxos) b.transactions
    → NonNeg (apply_txs b.index b.transactions u).utxos
      × (total_value (apply_txs b.index b.transactions u).utxos
          ≤ℤ total_value u.utxos +ℤ pos (block_subsidy b.index))
unfolding contents_ok
contents_supply env c u b h k f =
    block_total env.crypto (block_rules c b.index) b.index u b.transactions (ground arith)
      (ground arith) (ground arith) (ground arith) k f

-- A block is accepted only if its contents are.
pub validate-contents :
    (env : Env) (c : Blockchain) (now : ℕ) (b : Block) (expected : Option ℕ) (u : UtxoSet)
    → validate_block env c now b expected u ≡ some true
    → contents_ok env c u b ≡ true
unfolding validate_block
validate-contents env c now b expected u h = elim (Option-cases (meets_target env.crypto b)) [
  | inl bad ↦ ground arith
  | inr (pow, e) ↦ elim (Option-cases (links env c b)) [
    | inl bad ↦ ground arith
    | inr (linked, f) ↦ elim (Option-cases (merkle_root env.crypto (map tx_id b.transactions))) [
      | inl bad ↦ ground arith
      | inr (root, g) ↦ ground arith
    ]
  ]
]

-- The linear case of `add_block`: an accepted block raises the coins in circulation by at most
-- its subsidy and leaves no negative output, provided that no output is negative before and
-- that the txids of the block name no output yet.
pub extend_supply :
    (env : Env) (now : ℕ) (b : Block) (c c' : Blockchain)
    → extend env now b c ≡ some (c', true)
    → NonNeg c.utxo.utxos
    → All (FreshId c.utxo.utxos) b.transactions
    → NonNeg c'.utxo.utxos
      × (total_value c'.utxo.utxos ≤ℤ total_value c.utxo.utxos +ℤ pos (block_subsidy b.index))
unfolding extend commit commit_hashed
extend_supply env now b c c' h k f =
    let (valid, checked, h1) =
      >>=-eq-some (validate_block env c now b (some (expected_bits c b.index)) c.utxo) _ h in
    elim (Bool-cases valid) [
      | inl passed ↦
          let contents : contents_ok env c c.utxo b ≡ true =
            validate-contents env c now b (some (expected_bits c b.index)) c.utxo
              (rw passed at checked) in
          let (d, committed, h2) = >>=-eq-some (commit env.crypto b c) _ (rw passed at h1) in
          let (hash, _, h3) = >>=-eq-some (compute_hash env.crypto b) _ committed in
          let e : apply_txs b.index b.transactions c.utxo ≡ c'.utxo = ground arith in
          rw (← e) (contents_supply env c c.utxo b contents k f)
      | inr failed ↦ ground arith
    ]
