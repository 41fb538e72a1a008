-- ===== src/Node/Mempool.antt =====
-- Bounds of the memory pool (`_handle_tx` of node/node.py).
use arche_blockchain.Prelude.{
  suc, ◌-◌, ◌≤◌, ◌<◌, ◌≡◌, refl, false, List, [], ◌∷◌, ◌++◌, arith, length, leb, Bool-cases, inl,
  inr,
}
use arche_blockchain.Int.{ℤ}
use arche_blockchain.Params.{max_mempool_size}
use arche_blockchain.Tx.{Crypto, TxDict, UtxoSet}
use arche_blockchain.Tx.Validate.{is_empty, validate_transaction}
use arche_blockchain.Chain.{Blockchain}
use arche_blockchain.Node.Sorted.{LostCheapest, sort_by_fee-Perm, sort_by_fee-IsSorted, dropped}
use arche_blockchain.Node.{
  Pooled, in_pool, insert_by_fee, sort_by_fee, drop_first, evict, pool_rules, add_to_pool,
  handle_tx,
}

length-insert_by_fee :
    (p : Pooled) (ps : List Pooled) → length (insert_by_fee p ps) ≡ suc (length ps)
unfolding insert_by_fee
length-insert_by_fee p [] = refl
length-insert_by_fee p (q ∷ qs) = ground (arith, length-insert_by_fee p qs)

length-sort_by_fee : (ps : List Pooled) → length (sort_by_fee ps) ≡ length ps
unfolding sort_by_fee
length-sort_by_fee [] = refl
length-sort_by_fee (p ∷ ps) =
    omega (arith, length-insert_by_fee p (sort_by_fee ps), length-sort_by_fee ps)

length-drop_first : (ps : List Pooled) → length (drop_first ps) ≡ length ps - 1
unfolding drop_first
length-drop_first [] = refl
length-drop_first (p ∷ ps) = omega arith

length-evict_full :
    (ps : List Pooled) → max_mempool_size ≤ length ps → length (evict ps) ≡ length ps - 1
unfolding evict
length-evict_full ps h = elim (Bool-cases (leb max_mempool_size (length ps))) [
  | inl full ↦ rw full (omega (arith, length-drop_first (sort_by_fee ps), length-sort_by_fee ps))
  | inr room ↦ ground arith
]

length-evict :
    (ps : List Pooled) → length ps ≤ max_mempool_size → length (evict ps) < max_mempool_size
length-evict ps h = elim (Bool-cases (leb max_mempool_size (length ps))) [
  | inl full ↦ omega (arith, length-evict_full ps (ground arith))
  | inr room ↦ unfold evict in rw room (ground arith)
]

length-append_one : (ps : List Pooled) (p : Pooled) → length (ps ++ (p ∷ [])) ≡ suc (length ps)
length-append_one [] p = refl
length-append_one (q ∷ ps) p = omega (arith, length-append_one ps p)

length-add_to_pool :
    (u : UtxoSet) (tx : TxDict) (ps : List Pooled) → length (add_to_pool u tx ps) ≤ suc (length ps)
unfolding add_to_pool
length-add_to_pool u tx ps = elim (Bool-cases (in_pool tx.txid ps)) [
  | inl known ↦ rw known (omega arith)
  | inr new ↦ rw (new, length-append_one) (omega arith)
]

-- `_handle_tx` keeps a pool within its limit, whatever the transaction.
pub handle_tx-bounded :
    (crypto : Crypto) (c : Blockchain) (fee_floor : ℤ) (tx : TxDict) (pool : List Pooled)
    → length pool ≤ max_mempool_size
    → length (handle_tx crypto c fee_floor tx pool).0 ≤ max_mempool_size
unfolding handle_tx
handle_tx-bounded crypto c fee_floor tx pool h =
    ground (arith, length-evict pool h, length-add_to_pool c.utxo tx (evict pool))

evict_full-LostCheapest :
    (ps : List Pooled) → max_mempool_size ≤ length ps → LostCheapest ps (evict ps)
unfolding evict
evict_full-LostCheapest ps h = elim (Bool-cases (leb max_mempool_size (length ps))) [
  | inl full ↦ rw full (
      dropped ps (sort_by_fee ps) (omega (arith, length-sort_by_fee ps)) (sort_by_fee-Perm ps)
        (sort_by_fee-IsSorted ps))
  | inr room ↦ ground arith
]

-- A full pool loses an entry to a message that has a txid, is not in the pool and is not a valid
-- transaction: what is left is the pool without one entry, whose cached fee is at most that of each
-- entry that is left, and the message is not sent on.
pub invalid_tx_evicts :
    (crypto : Crypto) (c : Blockchain) (fee_floor : ℤ) (tx : TxDict) (pool : List Pooled)
    → length pool ≡ max_mempool_size
    → is_empty tx.txid ≡ false
    → in_pool tx.txid pool ≡ false
    → validate_transaction crypto (pool_rules c fee_floor) c.utxo tx ≡ false
    → LostCheapest pool (handle_tx crypto c fee_floor tx pool).0
      × (length (handle_tx crypto c fee_floor tx pool).0 ≡ max_mempool_size - 1)
      × ((handle_tx crypto c fee_floor tx pool).1 ≡ false)
unfolding handle_tx
invalid_tx_evicts crypto c fee_floor tx pool full named new invalid =
    rw (named, new, invalid)
      (
        evict_full-LostCheapest pool (omega arith),
        omega (arith, length-evict_full pool (omega arith)),
        refl,
      )
