-- ===== src/Chain/Reloadable.antt =====
-- A commit (node/chain.py) leaves outputs and coinbase heights that _rebuild_utxo can read back.
use arche_blockchain.Prelude.{
  ℕ, suc, ◌≡◌, false, some, Option, List, [], ◌∷◌, Text, All, Bool-cases, inl, inr, text_eq,
  pair_eq,
}
use arche_blockchain.Dict.{Dict}
use arche_blockchain.Dict.Entries.{All-put, All-pop}
use arche_blockchain.Dict.Keys.{IsDict, put-IsDict, pop-IsDict}
use arche_blockchain.Tx.{
  TxInput, TxOutput, TxDict, OutPoint, out_point, UtxoSet, put_outputs, pop_inputs,
}
use arche_blockchain.Chain.{spend_and_create, apply_tx, apply_txs}
use arche_blockchain.Chain.Rebuilt.{has_colon, IsReadable, IsReloadable}

module _ (reread : TxOutput → Option TxOutput) where
  -- The outputs alone.
  abbrev AreReadable : Dict OutPoint TxOutput → Type 0
  AreReadable d = IsDict d × All (IsReadable reread) d

  abbrev IsKept : TxOutput → Type 0
  IsKept out = reread out ≡ some out

  -- The txid has no colon, and json reads back each output as it was written.
  abbrev pub IsStorable : TxDict → Type 0
  IsStorable tx =
      (has_colon tx.txid ≡ false) × All (λ (out : TxOutput). reread out ≡ some out) tx.outputs

  put_outputs-AreReadable :
      (txid : Text) (n : ℕ) (outs : List TxOutput) (d : Dict OutPoint TxOutput)
      → has_colon txid ≡ false
      → All IsKept outs
      → AreReadable d
      → AreReadable (put_outputs txid n outs d)
  unfolding put_outputs
  put_outputs-AreReadable txid n [] d plain kept h = h
  put_outputs-AreReadable txid n (out ∷ outs) d plain (same, kept) (unique, readable) =
      put_outputs-AreReadable txid (suc n) outs _ plain kept (
        put-IsDict (txid, n) out d unique,
        All-put (IsReadable reread) (txid, n) out d (plain, same) readable,
      )

  pop_inputs-AreReadable :
      (is : List TxInput) (d : Dict OutPoint TxOutput)
      → AreReadable d
      → AreReadable (pop_inputs is d)
  unfolding pop_inputs
  pop_inputs-AreReadable [] d h = h
  pop_inputs-AreReadable (i ∷ is) d (unique, readable) =
      pop_inputs-AreReadable is _
        (pop-IsDict (out_point i) d unique, All-pop (IsReadable reread) (out_point i) d readable)

  apply_tx-IsReloadable :
      (height : ℕ) (tx : TxDict) (u : UtxoSet)
      → IsStorable tx
      → IsReloadable reread u
      → IsReloadable reread (apply_tx height tx u)
  unfolding apply_tx spend_and_create
  apply_tx-IsReloadable height tx u (plain, kept) h = elim (Bool-cases tx.coinbase) [
    | inl coinbase ↦
        let outs =
          put_outputs-AreReadable tx.txid 0 tx.outputs u.utxos plain kept
            (h.one_output, h.readable) in
        rw coinbase record {
          one_output = outs.0;
          one_height = put-IsDict tx.txid height u.coinbase_heights h.one_height;
          readable = outs.1;
        }
    | inr plain_tx ↦
        let outs =
          put_outputs-AreReadable tx.txid 0 tx.outputs (pop_inputs tx.inputs u.utxos) plain kept
            (pop_inputs-AreReadable tx.inputs u.utxos (h.one_output, h.readable)) in
        rw plain_tx record { one_output = outs.0; one_height = h.one_height; readable = outs.1 }
  ]

  pub apply_txs-IsReloadable :
      (height : ℕ) (txs : List TxDict) (u : UtxoSet)
      → All IsStorable txs
      → IsReloadable reread u
      → IsReloadable reread (apply_txs height txs u)
  unfolding apply_txs
  apply_txs-IsReloadable height [] u storable h = h
  apply_txs-IsReloadable height (tx ∷ txs) u (first, storable) h =
      apply_txs-IsReloadable height txs (apply_tx height tx u) storable
        (apply_tx-IsReloadable height tx u first h)
