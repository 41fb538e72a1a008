-- ===== src/Node/Api.antt =====
-- node/node.py: the HTTP rate limiter and the handler of POST /tx. The body of a request is `none`
-- where it is no JSON.
use arche_blockchain.Prelude.{
  ℕ, ◌≡◌, refl, ◌+◌, arith, Bool, true, false, not, Option, none, some, List, [], ◌∷◌, ◌++◌, length,
  leb, Text, if◌then◌else◌, text_eq,
}
use arche_blockchain.Int.{pos}
use arche_blockchain.Dict
use arche_blockchain.Dict.{Dict}
use arche_blockchain.Float.{Float}
use arche_blockchain.Tx.{Crypto}
use arche_blockchain.Tx.Validate.{is_empty, validate_transaction}
use arche_blockchain.Node.{Pooled, in_pool, pool_rules}
use arche_blockchain.Node.Blocks.{NodeState, Outgoing, announce_tx}

module _ {W : Type 0} ⦃fl : Float W⦄ where
  -- `[t for t in times if now - t < 60]`
  unfoldable pub last_minute : W → List W → List W
  last_minute now [] = []
  last_minute now (t ∷ ts) =
      let rest = last_minute now ts in
      if fl.lt (fl.sub now t) (fl.of_int (pos 60)) then t ∷ rest else rest

  unfoldable pub check_rate : W → Text → ℕ → Dict Text (List W) → Dict Text (List W) × Bool
  check_rate now ip limit rates =
      let times = last_minute now (elim (Dict.get ip rates) [ none ↦ [] | some times ↦ times ]) in
      if leb limit (length times)
      then (Dict.put ip times rates, false)
      else (Dict.put ip (times ++ (now ∷ [])) rates, true)

pub data Response : Type 0 where
  rate_limit_exceeded : Response
  invalid_json : Response
  missing_txid : Response
  invalid_transaction : Response
  accepted : Text → Response

-- The handler once the request is within the rate. It keeps the `_fee_cache` that the sender wrote,
-- which counts as 0 where there is none.
unfoldable pub submit_tx : Crypto → Option Pooled → NodeState → NodeState × Response × List Outgoing
submit_tx crypto none st = (st, invalid_json, [])
submit_tx crypto (some p) st =
    if is_empty p.tx.txid
    then (st, missing_txid, [])
    else if not (validate_transaction crypto (pool_rules st.chain st.fee_floor) st.chain.utxo p.tx)
    then (st, invalid_transaction, [])
    else (
      record st {
        mempool = if in_pool p.tx.txid st.mempool then st.mempool else st.mempool ++ (p ∷ []);
      },
      accepted p.tx.txid,
      announce_tx p.tx ∷ [],
    )

module _ {W : Type 0} ⦃fl : Float W⦄ where
  unfoldable pub post_tx :
      Crypto
      → W
      → Text
      → Option Pooled
      → Dict Text (List W)
      → NodeState
      → Dict Text (List W) × (NodeState × Response × List Outgoing)
  post_tx crypto now ip body rates st =
      let (counted, within) = check_rate now ip 30 rates in
      if within
      then (counted, submit_tx crypto body st)
      else (counted, (st, rate_limit_exceeded, []))

length-append : {A : Type 0} (xs : List A) (x : A) → length (xs ++ (x ∷ [])) ≡ length xs + 1
length-append [] x = refl
length-append (y ∷ ys) x = let rest = length-append ys x in omega arith

-- The handler has no limit on the pool: a valid transaction that is not in it is added at any size.
submit_tx_grows :
    (crypto : Crypto) (p : Pooled) (st : NodeState)
    → is_empty p.tx.txid ≡ false
    → validate_transaction crypto (pool_rules st.chain st.fee_floor) st.chain.utxo p.tx ≡ true
    → in_pool p.tx.txid st.mempool ≡ false
    → length (submit_tx crypto (some p) st).0.mempool ≡ length st.mempool + 1
unfolding submit_tx
submit_tx_grows crypto p st named valid new =
    rw named (rw valid (rw new (length-append st.mempool p)))
